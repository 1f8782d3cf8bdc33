-- ===== src/Ackhandler/Received/Calls.antt =====
-- internal/ackhandler/received_packet_handler.go: sequences of calls on the handler, and those of them
-- that are for one level on a tracker alone.
use gt_bbr.Prelude.{ℕ, Bool, Option, none, some, List, [], ◌∷◌, if◌then◌else◌}
use gt_bbr.Wire.AckFrame.{AckFrame}
use gt_bbr.Wire.FrameParser.{EncryptionLevel, unspecified, initial, handshake, one_rtt, is_level}
use gt_bbr.Ackhandler.Tracker
use gt_bbr.Ackhandler.Tracker.{
  ReceivedPacketTracker, Received, accepted, too_many_ranges, panicked, ignore_below_packet,
  get_ack_frame,
}
use gt_bbr.Ackhandler.Received.{
  ReceivedPacketHandler, Handled, handled, refused, unknown_level, stopped, handler_received_packet,
  handler_ignore_below, drop_received, handler_get_ack_frame,
}

pub data Op : Type 0 where
  receive : ℕ → ℕ → EncryptionLevel → ℕ → Bool → Op
  ignore : ℕ → Op
  drop_keys : EncryptionLevel → Op
  acknowledge : ℕ → EncryptionLevel → Op

unfoldable pub handler_of : Handled → Option ReceivedPacketHandler
handler_of (handled h) = some h
handler_of (refused h) = some h
handler_of (unknown_level h) = some h
handler_of stopped = none

-- One call; `none` is a panic.
unfoldable pub call : Op → ReceivedPacketHandler → Option ReceivedPacketHandler
unfolding handler_of handler_received_packet handler_ignore_below drop_received
    handler_get_ack_frame
call (receive min_rtt pn level rcv_time instigate) h =
    handler_of (handler_received_packet min_rtt pn level rcv_time instigate h)
call (ignore pn) h = some (handler_ignore_below pn h)
call (drop_keys level) h = drop_received level h
call (acknowledge now level) h = some (handler_get_ack_frame now level h).0

unfoldable pub run : List Op → ReceivedPacketHandler → Option ReceivedPacketHandler
unfolding call
run [] h = some h
run (op ∷ ops) h = elim (call op h) [ none ↦ none | some h1 ↦ run ops h1 ]

unfoldable pub tracker_at : EncryptionLevel → ReceivedPacketHandler → Option ReceivedPacketTracker
tracker_at initial h = h.initial_packets
tracker_at handshake h = h.handshake_packets
tracker_at one_rtt h = some h.one_rtt_packets
tracker_at unspecified h = none

unfoldable pub tracker_of : Received → Option ReceivedPacketTracker
tracker_of (accepted t) = some t
tracker_of (too_many_ranges t) = some t
tracker_of panicked = none

-- A frame with the same ranges and a delay of 0, which is the last one of the tracker too.
unfoldable pub at_once :
    ReceivedPacketTracker × Option AckFrame → ReceivedPacketTracker × Option AckFrame
at_once (t, none) = (t, none)
at_once (t, some f) =
    let ack : AckFrame = record { ack_ranges = f.ack_ranges; delay_time = 0 } in
    (record t { last_ack = some ack }, some ack)

-- `GetAckFrame` of a tracker alone: except on 1-RTT, the delay is 0.
unfoldable pub acknowledge_alone :
    EncryptionLevel → ℕ → ReceivedPacketTracker → ReceivedPacketTracker × Option AckFrame
unfolding at_once
acknowledge_alone initial now t = at_once (get_ack_frame now t)
acknowledge_alone handshake now t = at_once (get_ack_frame now t)
acknowledge_alone one_rtt now t = get_ack_frame now t
acknowledge_alone unspecified now t = (t, none)

-- One call on a tracker alone.
unfoldable pub track : Op → Option ReceivedPacketTracker → Option ReceivedPacketTracker
unfolding tracker_of acknowledge_alone
track op none = none
track (receive min_rtt pn level rcv_time instigate) (some t) =
    tracker_of (Tracker.received_packet min_rtt pn rcv_time instigate t)
track (ignore pn) (some t) = some (ignore_below_packet pn t)
track (drop_keys level) (some t) = none
track (acknowledge now level) (some t) = some (acknowledge_alone level now t).0

-- Whether a call is for the space of a level.
unfoldable pub is_for : EncryptionLevel → Op → Bool
is_for level (receive _ _ l _ _) = is_level level l
is_for level (ignore _) = is_level level one_rtt
is_for level (drop_keys l) = is_level level l
is_for level (acknowledge _ l) = is_level level l

-- A tracker after those of the calls that are for its level.
unfoldable pub replay :
    EncryptionLevel → List Op → Option ReceivedPacketTracker → Option ReceivedPacketTracker
unfolding track is_for
replay level [] o = o
replay level (op ∷ ops) o = replay level ops (if is_for level op then track op o else o)

-- The frame that a tracker alone gives, with a delay of 0 except on 1-RTT.
unfoldable pub reported : EncryptionLevel → ℕ → Option ReceivedPacketTracker → Option AckFrame
unfolding acknowledge_alone
reported level now none = none
reported level now (some t) = (acknowledge_alone level now t).1
