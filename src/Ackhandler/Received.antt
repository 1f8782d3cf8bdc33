-- ===== src/Ackhandler/Received.antt =====
-- internal/ackhandler/received_packet_handler.go: the packets that were received in the three packet
-- number spaces. A tracker whose keys were dropped is `none`, and receiving a packet on it is a panic.
pub mod Calls
pub mod Spaces
use gt_bbr.Prelude.{ℕ, Bool, Option, none, some, ltb, ◌==◌, if◌then◌else◌}
use gt_bbr.Wire.AckFrame.{AckFrame}
use gt_bbr.Wire.FrameParser.{EncryptionLevel, unspecified, initial, handshake, one_rtt}
use gt_bbr.Ackhandler.Tracker
use gt_bbr.Ackhandler.Tracker.{
  ReceivedPacketTracker, Received, accepted, too_many_ranges, panicked, new_received_packet_tracker,
  ignore_below_packet, get_ack_frame,
}

pub record ReceivedPacketHandler : Type 0 where
  pub initial_packets : Option ReceivedPacketTracker
  pub handshake_packets : Option ReceivedPacketTracker
  pub one_rtt_packets : ReceivedPacketTracker

unfoldable pub new_received_packet_handler : ReceivedPacketHandler
new_received_packet_handler = record {
  initial_packets = some new_received_packet_tracker;
  handshake_packets = some new_received_packet_tracker;
  one_rtt_packets = new_received_packet_tracker;
}

-- What `ReceivedPacket` of the handler does: it returns nil, or the error of too many ranges or of an
-- unknown encryption level, with the handler after it, or it panics.
pub data Handled : Type 0 where
  handled : ReceivedPacketHandler → Handled
  refused : ReceivedPacketHandler → Handled
  unknown_level : ReceivedPacketHandler → Handled
  stopped : Handled

-- The handler with the tracker that was called.
unfoldable pub put_back : (ReceivedPacketTracker → ReceivedPacketHandler) → Received → Handled
put_back f (accepted t) = handled (f t)
put_back f (too_many_ranges t) = refused (f t)
put_back f panicked = stopped

unfoldable pub received_on :
    (ReceivedPacketTracker → ReceivedPacketHandler)
    → ℕ
    → ℕ
    → ℕ
    → Bool
    → Option ReceivedPacketTracker
    → Handled
unfolding put_back
received_on f min_rtt pn rcv_time should_instigate_ack none = stopped
received_on f min_rtt pn rcv_time should_instigate_ack (some t) =
    put_back f (Tracker.received_packet min_rtt pn rcv_time should_instigate_ack t)

unfoldable pub handler_received_packet :
    ℕ → ℕ → EncryptionLevel → ℕ → Bool → ReceivedPacketHandler → Handled
unfolding received_on
handler_received_packet min_rtt pn initial rcv_time should_instigate_ack h =
    received_on (λ t. record h { initial_packets = some t }) min_rtt pn rcv_time
      should_instigate_ack h.initial_packets
handler_received_packet min_rtt pn handshake rcv_time should_instigate_ack h =
    received_on (λ t. record h { handshake_packets = some t }) min_rtt pn rcv_time
      should_instigate_ack h.handshake_packets
handler_received_packet min_rtt pn one_rtt rcv_time should_instigate_ack h =
    received_on (λ t. record h { one_rtt_packets = t }) min_rtt pn rcv_time should_instigate_ack
      (some h.one_rtt_packets)
handler_received_packet min_rtt pn unspecified rcv_time should_instigate_ack h = unknown_level h

unfoldable pub handler_ignore_below : ℕ → ReceivedPacketHandler → ReceivedPacketHandler
handler_ignore_below pn h = record h { one_rtt_packets = ignore_below_packet pn h.one_rtt_packets }

-- `DropPackets`; `none` is a panic.
unfoldable pub drop_received :
    EncryptionLevel → ReceivedPacketHandler → Option ReceivedPacketHandler
drop_received initial h = some (record h { initial_packets = none })
drop_received handshake h = some (record h { handshake_packets = none })
drop_received one_rtt h = none
drop_received unspecified h = none

unfoldable pub min_time : ℕ → ℕ → ℕ
min_time a b = if ltb b a then b else a

unfoldable pub min_non_zero_time : ℕ → ℕ → ℕ
unfolding min_time
min_non_zero_time a b = if a == 0 then b else if b == 0 then a else min_time a b

unfoldable pub alarm_of : Option ReceivedPacketTracker → ℕ
alarm_of none = 0
alarm_of (some t) = t.ack_alarm

unfoldable pub get_alarm_timeout : ReceivedPacketHandler → ℕ
unfolding min_non_zero_time alarm_of
get_alarm_timeout h =
    min_non_zero_time
      (min_non_zero_time (alarm_of h.initial_packets) (alarm_of h.handshake_packets))
      h.one_rtt_packets.ack_alarm

-- The delay of an ACK frame on the Initial and Handshake levels is set to 0, in the frame that the
-- tracker keeps as its last one too, since it is the same.
unfoldable pub without_delay :
    ReceivedPacketTracker × Option AckFrame → ReceivedPacketTracker × Option AckFrame
without_delay (t, none) = (t, none)
without_delay (t, some f) =
    let ack : AckFrame = record f { delay_time = 0 } in (record t { last_ack = some ack }, some ack)

unfoldable pub ack_on :
    (Option ReceivedPacketTracker → ReceivedPacketHandler)
    → ℕ
    → Option ReceivedPacketTracker
    → ReceivedPacketHandler × Option AckFrame
unfolding without_delay
ack_on f now none = (f none, none)
ack_on f now (some t) = let (t1, ack) = without_delay (get_ack_frame now t) in (f (some t1), ack)

unfoldable pub handler_get_ack_frame :
    ℕ → EncryptionLevel → ReceivedPacketHandler → ReceivedPacketHandler × Option AckFrame
unfolding ack_on
handler_get_ack_frame now initial h =
    ack_on (λ t. record h { initial_packets = t }) now h.initial_packets
handler_get_ack_frame now handshake h =
    ack_on (λ t. record h { handshake_packets = t }) now h.handshake_packets
handler_get_ack_frame now one_rtt h =
    let (t, ack) = get_ack_frame now h.one_rtt_packets in (record h { one_rtt_packets = t }, ack)
handler_get_ack_frame now unspecified h = (h, none)
