-- ===== src/Ackhandler/Sent/Received.antt =====
-- internal/ackhandler/sent_packet_handler.go: `ReceivedAck`.
use gt_bbr.Ackhandler.Sent.Acked.{on_packet_acked}
use gt_bbr.Prelude.{
  ℕ, ◌+◌, min, max, Bool, true, not, Option, none, some, List, [], ◌∷◌, map, ltb, if◌then◌else◌,
}
use gt_bbr.Prelude.Reader.{◌>>=◌, Result, ok, err, acked_unsent_packet, acked_skipped_packet}
use gt_bbr.Wire.FrameParser.{EncryptionLevel}
use gt_bbr.Wire.AckFrame.{AckFrame}
use gt_bbr.Wire.AckFrame.Acks.{largest_acked}
use gt_bbr.Ackhandler.SentHistory.{Packet, get_packet, collect}
use gt_bbr.Ackhandler.Sent.{
  PacketNumberSpace, SentPacketHandler, Outside, inputs, get_packet_number_space,
  set_packet_number_space, is_one_rtt, update_loss_detection_alarm, to_packet,
}
use gt_bbr.Ackhandler.Sent.Loss.{detect_lost_packets}
use gt_bbr.Ackhandler.Sent.Acks.{determine_newly_acked_packets}
use gt_bbr.Ackhandler.Sent.Acked
use gt_bbr.Ackhandler.Generator.{validate}
use gt_bbr.Congestion.Bbr.Event.{on_congestion_event}
use gt_bbr.Congestion.Bbr.Model
use gt_bbr.Congestion.RttStats.{update_rtt}
use gt_bbr.Congestion.BandwidthSampler.{time_sub}

abbrev pub max_number : Option ℕ → ℕ → ℕ
max_number none n = n
max_number (some m) n = max m n

abbrev pub exceeds : ℕ → Option ℕ → Bool
exceeds n none = true
exceeds n (some m) = ltb m n

-- The round-trip time is measured with the largest packet, if that is still in the history.
unfoldable pub maybe_update_rtt :
    Outside
    → AckFrame
    → EncryptionLevel
    → ℕ
    → PacketNumberSpace
    → SentPacketHandler
    → SentPacketHandler
unfolding get_packet
maybe_update_rtt o ack level rcv_time s h = elim (get_packet (largest_acked ack) s.history) [
  | none ↦ h
  | some p ↦
      let ack_delay = if is_one_rtt level then min ack.delay_time h.max_ack_delay else 0 in
      record h {
        rtt_stats = update_rtt o.weights (time_sub rcv_time p.send_time) ack_delay h.rtt_stats;
      }
]

abbrev pub raise_lowest : EncryptionLevel → Packet → SentPacketHandler → SentPacketHandler
raise_lowest level p h = elim p.largest_acked [
  | none ↦ h
  | some n ↦
      if is_one_rtt level
      then record h { lowest_not_confirmed_acked = max h.lowest_not_confirmed_acked (n + 1) }
      else h
]

-- The loop on the newly acknowledged packets.
unfoldable pub ack_packets :
    EncryptionLevel → List Packet → SentPacketHandler → Result SentPacketHandler
unfolding on_packet_acked
ack_packets level [] h = ok h
ack_packets level (p ∷ ps) h = do
  h1 ← Acked.on_packet_acked p (raise_lowest level p h)
  ack_packets level ps h1

-- `ackedPacketsForEvent`
abbrev pub packets_for_event : List Packet → List Model.Packet
packets_for_event ps = map to_packet (collect (λ p. p.included_in_bytes_in_flight) ps)

-- After the loop: the lost packets are detected, and the congestion controller is called. The slice
-- `lostPacketsForEvent` that it is given is the outer one, which no statement assigns: the slice that
-- is filled is a variable of the inner block.
unfoldable pub report_acks :
    Outside → ℕ → ℕ → EncryptionLevel → List Packet → SentPacketHandler → Result SentPacketHandler
unfolding detect_lost_packets inputs to_packet update_loss_detection_alarm
report_acks o prior_in_flight rcv_time level acked h = do
  (h1, lost) ← detect_lost_packets o rcv_time level h
  ok (
      update_loss_detection_alarm (record h1 {
        congestion =
            on_congestion_event (inputs o h1) prior_in_flight rcv_time (packets_for_event acked) []
              h1.congestion;
        pto_count = 0;
        crypto_count = 0;
        num_probes_to_send = 0;
      }))

-- Nothing is done for a frame that acknowledges no new packet.
unfoldable pub process_acked :
    Outside → ℕ → EncryptionLevel → List Packet → SentPacketHandler → Result SentPacketHandler
unfolding ack_packets report_acks
process_acked o rcv_time level [] h = ok h
process_acked o rcv_time level (p ∷ ps) h = do
  h1 ← ack_packets level (p ∷ ps) h
  report_acks o h.bytes_in_flight rcv_time level (p ∷ ps) h1

-- The frame is checked against the largest packet sent and the skipped packet numbers.
unfoldable pub check_ack : AckFrame → PacketNumberSpace → Result PacketNumberSpace
check_ack ack s =
    if exceeds (largest_acked ack) s.largest_sent
    then err acked_unsent_packet
    else if not (validate ack s.pns)
    then err acked_skipped_packet
    else ok (record s { largest_acked = some (max_number s.largest_acked (largest_acked ack)) })

unfoldable pub received_ack :
    Outside → AckFrame → EncryptionLevel → ℕ → SentPacketHandler → Result SentPacketHandler
unfolding get_packet_number_space check_ack determine_newly_acked_packets process_acked
    maybe_update_rtt set_packet_number_space
received_ack o ack level rcv_time h = do
  s ← get_packet_number_space level h
  s1 ← check_ack ack s
  acked ← determine_newly_acked_packets ack s1.history.packet_list
  process_acked o rcv_time level acked
      (maybe_update_rtt o ack level rcv_time s1 (set_packet_number_space level s1 h))
