-- ===== src/Tests/Sent.antt =====
-- internal/ackhandler/sent_packet_handler.go, sent_packet_history.go: PINGs are sent, one of them again.
use gt_bbr.Prelude.{ℕ, ◌≡◌, refl, ◌≢◌, true, false, none, some, List, [], ◌∷◌, arith}
use gt_bbr.Prelude.Reader.{Result, ok, err, out_of_fuel}
use gt_bbr.Wire.Control.{PingFrame}
use gt_bbr.Wire.Control
use gt_bbr.Wire.FrameParser
use gt_bbr.Wire.FrameParser.{Frame, EncryptionLevel, one_rtt}
use gt_bbr.Ackhandler.SentHistory.{
  Packet, SentPacketHistory, new_sent_packet_history, sent_packet_impl, find_packet,
  has_outstanding_packets,
}
use gt_bbr.Ackhandler.SentHistory.Refinement.{
  Op, send, mark, remove, run, replay, Shows, run_refines,
}
use gt_bbr.Ackhandler.Sent.{
  SentPacketHandler, new_packet_number_space, new_sent_packet_handler, get_packet_number_space,
  set_packet_number_space, has_outstanding_crypto_packets, handler_has_outstanding_packets,
  update_loss_detection_alarm,
}
use gt_bbr.Ackhandler.Sent.Sending.{
  sent_copy, count_ack_eliciting_packet, tell_congestion, send_packet_impl, change_history,
  keep_packet, handler_sent_packet, handler_sent_packets_as_retransmission,
}
use gt_bbr.Ackhandler.Sent.Calls.{Call, sent, Calls, none_yet}
use gt_bbr.Ackhandler.Sent.Acked.{stop_retransmissions}
use gt_bbr.Ackhandler.Sent.Acked.Fuel.{stop_retransmissions_ends}
use gt_bbr.Ackhandler.Sent.Unrecovered.{never_in_recovery}
use gt_bbr.Ackhandler.Sent.Accounting.{total}
use gt_bbr.Ackhandler.Sent.Accounting.Traces.{start, next, bytes_in_flight_exact}
use gt_bbr.Congestion.Bbr.Queries.{in_recovery}
use gt_bbr.Utils.VarInt.{u64}

abbrev packet : ℕ → List ℕ → Packet
packet n again = record {
  packet_number = n;
  ack = none;
  frames = FrameParser.ping Control.ping ∷ [];
  length = 1200;
  encryption_level = one_rtt;
  send_time = 10;
  largest_acked = none;
  can_be_retransmitted = true;
  included_in_bytes_in_flight = true;
  retransmitted_as = again;
  is_retransmission = false;
  retransmission_of = 0;
}

-- Packets 1 and 2 are sent, 1 is queued for retransmission and sent again as 3, and 2 is removed.
abbrev ops : List Op
ops = send (packet 1 []) ∷ send (packet 2 []) ∷ mark 1 ∷ send (packet 3 []) ∷ remove 2 ∷ []

run_refines_example : Shows (run ops new_sent_packet_history) (replay ops [])
run_refines_example =
    run_refines ops (omega arith, refl, (omega arith, refl, (omega arith, refl, tt)))

-- Packet 1 was sent again as packet 2.
abbrev again : SentPacketHistory
again = record {
  packet_list = packet 1 (2 ∷ []) ∷ packet 2 [] ∷ [];
  num_outstanding_packets = 1;
  first_outstanding = some 2;
}

stop_retransmissions_ends_example : stop_retransmissions (packet 1 (2 ∷ [])) again ≢ err out_of_fuel
unfolding find_packet
stop_retransmissions_ends_example =
    stop_retransmissions_ends (packet 1 (2 ∷ [])) again ((omega arith, tt), (tt, tt)) refl

abbrev handler : SentPacketHandler
handler = new_sent_packet_handler 0 0

abbrev or_before : Result SentPacketHandler → SentPacketHandler
or_before (ok h) = h
or_before (err e) = handler

-- One packet is sent.
abbrev one_sent : SentPacketHandler
one_sent = or_before (handler_sent_packet (packet 1 []) handler)

one_sent_ok : handler_sent_packet (packet 1 []) handler ≡ ok one_sent
unfolding new_sent_packet_handler new_packet_number_space new_sent_packet_history sent_copy
    count_ack_eliciting_packet tell_congestion send_packet_impl change_history keep_packet
    handler_sent_packet handler_sent_packets_as_retransmission get_packet_number_space
    set_packet_number_space sent_packet_impl update_loss_detection_alarm
    handler_has_outstanding_packets has_outstanding_crypto_packets has_outstanding_packets
one_sent_ok = refl

sends : Call handler one_sent
sends = sent (packet 1 []) handler one_sent one_sent_ok

bytes_in_flight_exact_example : one_sent.bytes_in_flight ≡ u64 (total one_sent)
unfolding new_sent_packet_handler new_packet_number_space new_sent_packet_history
bytes_in_flight_exact_example =
    bytes_in_flight_exact 0 0 one_sent
      (next start (tt, tt, tt) (sent (packet 1 []) handler one_sent one_sent_ok) tt)

never_in_recovery_example : in_recovery one_sent.congestion ≡ false
never_in_recovery_example = never_in_recovery 0 0 one_sent (Calls.next none_yet sends)
