-- ===== src/Ackhandler/Sent/Sending.antt =====
-- internal/ackhandler/sent_packet_handler.go: what is recorded when packets are sent.
use gt_bbr.Prelude.{
  ℕ, ◌+◌, ◌-◌, max, Bool, true, not, Option, none, some, List, [], ◌∷◌, map, ◌==◌, if◌then◌else◌,
  length,
}
use gt_bbr.Prelude.Reader.{◌>>=◌, Result, ok, err, panic}
use gt_bbr.Utils.VarInt.{u64}
use gt_bbr.Wire.FrameParser.{EncryptionLevel}
use gt_bbr.Wire.AckFrame.{AckFrame}
use gt_bbr.Wire.AckFrame.Acks.{largest_acked}
use gt_bbr.Ackhandler.SentHistory.{
  Packet, SentPacketHistory, sent_packet_impl, history_sent_as_retransmission, collect,
}
use gt_bbr.Ackhandler.Sent.{
  SentPacketHandler, get_packet_number_space, set_packet_number_space, is_one_rtt,
  update_loss_detection_alarm,
}
use gt_bbr.Congestion.Bbr.Event.{bbr_on_packet_sent}

-- `TimeUntilSend` of the BBR sender: 1 microsecond.
abbrev pub time_until_send : ℕ
time_until_send = 1000

abbrev pub is_ack_eliciting : Packet → Bool
is_ack_eliciting p = not (length p.frames == 0)

abbrev pub largest_of : Option AckFrame → Option ℕ
largest_of none = none
largest_of (some ack) = some (largest_acked ack)

-- The packet after `sentPacketImpl`.
unfoldable pub sent_copy : Packet → Packet
sent_copy p =
    if is_ack_eliciting p
    then record p {
      largest_acked = largest_of p.ack;
      ack = none;
      included_in_bytes_in_flight = true;
      can_be_retransmitted = true;
    }
    else record p { largest_acked = largest_of p.ack; ack = none }

-- The fields of the handler that an ack-eliciting packet changes.
unfoldable pub count_ack_eliciting_packet : Packet → SentPacketHandler → SentPacketHandler
count_ack_eliciting_packet p h = if not (is_ack_eliciting p) then h else record h {
  last_sent_crypto_packet_time =
      if is_one_rtt p.encryption_level then h.last_sent_crypto_packet_time else p.send_time;
  last_sent_ack_eliciting_packet_time = p.send_time;
  bytes_in_flight = u64 (h.bytes_in_flight + p.length);
  num_probes_to_send = h.num_probes_to_send - 1;
}

-- The congestion controller is told the bytes in flight with the packet.
unfoldable pub tell_congestion : Packet → SentPacketHandler → SentPacketHandler
tell_congestion p h = record h {
  congestion =
      bbr_on_packet_sent p.send_time h.bytes_in_flight p.packet_number p.length (is_ack_eliciting p)
        h.congestion;
  next_send_time = max h.next_send_time p.send_time + time_until_send;
}

-- `sentPacketImpl`
unfoldable pub send_packet_impl : Packet → SentPacketHandler → Result SentPacketHandler
unfolding get_packet_number_space set_packet_number_space count_ack_eliciting_packet tell_congestion
send_packet_impl p h = do
  s ← get_packet_number_space p.encryption_level h
  ok (
      tell_congestion p (
        count_ack_eliciting_packet p (
          set_packet_number_space p.encryption_level
            (record s { largest_sent = some p.packet_number }) h)))

-- A change of the history of a space.
unfoldable pub change_history :
    EncryptionLevel
    → (SentPacketHistory → SentPacketHistory)
    → SentPacketHandler
    → Result SentPacketHandler
unfolding get_packet_number_space set_packet_number_space
change_history level f h = do
  s ← get_packet_number_space level h
  ok (set_packet_number_space level (record s { history = f s.history }) h)

-- An ack-eliciting packet is kept.
unfoldable pub keep_packet : Packet → SentPacketHandler → Result SentPacketHandler
unfolding change_history update_loss_detection_alarm sent_copy
keep_packet p h = do
  h1 ← change_history p.encryption_level (sent_packet_impl (sent_copy p)) h
  ok (update_loss_detection_alarm h1)

-- `SentPacket`
unfoldable pub handler_sent_packet : Packet → SentPacketHandler → Result SentPacketHandler
unfolding send_packet_impl keep_packet
handler_sent_packet p h = do
  h1 ← send_packet_impl p h
  if is_ack_eliciting p then keep_packet p h1 else ok h1

abbrev pub send_packets_impl : List Packet → SentPacketHandler → Result SentPacketHandler
send_packets_impl [] h = ok h
send_packets_impl (p ∷ ps) h = do h1 ← send_packet_impl p h; send_packets_impl ps h1

abbrev pub sent_copies : List Packet → List Packet
sent_copies ps = map sent_copy (collect is_ack_eliciting ps)

-- The level of the first packet; without a packet, the index is out of range.
abbrev pub first_level : List Packet → Result EncryptionLevel
first_level [] = err panic
first_level (p ∷ ps) = ok p.encryption_level

unfoldable pub handler_sent_packets_as_retransmission :
    List Packet → ℕ → SentPacketHandler → Result SentPacketHandler
unfolding change_history history_sent_as_retransmission update_loss_detection_alarm
handler_sent_packets_as_retransmission packets retransmission_of h = do
  h1 ← send_packets_impl packets h
  level ← first_level (sent_copies packets)
  h2 ←
      change_history level (history_sent_as_retransmission (sent_copies packets) retransmission_of)
        h1
  ok (update_loss_detection_alarm h2)
