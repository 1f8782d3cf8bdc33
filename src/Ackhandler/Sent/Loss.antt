-- ===== src/Ackhandler/Sent/Loss.antt =====
-- internal/ackhandler/sent_packet_handler.go: packets that are queued for retransmission, packets that
-- are lost, and the alarm.
use gt_bbr.Prelude.{
  ℕ, ◌+◌, ◌-◌, ◌%◌, ◌^◌, max, Bool, true, not, ◌&&◌, Option, none, some, List, [], ◌∷◌, ◌++◌, map,
  ltb, ◌==◌, if◌then◌else◌,
}
use gt_bbr.Prelude.Reader.{◌>>=◌, Result, ok, err, packet_already_queued}
use gt_bbr.Wire.FrameParser.{EncryptionLevel, initial, handshake, one_rtt}
use gt_bbr.Ackhandler.SentHistory.{
  Packet, SentPacketHistory, history_remove, mark_cannot_be_retransmitted, collect,
}
use gt_bbr.Ackhandler.Sent.{
  sub_word, PacketNumberSpace, SentPacketHandler, Outside, inputs, get_packet_number_space,
  set_packet_number_space, is_one_rtt, update_loss_detection_alarm, to_packet,
  has_outstanding_crypto_packets, handler_has_outstanding_packets, timer_granularity,
}
use gt_bbr.Congestion.Bbr.Event.{on_congestion_event}

unfoldable pub update_history :
    EncryptionLevel
    → (SentPacketHistory → Result SentPacketHistory)
    → SentPacketHandler
    → Result SentPacketHandler
unfolding get_packet_number_space set_packet_number_space
update_history level f h = do
  s ← get_packet_number_space level h
  history ← f s.history
  ok (set_packet_number_space level (record s { history = history }) h)

unfoldable pub queue_packet_for_retransmission :
    EncryptionLevel → Packet → SentPacketHandler → Result SentPacketHandler
unfolding update_history mark_cannot_be_retransmitted
queue_packet_for_retransmission level p h =
    if not p.can_be_retransmitted then err packet_already_queued else do
      h1 ← update_history level (mark_cannot_be_retransmitted p.packet_number) h
      ok (record h1 { retransmission_queue = h1.retransmission_queue ++ (p ∷ []) })

unfoldable pub queue_packets_for_retransmission :
    EncryptionLevel → List Packet → SentPacketHandler → Result SentPacketHandler
unfolding queue_packet_for_retransmission
queue_packets_for_retransmission level [] h = ok h
queue_packets_for_retransmission level (p ∷ ps) h = do
  h1 ← queue_packet_for_retransmission level p h
  queue_packets_for_retransmission level ps h1

abbrev pub retransmittable : SentPacketHistory → List Packet
retransmittable history = collect (λ p. p.can_be_retransmitted) history.packet_list

unfoldable pub queue_all_packets_for_retransmission :
    EncryptionLevel → SentPacketHandler → Result SentPacketHandler
unfolding get_packet_number_space queue_packets_for_retransmission
queue_all_packets_for_retransmission level h = do
  s ← get_packet_number_space level h
  queue_packets_for_retransmission level (retransmittable s.history) h

unfoldable pub queue_crypto_packets_for_retransmission :
    SentPacketHandler → Result SentPacketHandler
unfolding queue_all_packets_for_retransmission
queue_crypto_packets_for_retransmission h = do
  h1 ← queue_all_packets_for_retransmission initial h
  queue_all_packets_for_retransmission handshake h1

-- What the first loop of `detectLostPackets` finds: the lost packets, and the loss time.
pub record Scan : Type 0 where
  pub lost : List Packet
  pub scan_loss_time : ℕ

abbrev pub above_largest : ℕ → Option ℕ → Bool
above_largest pn none = true
above_largest pn (some largest) = ltb largest pn

-- The loss time after a packet: it is set once, by a packet that is not lost yet.
abbrev pub scan_time : ℕ → ℕ → Bool → ℕ → Packet → ℕ
scan_time now loss_delay is_one loss_time p =
    let since = now - p.send_time in
    if not (ltb loss_delay since) && loss_time == 0 && is_one
    then now + (loss_delay - since)
    else loss_time

-- One turn: whether the packet ends the loop, whether it has expired, and what the later turns find.
abbrev pub scan_turn : Bool → Bool → ℕ → Packet → Scan → Scan
scan_turn ends expired loss_time p rest =
    if ends
    then record { lost = []; scan_loss_time = loss_time }
    else if expired
    then record { lost = p ∷ rest.lost; scan_loss_time = rest.scan_loss_time }
    else rest

abbrev pub scan_packets : ℕ → ℕ → Bool → Option ℕ → ℕ → List Packet → Scan
scan_packets now loss_delay is_one largest loss_time [] = record {
  lost = [];
  scan_loss_time = loss_time;
}
scan_packets now loss_delay is_one largest loss_time (p ∷ ps) =
    scan_turn (above_largest p.packet_number largest) (ltb loss_delay (now - p.send_time)) loss_time
      p
      (scan_packets now loss_delay is_one largest (scan_time now loss_delay is_one loss_time p) ps)

-- The second loop. Each lost packet is one of the history, so that `Remove` finds it.
unfoldable pub subtract_lost : Packet → SentPacketHandler → SentPacketHandler
subtract_lost p h =
    if p.included_in_bytes_in_flight
    then record h { bytes_in_flight = sub_word h.bytes_in_flight p.length }
    else h

unfoldable pub lose_packet : EncryptionLevel → Packet → SentPacketHandler → Result SentPacketHandler
unfolding subtract_lost queue_packet_for_retransmission update_history history_remove
lose_packet level p h = do
  h1 ←
      if p.can_be_retransmitted
      then queue_packet_for_retransmission level p (subtract_lost p h)
      else ok (subtract_lost p h)
  update_history level (history_remove p.packet_number) h1

unfoldable pub lose_packets :
    EncryptionLevel → List Packet → SentPacketHandler → Result SentPacketHandler
unfolding lose_packet
lose_packets level [] h = ok h
lose_packets level (p ∷ ps) h = do h1 ← lose_packet level p h; lose_packets level ps h1

unfoldable pub loss_delay_of : Outside → SentPacketHandler → ℕ
loss_delay_of o h =
    max (o.loss_delay (max h.rtt_stats.latest_rtt h.rtt_stats.smoothed_rtt)) timer_granularity

unfoldable pub scan_for_losses :
    Outside → ℕ → EncryptionLevel → PacketNumberSpace → SentPacketHandler → Scan
unfolding loss_delay_of
scan_for_losses o now level s h =
    scan_packets now (loss_delay_of o h) (is_one_rtt level) s.largest_acked
      (if is_one_rtt level then 0 else h.loss_time) s.history.packet_list

-- The lost packets are returned.
unfoldable pub detect_lost_packets :
    Outside → ℕ → EncryptionLevel → SentPacketHandler → Result (SentPacketHandler × List Packet)
unfolding get_packet_number_space scan_for_losses lose_packets
detect_lost_packets o now level h = do
  s ← get_packet_number_space level h
  h1 ←
      lose_packets level (scan_for_losses o now level s h).lost
        (record h { loss_time = (scan_for_losses o now level s h).scan_loss_time })
  ok (h1, (scan_for_losses o now level s h).lost)

-- The congestion controller is told of the lost packets, if there are any.
unfoldable pub report_losses : Outside → ℕ → ℕ → SentPacketHandler × List Packet → SentPacketHandler
unfolding inputs to_packet
report_losses o prior_in_flight now (h, []) = h
report_losses o prior_in_flight now (h, p ∷ ps) = record h {
  congestion =
      on_congestion_event (inputs o h) prior_in_flight now [] (map to_packet (p ∷ ps)) h.congestion;
}

unfoldable pub on_loss_timer : Outside → ℕ → SentPacketHandler → Result SentPacketHandler
unfolding detect_lost_packets report_losses
on_loss_timer o now h = do
  r ← detect_lost_packets o now one_rtt h
  ok (report_losses o h.bytes_in_flight now r)

unfoldable pub on_verified_alarm : Outside → ℕ → SentPacketHandler → Result SentPacketHandler
unfolding queue_crypto_packets_for_retransmission on_loss_timer
on_verified_alarm o now h =
    if has_outstanding_crypto_packets h
    then queue_crypto_packets_for_retransmission
        (record h { crypto_count = (h.crypto_count + 1) % 2 ^ 32 })
    else if not (h.loss_time == 0)
    then on_loss_timer o now h
    else ok (record h {
      pto_count = (h.pto_count + 1) % 2 ^ 32;
      num_probes_to_send = h.num_probes_to_send + 2;
    })

unfoldable pub on_alarm : Outside → ℕ → SentPacketHandler → Result SentPacketHandler
unfolding on_verified_alarm handler_has_outstanding_packets update_loss_detection_alarm
on_alarm o now h = do
  h1 ← if handler_has_outstanding_packets h then on_verified_alarm o now h else ok h
  ok (update_loss_detection_alarm h1)
