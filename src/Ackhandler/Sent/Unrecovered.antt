-- ===== src/Ackhandler/Sent/Unrecovered.antt =====
-- internal/ackhandler/sent_packet_handler.go: what the handler tells the congestion controller of
-- losses.
use gt_bbr.Ackhandler.Sent.Acks.{determine_newly_acked_packets}
use gt_bbr.Ackhandler.Sent.Untouched.{
  same-alarm, same-set, same-ack_packets, same-detect, same-queue_crypto, same-queue, same-change,
  same-rtt,
}
use gt_bbr.Ackhandler.Sent.Dequeue.{
  dequeue_probe_packet, pop_packet_number, drop_packets, reset_for_retry,
  dequeue_packet_for_retransmission, queue_first_outstanding,
}
use gt_bbr.Ackhandler.Sent.Loss.{
  report_losses, on_loss_timer, on_verified_alarm, on_alarm, detect_lost_packets,
  queue_crypto_packets_for_retransmission, retransmittable,
}
use gt_bbr.Ackhandler.Sent.Received.{
  report_acks, process_acked, received_ack, ack_packets, check_ack, packets_for_event,
  maybe_update_rtt,
}
use gt_bbr.Ackhandler.Sent.Sending.{
  send_packet_impl, send_packets_impl, keep_packet, handler_sent_packet,
  handler_sent_packets_as_retransmission, tell_congestion, sent_copy, is_ack_eliciting, sent_copies,
  count_ack_eliciting_packet, change_history, first_level,
}
use gt_bbr.Prelude.{
  ℕ, ◌+◌, ◌%◌, ◌^◌, ◌≡◌, refl, ap, ◌∙◌, inl, inr, false, not, Option, some, List, [], ◌∷◌, ◌++◌,
  map, arith, ◌==◌, if◌then◌else◌, Option-cases, length,
}
use gt_bbr.Prelude.Reader.{ok, bind-ok, if-ok}
use gt_bbr.Wire.FrameParser.{EncryptionLevel, one_rtt}
use gt_bbr.Wire.AckFrame.{AckFrame}
use gt_bbr.Ackhandler.SentHistory.{
  Packet, sent_packet_impl, history_sent_as_retransmission, first_outstanding_packet,
}
use gt_bbr.Ackhandler.Sent.{
  PacketNumberSpace, SentPacketHandler, Outside, inputs, get_packet_number_space,
  set_packet_number_space, to_packet, present, has_outstanding_crypto_packets,
  handler_has_outstanding_packets, new_packet_number_space,
}
use gt_bbr.Ackhandler.Sent.Calls.{
  Call, sent, sent_again, ack, alarm, dequeue, probe, pop, drop_keys, retry, set_delay, Calls,
  none_yet, next,
}
use gt_bbr.Ackhandler.Generator
use gt_bbr.Ackhandler.Sent.{new_sent_packet_handler, set_max_ack_delay}
use gt_bbr.Congestion.Bbr.State.{BbrSender, RecoveryState, not_in_recovery, new_bbr_sender}
use gt_bbr.Congestion.Bbr.Queries.{in_recovery, is_recovering}
use gt_bbr.Congestion.Bbr.Event.{bbr_on_packet_sent, on_congestion_event}
use gt_bbr.Congestion.Bbr.Recovery.{event_without_both}

abbrev state : SentPacketHandler → RecoveryState
state h = h.congestion.recovery_state

abbrev state_of : BbrSender → RecoveryState
state_of b = b.recovery_state

state-send :
    (p : Packet) (h h' : SentPacketHandler) → send_packet_impl p h ≡ ok h' → state h' ≡ state h
unfolding send_packet_impl tell_congestion count_ack_eliciting_packet bbr_on_packet_sent
state-send p h h' e =
    let (s, es, e1) = bind-ok (get_packet_number_space p.encryption_level h) _ h' e in
    let s1 : PacketNumberSpace = record s { largest_sent = some p.packet_number } in
    ground (arith, e1, same-set p.encryption_level s1 h)

state-send_packets :
    (ps : List Packet) (h h' : SentPacketHandler)
    → send_packets_impl ps h ≡ ok h'
    → state h' ≡ state h
state-send_packets [] h h' e = ground (arith, e)
state-send_packets (p ∷ ps) h h' e =
    let (h1, e1, e2) = bind-ok (send_packet_impl p h) _ h' e in
    state-send_packets ps h1 h' e2 ∙ state-send p h h1 e1

state-keep : (p : Packet) (h h' : SentPacketHandler) → keep_packet p h ≡ ok h' → state h' ≡ state h
unfolding keep_packet
state-keep p h h' e =
    let f = sent_packet_impl (sent_copy p) in
    let (h1, e1, e2) = bind-ok (change_history p.encryption_level f h) _ h' e in
    ground (arith, e2, ap state_of (same-alarm h1 ∙ same-change p.encryption_level f h h1 e1))

state-sent :
    (p : Packet) (h h' : SentPacketHandler) → handler_sent_packet p h ≡ ok h' → state h' ≡ state h
unfolding handler_sent_packet
state-sent p h h' e =
    let (h1, e1, e2) = bind-ok (send_packet_impl p h) _ h' e in
    let second : state h' ≡ state h1 =
      elim (if-ok (is_ack_eliciting p) (keep_packet p h1) (ok h1) h' e2) [
        | inl k ↦ state-keep p h1 h' k
        | inr k ↦ ground (arith, k)
      ] in
    second ∙ state-send p h h1 e1

state-sent_again :
    (ps : List Packet) (pn : ℕ) (h h' : SentPacketHandler)
    → handler_sent_packets_as_retransmission ps pn h ≡ ok h'
    → state h' ≡ state h
unfolding handler_sent_packets_as_retransmission
state-sent_again ps pn h h' e =
    let f = history_sent_as_retransmission (sent_copies ps) pn in
    let (h1, e1, e2) = bind-ok (send_packets_impl ps h) _ h' e in
    let (level, e3, e4) = bind-ok (first_level (sent_copies ps)) _ h' e2 in
    let (h2, e5, e6) = bind-ok (change_history level f h1) _ h' e4 in
    ground (
      arith,
      e6,
      ap state_of (same-alarm h2 ∙ same-change level f h1 h2 e5),
      state-send_packets ps h h1 e1,
    )

abbrev IsQuiet : SentPacketHandler → Type 0
IsQuiet h = state h ≡ not_in_recovery

report_acks-IsQuiet :
    (o : Outside) (f now : ℕ) (level : EncryptionLevel) (acked : List Packet)
    (h h' : SentPacketHandler)
    → report_acks o f now level acked h ≡ ok h'
    → IsQuiet h
    → IsQuiet h'
unfolding report_acks
report_acks-IsQuiet o f now level acked h h' e q =
    let (r, e1, e2) = bind-ok (detect_lost_packets o now level h) _ h' e in
    let h1 = r.0 in
    let b = on_congestion_event (inputs o h1) f now (packets_for_event acked) [] h1.congestion in
    let after : SentPacketHandler = record h1 {
      congestion = b;
      pto_count = 0;
      crypto_count = 0;
      num_probes_to_send = 0;
    } in
    let quiet : b.recovery_state ≡ not_in_recovery =
      event_without_both (inputs o h1) f now (packets_for_event acked) [] h1.congestion
        (ground arith) (ap state_of (same-detect o now level h r e1) ∙ q) in
    ground (arith, e2, ap state_of (same-alarm after), quiet)

process-IsQuiet :
    (o : Outside) (now : ℕ) (level : EncryptionLevel) (acked : List Packet)
    (h h' : SentPacketHandler)
    → process_acked o now level acked h ≡ ok h'
    → IsQuiet h
    → IsQuiet h'
unfolding process_acked
process-IsQuiet o now level [] h h' e q = ground (arith, e, q)
process-IsQuiet o now level (p ∷ ps) h h' e q =
    let (h1, e1, e2) = bind-ok (ack_packets level (p ∷ ps) h) _ h' e in
    report_acks-IsQuiet o h.bytes_in_flight now level (p ∷ ps) h1 h' e2
      (ap state_of (same-ack_packets level (p ∷ ps) h h1 e1) ∙ q)

received-IsQuiet :
    (o : Outside) (f : AckFrame) (level : EncryptionLevel) (now : ℕ) (h h' : SentPacketHandler)
    → received_ack o f level now h ≡ ok h'
    → IsQuiet h
    → IsQuiet h'
unfolding received_ack
received-IsQuiet o f level now h h' e q =
    let (s, e1, e2) = bind-ok (get_packet_number_space level h) _ h' e in
    let (s1, e3, e4) = bind-ok (check_ack f s) _ h' e2 in
    let (acked, e5, e6) =
      bind-ok (determine_newly_acked_packets f s1.history.packet_list) _ h' e4 in
    let h1 = set_packet_number_space level s1 h in
    let h2 = maybe_update_rtt o f level now s1 h1 in
    process-IsQuiet o now level acked h2 h' e6
      (ap state_of (same-rtt o f level now s1 h1 ∙ same-set level s1 h) ∙ q)

report_losses-IsQuiet :
    (o : Outside) (f now : ℕ) (h : SentPacketHandler) (lost : List Packet)
    → IsQuiet h
    → IsQuiet (report_losses o f now (h, lost))
unfolding report_losses
report_losses-IsQuiet o f now h [] q = q
report_losses-IsQuiet o f now h (p ∷ ps) q =
    event_without_both (inputs o h) f now [] (map to_packet (p ∷ ps)) h.congestion refl q

loss_timer-IsQuiet :
    (o : Outside) (now : ℕ) (h h' : SentPacketHandler)
    → on_loss_timer o now h ≡ ok h'
    → IsQuiet h
    → IsQuiet h'
unfolding on_loss_timer
loss_timer-IsQuiet o now h h' e q =
    let (r, e1, e2) = bind-ok (detect_lost_packets o now one_rtt h) _ h' e in
    ground (
      arith,
      e2,
      report_losses-IsQuiet o h.bytes_in_flight now r.0 r.1
          (ap state_of (same-detect o now one_rtt h r e1) ∙ q),
    )

verified-IsQuiet :
    (o : Outside) (now : ℕ) (h h' : SentPacketHandler)
    → on_verified_alarm o now h ≡ ok h'
    → IsQuiet h
    → IsQuiet h'
unfolding on_verified_alarm
verified-IsQuiet o now h h' e q =
    let counted : SentPacketHandler = record h { crypto_count = (h.crypto_count + 1) % 2 ^ 32 } in
    let probing : SentPacketHandler = record h {
      pto_count = (h.pto_count + 1) % 2 ^ 32;
      num_probes_to_send = h.num_probes_to_send + 2;
    } in
    let timer = on_loss_timer o now h in
    let late = if not (h.loss_time == 0) then timer else ok probing in
    let crypto = queue_crypto_packets_for_retransmission counted in
    elim (if-ok (has_outstanding_crypto_packets h) crypto late h' e) [
      | inl c ↦ ap state_of (same-queue_crypto counted h' c) ∙ q
      | inr l ↦ elim (if-ok (not (h.loss_time == 0)) timer (ok probing) h' l) [
        | inl t ↦ loss_timer-IsQuiet o now h h' t q
        | inr p ↦ ground (arith, p, q)
      ]
    ]

alarm-IsQuiet :
    (o : Outside) (now : ℕ) (h h' : SentPacketHandler)
    → on_alarm o now h ≡ ok h'
    → IsQuiet h
    → IsQuiet h'
unfolding on_alarm
alarm-IsQuiet o now h h' e q =
    let c = handler_has_outstanding_packets h in
    let verified = on_verified_alarm o now h in
    let (h1, e1, e2) = bind-ok (if c then verified else ok h) _ h' e in
    let first : IsQuiet h1 = elim (if-ok c verified (ok h) h1 e1) [
      | inl v ↦ verified-IsQuiet o now h h1 v q
      | inr k ↦ ground (arith, k, q)
    ] in
    ground (arith, e2, ap state_of (same-alarm h1), first)

probe-IsQuiet :
    (h : SentPacketHandler) (r : SentPacketHandler × Option Packet)
    → dequeue_probe_packet h ≡ ok r
    → IsQuiet h
    → IsQuiet r.0
unfolding dequeue_probe_packet dequeue_packet_for_retransmission
probe-IsQuiet h r e q =
    let c = length h.retransmission_queue == 0 in
    let (h1, e1, e2) = bind-ok (if c then queue_first_outstanding h else ok h) _ r e in
    let first : IsQuiet h1 = elim (if-ok c (queue_first_outstanding h) (ok h) h1 e1) [
      | inr k ↦ ground (arith, k, q)
      | inl k ↦ elim (Option-cases (first_outstanding_packet h.one_rtt_packets.history)) [
        | inl n ↦ absurd (ground (arith, k, n))
        | inr (p, n) ↦ ap state_of (same-queue one_rtt p h h1 (ground (arith, k, n))) ∙ q
      ]
    ] in
    ground (arith, e2, first)

pop-IsQuiet :
    (random : ℕ) (level : EncryptionLevel) (h : SentPacketHandler) (r : SentPacketHandler × ℕ)
    → pop_packet_number random level h ≡ ok r
    → IsQuiet h
    → IsQuiet r.0
unfolding pop_packet_number
pop-IsQuiet random level h r e q =
    let (s, e1, e2) = bind-ok (get_packet_number_space level h) _ r e in
    let s1 : PacketNumberSpace = record s { pns = (Generator.pop random s.pns).0 } in
    ground (arith, e2, ap state_of (same-set level s1 h), q)

drop-IsQuiet :
    (level : EncryptionLevel) (h h' : SentPacketHandler)
    → drop_packets level h ≡ ok h'
    → IsQuiet h
    → IsQuiet h'
unfolding drop_packets
drop-IsQuiet level h h' e q =
    let (s, e1, e2) = bind-ok (get_packet_number_space level h) _ h' e in ground (arith, e2, q)

retry-IsQuiet :
    (random : ℕ) (h h' : SentPacketHandler)
    → reset_for_retry random h ≡ ok h'
    → IsQuiet h
    → IsQuiet h'
unfolding reset_for_retry
retry-IsQuiet random h h' e q =
    let (s, e1, e2) = bind-ok (present h.initial_packets) _ h' e in
    let reset : SentPacketHandler = record h {
      crypto_count = 0;
      bytes_in_flight = 0;
      retransmission_queue = h.retransmission_queue ++ retransmittable s.history;
      initial_packets = some (new_packet_number_space random (Generator.pop random s.pns).1);
    } in
    ground (arith, e2, ap state_of (same-alarm reset), q)

Call-IsQuiet : (h h' : SentPacketHandler) → Call h h' → IsQuiet h → IsQuiet h'
unfolding dequeue_packet_for_retransmission set_max_ack_delay
Call-IsQuiet _ _ (sent p h h' e) q = state-sent p h h' e ∙ q
Call-IsQuiet _ _ (sent_again ps pn h h' e) q = state-sent_again ps pn h h' e ∙ q
Call-IsQuiet _ _ (ack o f level now h h' e) q = received-IsQuiet o f level now h h' e q
Call-IsQuiet _ _ (alarm o now h h' e) q = alarm-IsQuiet o now h h' e q
Call-IsQuiet _ _ (dequeue h) q = ground (arith, q)
Call-IsQuiet _ _ (probe h r e) q = probe-IsQuiet h r e q
Call-IsQuiet _ _ (pop random level h r e) q = pop-IsQuiet random level h r e q
Call-IsQuiet _ _ (drop_keys level h h' e) q = drop-IsQuiet level h h' e q
Call-IsQuiet _ _ (retry random h h' e) q = retry-IsQuiet random h h' e q
Call-IsQuiet _ _ (set_delay delay h) q = q

Calls-IsQuiet : (h h' : SentPacketHandler) → Calls h h' → IsQuiet h → IsQuiet h'
Calls-IsQuiet h _ none_yet q = q
Calls-IsQuiet h h'' (next {h' = h'} c s) q = Call-IsQuiet h' h'' s (Calls-IsQuiet h h' c q)

-- After any calls on a new handler that return no error, whatever was acknowledged or lost, its BBR
-- sender is not in recovery: it is never told of losses and of acknowledgements in the same event.
pub never_in_recovery :
    (random pn : ℕ) (h : SentPacketHandler)
    → Calls (new_sent_packet_handler random pn) h
    → in_recovery h.congestion ≡ false
unfolding in_recovery new_sent_packet_handler new_bbr_sender
never_in_recovery random pn h c =
    ap is_recovering (Calls-IsQuiet (new_sent_packet_handler random pn) h c refl)
