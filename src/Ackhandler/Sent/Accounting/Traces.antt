-- ===== src/Ackhandler/Sent/Accounting/Traces.antt =====
-- internal/ackhandler/sent_packet_handler.go: the bytes in flight over any sequence of calls.
use gt_bbr.Utils.VarInt.{u64}
use gt_bbr.Prelude.{
  ℕ, ◌+◌, ◌%◌, ◌^◌, ◌≡◌, refl, sym, ap, ◌∙◌, subst, inl, inr, not, Option, some, List, [], ◌∷◌,
  ◌++◌, arith, ◌==◌, if◌then◌else◌, Bool-cases, Option-cases, length,
}
use gt_bbr.Prelude.Reader.{bind-ok, if-ok, ok}
use gt_bbr.Wire.FrameParser.{EncryptionLevel, unspecified, initial, handshake, one_rtt}
use gt_bbr.Ackhandler.SentHistory.{Packet, new_sent_packet_history, first_outstanding_packet}
use gt_bbr.Ackhandler.Sent.{
  PacketNumberSpace, SentPacketHandler, Outside, get_packet_number_space, set_packet_number_space,
  sub_word, update_loss_detection_alarm, present, has_outstanding_crypto_packets,
  handler_has_outstanding_packets, new_packet_number_space, u64,
}
use gt_bbr.Ackhandler.Sent.Calls.{
  Call, sent, sent_again, ack, alarm, dequeue, probe, pop, drop_keys, retry, set_delay,
}
use gt_bbr.Ackhandler.Sent.Bytes.{list_bytes}
use gt_bbr.Ackhandler.Sent.Loss.{
  queue_all_packets_for_retransmission, queue_crypto_packets_for_retransmission,
  detect_lost_packets, report_losses, on_loss_timer, on_verified_alarm, on_alarm, retransmittable,
}
use gt_bbr.Ackhandler.Sent.Dequeue.{
  dequeue_packet_for_retransmission, dequeue_probe_packet, queue_first_outstanding,
  pop_packet_number, drop_packets, subtract_packets, reset_for_retry,
}
use gt_bbr.Ackhandler.Generator
use gt_bbr.Ackhandler.Sent.{new_sent_packet_handler, set_max_ack_delay}
use gt_bbr.Ackhandler.Sent.Accounting.Sent.{sent-IsCounted, again-IsCounted}
use gt_bbr.Ackhandler.Sent.Accounting.{
  sub_word-u64, total, space_bytes, IsCounted, set-total, set-bytes,
}
use gt_bbr.Ackhandler.Sent.Accounting.Losses.{queue-IsCounted, queue_packets-IsCounted}
use gt_bbr.Ackhandler.Sent.Accounting.Ordered.{IsOrdered}
use gt_bbr.Ackhandler.Sent.Accounting.Acknowledged.{
  alarm-IsCounted, detect-IsCounted, received-IsCounted,
}

alarm_part-IsCounted :
    (level : EncryptionLevel) (h h' : SentPacketHandler)
    → queue_all_packets_for_retransmission level h ≡ ok h'
    → IsCounted h
    → IsCounted h'
unfolding queue_all_packets_for_retransmission
alarm_part-IsCounted level h h' e c =
    let (s, e1, e2) = bind-ok (get_packet_number_space level h) _ h' e in
    queue_packets-IsCounted level (retransmittable s.history) h h' e2 c

crypto-IsCounted :
    (h h' : SentPacketHandler)
    → queue_crypto_packets_for_retransmission h ≡ ok h'
    → IsCounted h
    → IsCounted h'
unfolding queue_crypto_packets_for_retransmission
crypto-IsCounted h h' e c =
    let (h1, e1, e2) = bind-ok (queue_all_packets_for_retransmission initial h) _ h' e in
    alarm_part-IsCounted handshake h1 h' e2 (alarm_part-IsCounted initial h h1 e1 c)

losses-IsCounted :
    (o : Outside) (f now : ℕ) (h : SentPacketHandler) (lost : List Packet)
    → IsCounted h
    → IsCounted (report_losses o f now (h, lost))
unfolding report_losses
losses-IsCounted o f now h [] c = c
losses-IsCounted o f now h (p ∷ ps) c = c

timer-IsCounted :
    (o : Outside) (now : ℕ) (h h' : SentPacketHandler)
    → on_loss_timer o now h ≡ ok h'
    → IsOrdered h
    → IsCounted h
    → IsCounted h'
unfolding on_loss_timer
timer-IsCounted o now h h' e ordered c =
    let (r, e1, e2) = bind-ok (detect_lost_packets o now one_rtt h) _ h' e in
    let same : report_losses o h.bytes_in_flight now r ≡ h' = ground (arith, e2) in
    subst IsCounted same (
      losses-IsCounted o h.bytes_in_flight now r.0 r.1
        (detect-IsCounted o now one_rtt h r e1 ordered c))

verified-IsCounted :
    (o : Outside) (now : ℕ) (h h' : SentPacketHandler)
    → on_verified_alarm o now h ≡ ok h'
    → IsOrdered h
    → IsCounted h
    → IsCounted h'
unfolding on_verified_alarm
verified-IsCounted o now h h' e ordered c =
    let counted : SentPacketHandler = record h { crypto_count = (h.crypto_count + 1) % 2 ^ 32 } in
    let probing : SentPacketHandler = record h {
      pto_count = (h.pto_count + 1) % 2 ^ 32;
      num_probes_to_send = h.num_probes_to_send + 2;
    } in
    let timer = on_loss_timer o now h in
    let late = if not (h.loss_time == 0) then timer else ok probing in
    let crypto = queue_crypto_packets_for_retransmission counted in
    elim (if-ok (has_outstanding_crypto_packets h) crypto late h' e) [
      | inl k ↦ crypto-IsCounted counted h' k c
      | inr l ↦ elim (if-ok (not (h.loss_time == 0)) timer (ok probing) h' l) [
        | inl t ↦ timer-IsCounted o now h h' t ordered c
        | inr p ↦ let same : probing ≡ h' = ground (arith, p) in subst IsCounted same c
      ]
    ]

on_alarm-IsCounted :
    (o : Outside) (now : ℕ) (h h' : SentPacketHandler)
    → on_alarm o now h ≡ ok h'
    → IsOrdered h
    → IsCounted h
    → IsCounted h'
unfolding on_alarm
on_alarm-IsCounted o now h h' e ordered c =
    let b = handler_has_outstanding_packets h in
    let verified = on_verified_alarm o now h in
    let (h1, e1, e2) = bind-ok (if b then verified else ok h) _ h' e in
    let first : IsCounted h1 = elim (if-ok b verified (ok h) h1 e1) [
      | inl v ↦ verified-IsCounted o now h h1 v ordered c
      | inr k ↦ let same : h ≡ h1 = ground (arith, k) in subst IsCounted same c
    ] in
    let same : update_loss_detection_alarm h1 ≡ h' = ground (arith, e2) in
    subst IsCounted same (alarm-IsCounted h1 first)

dequeue-IsCounted :
    (h : SentPacketHandler) → IsCounted h → IsCounted (dequeue_packet_for_retransmission h).0
unfolding dequeue_packet_for_retransmission
dequeue-IsCounted h c = ground (arith, c)

probe-IsCounted :
    (h : SentPacketHandler) (r : SentPacketHandler × Option Packet)
    → dequeue_probe_packet h ≡ ok r
    → IsCounted h
    → IsCounted r.0
unfolding dequeue_probe_packet
probe-IsCounted h r e c =
    let b = length h.retransmission_queue == 0 in
    let (h1, e1, e2) = bind-ok (if b then queue_first_outstanding h else ok h) _ r e in
    let first : IsCounted h1 = elim (if-ok b (queue_first_outstanding h) (ok h) h1 e1) [
      | inr k ↦ let same : h ≡ h1 = ground (arith, k) in subst IsCounted same c
      | inl k ↦ elim (Option-cases (first_outstanding_packet h.one_rtt_packets.history)) [
        | inl n ↦ absurd (ground (arith, k, n))
        | inr (p, n) ↦ queue-IsCounted one_rtt p h h1 (ground (arith, k, n)) c
      ]
    ] in
    let same : dequeue_packet_for_retransmission h1 ≡ r = ground (arith, e2) in
    subst (λ k. IsCounted k.0) same (dequeue-IsCounted h1 first)

pop-IsCounted :
    (random : ℕ) (level : EncryptionLevel) (h : SentPacketHandler) (r : SentPacketHandler × ℕ)
    → pop_packet_number random level h ≡ ok r
    → IsCounted h
    → IsCounted r.0
unfolding pop_packet_number
pop-IsCounted random level h r e c =
    let (s, e1, e2) = bind-ok (get_packet_number_space level h) _ r e in
    let s1 : PacketNumberSpace = record s { pns = (Generator.pop random s.pns).0 } in
    let h1 = set_packet_number_space level s1 h in
    let same : h1 ≡ r.0 = ground (arith, e2) in
    let sum : total h1 ≡ total h = omega (arith, set-total level s s1 h e1) in
    subst IsCounted same (set-bytes level s1 h ∙ c ∙ ap u64 (sym sum))

subtract_packets-u64 :
    (ps : List Packet) (b r : ℕ) → b ≡ u64 (list_bytes ps + r) → subtract_packets ps b ≡ u64 r
subtract_packets-u64 [] b r e = e ∙ ap u64 (omega arith)
subtract_packets-u64 (p ∷ ps) b r e = elim (Bool-cases p.included_in_bytes_in_flight) [
  | inl i ↦
      let rest = list_bytes ps + r in
      let less : sub_word b p.length ≡ u64 rest =
        sub_word-u64 b p.length rest (ground (arith, e, i)) in
      rw i (subtract_packets-u64 ps (sub_word b p.length) r less)
  | inr i ↦ rw i (subtract_packets-u64 ps b r (ground (arith, e, i)))
]

drop-IsCounted :
    (level : EncryptionLevel) (h h' : SentPacketHandler)
    → drop_packets level h ≡ ok h'
    → IsCounted h
    → IsCounted h'
unfolding drop_packets get_packet_number_space
drop-IsCounted unspecified h h' e c = absurd (ground (arith, e))
drop-IsCounted one_rtt h h' e c = absurd (ground (arith, e))
drop-IsCounted initial h h' e c =
    let (s, e1, e2) = bind-ok (present h.initial_packets) _ h' e in
    let some_s : h.initial_packets ≡ some s = ground (arith, e1) in
    let r = space_bytes h.handshake_packets + list_bytes h.one_rtt_packets.history.packet_list in
    let ps = s.history.packet_list in
    let sum : total h ≡ list_bytes ps + r = omega (arith, ap space_bytes some_s) in
    ground (arith, e2, subtract_packets-u64 ps h.bytes_in_flight r (c ∙ ap u64 sum))
drop-IsCounted handshake h h' e c =
    let (s, e1, e2) = bind-ok (present h.handshake_packets) _ h' e in
    let some_s : h.handshake_packets ≡ some s = ground (arith, e1) in
    let r = space_bytes h.initial_packets + list_bytes h.one_rtt_packets.history.packet_list in
    let ps = s.history.packet_list in
    let sum : total h ≡ list_bytes ps + r = omega (arith, ap space_bytes some_s) in
    ground (arith, e2, subtract_packets-u64 ps h.bytes_in_flight r (c ∙ ap u64 sum))

-- Before a Retry, only Initial packets were sent.
abbrev pub IsAllowed : {h h' : SentPacketHandler} → Call h h' → Type 0
IsAllowed (retry random h h' e) =
    (space_bytes h.handshake_packets ≡ 0) × (space_bytes (some h.one_rtt_packets) ≡ 0)
IsAllowed _ = Unit

retry-IsCounted :
    (random : ℕ) (h h' : SentPacketHandler)
    → reset_for_retry random h ≡ ok h'
    → space_bytes h.handshake_packets ≡ 0
    → space_bytes (some h.one_rtt_packets) ≡ 0
    → IsCounted h'
unfolding reset_for_retry new_packet_number_space new_sent_packet_history
retry-IsCounted random h h' e z z' =
    let (s, e1, e2) = bind-ok (present h.initial_packets) _ h' e in
    let reset : SentPacketHandler = record h {
      crypto_count = 0;
      bytes_in_flight = 0;
      retransmission_queue = h.retransmission_queue ++ retransmittable s.history;
      initial_packets = some (new_packet_number_space random (Generator.pop random s.pns).1);
    } in
    let same : update_loss_detection_alarm reset ≡ h' = ground (arith, e2) in
    subst IsCounted same (alarm-IsCounted reset (omega (arith, z, z')))

Call-IsCounted :
    (h h' : SentPacketHandler) (c : Call h h')
    → IsAllowed c
    → IsOrdered h
    → IsCounted h
    → IsCounted h'
unfolding set_max_ack_delay
Call-IsCounted _ _ (sent p h h' e) a o c = sent-IsCounted p h h' e c
Call-IsCounted _ _ (sent_again ps pn h h' e) a o c = again-IsCounted ps pn h h' e c
Call-IsCounted _ _ (ack out f level now h h' e) a o c =
    received-IsCounted out f level now h h' e (c, o)
Call-IsCounted _ _ (alarm out now h h' e) a o c = on_alarm-IsCounted out now h h' e o c
Call-IsCounted _ _ (dequeue h) a o c = dequeue-IsCounted h c
Call-IsCounted _ _ (probe h r e) a o c = probe-IsCounted h r e c
Call-IsCounted _ _ (pop random level h r e) a o c = pop-IsCounted random level h r e c
Call-IsCounted _ _ (drop_keys level h h' e) a o c = drop-IsCounted level h h' e c
Call-IsCounted _ _ (retry random h h' e) (z, z') o c = retry-IsCounted random h h' e z z'
Call-IsCounted _ _ (set_delay delay h) a o c = c

-- Calls on a handler whose packets are, in each space, in ascending order of their numbers.
pub data Trace (h : SentPacketHandler) : SentPacketHandler → Type 0 where
  start : Trace h h
  next :
      {h' h'' : SentPacketHandler}
      → Trace h h'
      → IsOrdered h'
      → (c : Call h' h'') → IsAllowed c
      → Trace h h''

Trace-IsCounted : (h h' : SentPacketHandler) → Trace h h' → IsCounted h → IsCounted h'
Trace-IsCounted h _ start c = c
Trace-IsCounted h h'' (next {h' = h'} t o s a) c =
    Call-IsCounted h' h'' s a o (Trace-IsCounted h h' t c)

-- As long as the packets of each space are in ascending order of their numbers, and a Retry comes
-- before packets of the other spaces are in flight, the bytes in flight of a handler are, up to the
-- wrap of a 64-bit word, the bytes of the ack-eliciting packets in its three spaces, after any
-- calls that return no error.
pub bytes_in_flight_exact :
    (random pn : ℕ) (h : SentPacketHandler)
    → Trace (new_sent_packet_handler random pn) h
    → h.bytes_in_flight ≡ u64 (total h)
unfolding new_sent_packet_handler new_packet_number_space new_sent_packet_history
bytes_in_flight_exact random pn h t = Trace-IsCounted (new_sent_packet_handler random pn) h t refl
