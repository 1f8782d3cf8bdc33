-- ===== src/Ackhandler/Sent/Accounting/Acknowledged.antt =====
-- internal/ackhandler/sent_packet_handler.go: the bytes in flight when an ACK is received.
use gt_bbr.Utils.VarInt.{u64}
use gt_bbr.Prelude.{
  ℕ, ◌≡◌, refl, sym, ap, ◌∙◌, subst, inl, inr, List, [], ◌∷◌, arith, if◌then◌else◌, Bool-cases,
  Option-cases,
}
use gt_bbr.Prelude.Reader.{bind-ok, ok}
use gt_bbr.Wire.FrameParser.{EncryptionLevel}
use gt_bbr.Wire.AckFrame.{AckFrame}
use gt_bbr.Ackhandler.SentHistory.{Packet}
use gt_bbr.Ackhandler.Sent.{
  PacketNumberSpace, SentPacketHandler, Outside, inputs, get_packet_number_space,
  set_packet_number_space, is_one_rtt, update_loss_detection_alarm, u64,
}
use gt_bbr.Ackhandler.Sent.Bytes.{list_bytes}
use gt_bbr.Ackhandler.Sent.Acked
use gt_bbr.Ackhandler.SentHistory.Outstanding.{IsAscending}
use gt_bbr.Ackhandler.Sent.Loss.{scan_for_losses, lose_packets, detect_lost_packets, loss_delay_of}
use gt_bbr.Ackhandler.Sent.Received.{
  raise_lowest, ack_packets, report_acks, process_acked, check_ack, maybe_update_rtt, received_ack,
  packets_for_event,
}
use gt_bbr.Ackhandler.Sent.Acks.{determine_newly_acked_packets}
use gt_bbr.Congestion.Bbr.Event.{on_congestion_event}
use gt_bbr.Ackhandler.Sent.Accounting.Ordered.{ViewOrdered}
use gt_bbr.Ackhandler.Sent.Accounting.{
  total-spaces, total, IsCounted, spaces, set-total, set-bytes, acked-IsCounted, get-spaces,
}
use gt_bbr.Ackhandler.Sent.Accounting.Losses.{lose_packets-IsCounted, scan-IsAscending, scan-Sized}
use gt_bbr.Ackhandler.Sent.Accounting.Ordered.{
  IsOrdered, get-IsOrdered, set-IsOrdered, acked-IsOrdered,
}

-- Only fields that are not counted change.
pub alarm-IsCounted :
    (h : SentPacketHandler) → IsCounted h → IsCounted (update_loss_detection_alarm h)
unfolding update_loss_detection_alarm
alarm-IsCounted h c = ground (arith, c)

pub detect-IsCounted :
    (o : Outside) (now : ℕ) (level : EncryptionLevel) (h : SentPacketHandler)
    (r : SentPacketHandler × List Packet)
    → detect_lost_packets o now level h ≡ ok r
    → IsOrdered h
    → IsCounted h
    → IsCounted r.0
unfolding detect_lost_packets scan_for_losses
detect-IsCounted o now level h r e ordered c =
    let (s, es, e1) = bind-ok (get_packet_number_space level h) _ r e in
    let scan = scan_for_losses o now level s h in
    let timed : SentPacketHandler = record h { loss_time = scan.scan_loss_time } in
    let (h1, e2, e3) = bind-ok (lose_packets level scan.lost timed) _ r e1 in
    let a = get-IsOrdered level s h es ordered in
    let d = loss_delay_of o h in
    let one = is_one_rtt level in
    let time = if one then 0 else h.loss_time in
    let there : get_packet_number_space level timed ≡ ok s = get-spaces level h timed refl ∙ es in
    let counted =
      lose_packets-IsCounted level scan.lost s timed h1 there
        (scan-Sized now d one s.largest_acked time s.history.packet_list a)
        (scan-IsAscending now d one s.largest_acked time s.history.packet_list a) e2 c in
    let same : h1 ≡ r.0 = ground (arith, e3) in subst IsCounted same counted

raise-IsCounted :
    (level : EncryptionLevel) (p : Packet) (h : SentPacketHandler)
    → IsCounted h × IsOrdered h
    → IsCounted (raise_lowest level p h) × IsOrdered (raise_lowest level p h)
raise-IsCounted level p h c = elim (Option-cases p.largest_acked) [
  | inl e ↦ rw e c
  | inr (n, e) ↦ elim (Bool-cases (is_one_rtt level)) [ inl b ↦ rw (e, b) c | inr b ↦ rw (e, b) c ]
]

ack_packets-IsCounted :
    (level : EncryptionLevel) (ps : List Packet) (h h' : SentPacketHandler)
    → ack_packets level ps h ≡ ok h'
    → IsCounted h × IsOrdered h
    → IsCounted h' × IsOrdered h'
unfolding ack_packets
ack_packets-IsCounted level [] h h' e c =
    let same : h ≡ h' = ground (arith, e) in subst (λ k. IsCounted k × IsOrdered k) same c
ack_packets-IsCounted level (p ∷ ps) h h' e c =
    let h0 = raise_lowest level p h in
    let c0 = raise-IsCounted level p h c in
    let (h1, e1, e2) = bind-ok (Acked.on_packet_acked p h0) _ h' e in
    ack_packets-IsCounted level ps h1 h' e2
      (acked-IsCounted p h0 h1 e1 c0.0, acked-IsOrdered p h0 h1 e1 c0.1)

report-IsCounted :
    (o : Outside) (f now : ℕ) (level : EncryptionLevel) (acked : List Packet)
    (h h' : SentPacketHandler)
    → report_acks o f now level acked h ≡ ok h'
    → IsCounted h × IsOrdered h
    → IsCounted h'
unfolding report_acks
report-IsCounted o f now level acked h h' e c =
    let (r, e1, e2) = bind-ok (detect_lost_packets o now level h) _ h' e in
    let h1 = r.0 in
    let after : SentPacketHandler = record h1 {
      congestion =
          on_congestion_event (inputs o h1) f now (packets_for_event acked) [] h1.congestion;
      pto_count = 0;
      crypto_count = 0;
      num_probes_to_send = 0;
    } in
    let same : update_loss_detection_alarm after ≡ h' = ground (arith, e2) in
    subst IsCounted same (alarm-IsCounted after (detect-IsCounted o now level h r e1 c.1 c.0))

process-IsCounted :
    (o : Outside) (now : ℕ) (level : EncryptionLevel) (acked : List Packet)
    (h h' : SentPacketHandler)
    → process_acked o now level acked h ≡ ok h'
    → IsCounted h × IsOrdered h
    → IsCounted h'
unfolding process_acked
process-IsCounted o now level [] h h' e c =
    let same : h ≡ h' = ground (arith, e) in subst IsCounted same c.0
process-IsCounted o now level (p ∷ ps) h h' e c =
    let (h1, e1, e2) = bind-ok (ack_packets level (p ∷ ps) h) _ h' e in
    report-IsCounted o h.bytes_in_flight now level (p ∷ ps) h1 h' e2
      (ack_packets-IsCounted level (p ∷ ps) h h1 e1 c)

-- A space is replaced by one with the same packets.
pub replace-IsCounted :
    (level : EncryptionLevel) (s t : PacketNumberSpace) (h : SentPacketHandler)
    → get_packet_number_space level h ≡ ok s
    → t.history.packet_list ≡ s.history.packet_list
    → IsCounted h × IsOrdered h
    → IsCounted (set_packet_number_space level t h) × IsOrdered (set_packet_number_space level t h)
replace-IsCounted level s t h es e c =
    let same : total (set_packet_number_space level t h) ≡ total h =
      omega (arith, set-total level s t h es, ap list_bytes e) in
    (
      set-bytes level t h ∙ c.0 ∙ ap u64 (sym same),
      set-IsOrdered level t h (subst IsAscending (sym e) (get-IsOrdered level s h es c.1)) c.1,
    )

view-IsCounted :
    (h h' : SentPacketHandler)
    → h'.bytes_in_flight ≡ h.bytes_in_flight
    → spaces h' ≡ spaces h
    → IsCounted h × IsOrdered h
    → IsCounted h' × IsOrdered h'
view-IsCounted h h' b v c =
    (b ∙ c.0 ∙ ap u64 (sym (total-spaces h h' v)), subst ViewOrdered (sym v) c.1)

rtt-IsCounted :
    (o : Outside) (f : AckFrame) (level : EncryptionLevel) (now : ℕ) (s : PacketNumberSpace)
    (h : SentPacketHandler)
    → IsCounted h × IsOrdered h
    → IsCounted (maybe_update_rtt o f level now s h)
      × IsOrdered (maybe_update_rtt o f level now s h)
unfolding maybe_update_rtt
rtt-IsCounted o f level now s h c =
    view-IsCounted h (maybe_update_rtt o f level now s h) (ground arith) (ground arith) c

check-list :
    (f : AckFrame) (s t : PacketNumberSpace)
    → check_ack f s ≡ ok t
    → t.history.packet_list ≡ s.history.packet_list
unfolding check_ack
check-list f s t e = ground (arith, e)

pub received-IsCounted :
    (o : Outside) (f : AckFrame) (level : EncryptionLevel) (now : ℕ) (h h' : SentPacketHandler)
    → received_ack o f level now h ≡ ok h'
    → IsCounted h × IsOrdered h
    → IsCounted h'
unfolding received_ack
received-IsCounted o f level now h h' e c =
    let (s, e1, e2) = bind-ok (get_packet_number_space level h) _ h' e in
    let (s1, e3, e4) = bind-ok (check_ack f s) _ h' e2 in
    let (acked, e5, e6) =
      bind-ok (determine_newly_acked_packets f s1.history.packet_list) _ h' e4 in
    let h1 = set_packet_number_space level s1 h in
    process-IsCounted o now level acked (maybe_update_rtt o f level now s1 h1) h' e6 (
      rtt-IsCounted o f level now s1 h1
        (replace-IsCounted level s s1 h e1 (check-list f s s1 e3) c))
