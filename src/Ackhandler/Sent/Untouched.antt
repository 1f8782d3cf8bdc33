-- ===== src/Ackhandler/Sent/Untouched.antt =====
-- internal/ackhandler/sent_packet_handler.go: what leaves the congestion controller alone.
use gt_bbr.Ackhandler.Sent.Received.{raise_lowest, ack_packets, maybe_update_rtt}
use gt_bbr.Ackhandler.Sent.Acked.{detach, forget_acked}
use gt_bbr.Ackhandler.Sent.Sending.{change_history}
use gt_bbr.Ackhandler.Sent.Loss.{
  update_history, queue_packet_for_retransmission, queue_packets_for_retransmission,
  queue_all_packets_for_retransmission, queue_crypto_packets_for_retransmission, subtract_lost,
  lose_packet, lose_packets, detect_lost_packets, retransmittable, scan_for_losses,
}
use gt_bbr.Prelude.{
  ℕ, ◌≡◌, refl, ◌∙◌, inl, inr, List, [], ◌∷◌, arith, if◌then◌else◌, Bool-cases, Option-cases,
}
use gt_bbr.Prelude.Reader.{Result, ok, bind-ok, if-ok, Result-cases}
use gt_bbr.Wire.FrameParser.{EncryptionLevel, unspecified, initial, handshake, one_rtt}
use gt_bbr.Wire.AckFrame.{AckFrame}
use gt_bbr.Ackhandler.SentHistory.{
  Packet, SentPacketHistory, history_remove, mark_cannot_be_retransmitted, get_packet,
}
use gt_bbr.Ackhandler.Sent.{
  PacketNumberSpace, SentPacketHandler, Outside, get_packet_number_space, set_packet_number_space,
  update_loss_detection_alarm,
}
use gt_bbr.Ackhandler.Sent.Acked
use gt_bbr.Congestion.Bbr.State.{BbrSender}

abbrev pub sender : SentPacketHandler → BbrSender
sender h = h.congestion

pub same-set :
    (level : EncryptionLevel) (s : PacketNumberSpace) (h : SentPacketHandler)
    → sender (set_packet_number_space level s h) ≡ sender h
unfolding set_packet_number_space
same-set unspecified s h = refl
same-set initial s h = refl
same-set handshake s h = refl
same-set one_rtt s h = refl

pub same-alarm : (h : SentPacketHandler) → sender (update_loss_detection_alarm h) ≡ sender h
unfolding update_loss_detection_alarm
same-alarm h = ground arith

pub same-update :
    (level : EncryptionLevel) (f : SentPacketHistory → Result SentPacketHistory)
    (h h' : SentPacketHandler)
    → update_history level f h ≡ ok h'
    → sender h' ≡ sender h
unfolding update_history
same-update level f h h' e =
    let (s, es, e1) = bind-ok (get_packet_number_space level h) _ h' e in
    let (t, et, e2) = bind-ok (f s.history) _ h' e1 in
    ground (arith, e2, same-set level (record s { history = t }) h)

pub same-change :
    (level : EncryptionLevel) (f : SentPacketHistory → SentPacketHistory) (h h' : SentPacketHandler)
    → change_history level f h ≡ ok h'
    → sender h' ≡ sender h
unfolding change_history
same-change level f h h' e =
    let (s, es, e1) = bind-ok (get_packet_number_space level h) _ h' e in
    ground (arith, e1, same-set level (record s { history = f s.history }) h)

pub same-queue :
    (level : EncryptionLevel) (p : Packet) (h h' : SentPacketHandler)
    → queue_packet_for_retransmission level p h ≡ ok h'
    → sender h' ≡ sender h
unfolding queue_packet_for_retransmission
same-queue level p h h' e = elim (Bool-cases p.can_be_retransmitted) [
  | inr c ↦ absurd (ground (arith, e, c))
  | inl c ↦
      let f = mark_cannot_be_retransmitted p.packet_number in
      elim (Result-cases (update_history level f h)) [
        | inl (h1, e1) ↦ ground (arith, e, c, e1, same-update level f h h1 e1)
        | inr (x, e1) ↦ absurd (ground (arith, e, c, e1))
      ]
]

pub same-queue_packets :
    (level : EncryptionLevel) (ps : List Packet) (h h' : SentPacketHandler)
    → queue_packets_for_retransmission level ps h ≡ ok h'
    → sender h' ≡ sender h
unfolding queue_packets_for_retransmission
same-queue_packets level [] h h' e = ground (arith, e)
same-queue_packets level (p ∷ ps) h h' e =
    let (h1, e1, e2) = bind-ok (queue_packet_for_retransmission level p h) _ h' e in
    same-queue_packets level ps h1 h' e2 ∙ same-queue level p h h1 e1

pub same-queue_all :
    (level : EncryptionLevel) (h h' : SentPacketHandler)
    → queue_all_packets_for_retransmission level h ≡ ok h'
    → sender h' ≡ sender h
unfolding queue_all_packets_for_retransmission
same-queue_all level h h' e =
    let (s, es, e1) = bind-ok (get_packet_number_space level h) _ h' e in
    same-queue_packets level (retransmittable s.history) h h' e1

pub same-queue_crypto :
    (h h' : SentPacketHandler)
    → queue_crypto_packets_for_retransmission h ≡ ok h'
    → sender h' ≡ sender h
unfolding queue_crypto_packets_for_retransmission
same-queue_crypto h h' e =
    let (h1, e1, e2) = bind-ok (queue_all_packets_for_retransmission initial h) _ h' e in
    same-queue_all handshake h1 h' e2 ∙ same-queue_all initial h h1 e1

pub same-subtract : (p : Packet) (h : SentPacketHandler) → sender (subtract_lost p h) ≡ sender h
unfolding subtract_lost
same-subtract p h = ground arith

pub same-lose :
    (level : EncryptionLevel) (p : Packet) (h h' : SentPacketHandler)
    → lose_packet level p h ≡ ok h'
    → sender h' ≡ sender h
unfolding lose_packet
same-lose level p h h' e =
    let queued = queue_packet_for_retransmission level p (subtract_lost p h) in
    let kept = ok (subtract_lost p h) in
    let (h1, e1, e2) = bind-ok (if p.can_be_retransmitted then queued else kept) _ h' e in
    let first : sender h1 ≡ sender (subtract_lost p h) =
      elim (if-ok p.can_be_retransmitted queued kept h1 e1) [
        | inl q ↦ same-queue level p (subtract_lost p h) h1 q
        | inr k ↦ ground (arith, k)
      ] in
    same-update level (history_remove p.packet_number) h1 h' e2 ∙ first ∙ same-subtract p h

pub same-lose_packets :
    (level : EncryptionLevel) (ps : List Packet) (h h' : SentPacketHandler)
    → lose_packets level ps h ≡ ok h'
    → sender h' ≡ sender h
unfolding lose_packets
same-lose_packets level [] h h' e = ground (arith, e)
same-lose_packets level (p ∷ ps) h h' e =
    let (h1, e1, e2) = bind-ok (lose_packet level p h) _ h' e in
    same-lose_packets level ps h1 h' e2 ∙ same-lose level p h h1 e1

pub same-detect :
    (o : Outside) (now : ℕ) (level : EncryptionLevel) (h : SentPacketHandler)
    (r : SentPacketHandler × List Packet)
    → detect_lost_packets o now level h ≡ ok r
    → sender r.0 ≡ sender h
unfolding detect_lost_packets
same-detect o now level h r e =
    let (s, es, e1) = bind-ok (get_packet_number_space level h) _ r e in
    let scan = scan_for_losses o now level s h in
    let timed : SentPacketHandler = record h { loss_time = scan.scan_loss_time } in
    let (h1, e2, e3) = bind-ok (lose_packets level scan.lost timed) _ r e1 in
    ground (arith, e3, same-lose_packets level scan.lost timed h1 e2)

pub same-acked :
    (p : Packet) (h h' : SentPacketHandler)
    → Acked.on_packet_acked p h ≡ ok h'
    → sender h' ≡ sender h
unfolding Acked.on_packet_acked
same-acked p h h' e =
    let level = p.encryption_level in
    let (s, es, e1) = bind-ok (get_packet_number_space level h) _ h' e in
    elim (Option-cases (get_packet p.packet_number s.history)) [
      | inl n ↦ ground (arith, e1, n)
      | inr (q, n) ↦
          let s1 : PacketNumberSpace = record s { history = detach q s.history } in
          let h1 = set_packet_number_space level s1 h in
          let updated : update_history level (forget_acked q) (subtract_lost q h1) ≡ ok h' =
            ground (arith, e1, n) in
          same-update level (forget_acked q) (subtract_lost q h1) h' updated
          ∙ same-subtract q h1
          ∙ same-set level s1 h
    ]

pub same-raise :
    (level : EncryptionLevel) (p : Packet) (h : SentPacketHandler)
    → sender (raise_lowest level p h) ≡ sender h
same-raise level p h = ground arith

pub same-ack_packets :
    (level : EncryptionLevel) (ps : List Packet) (h h' : SentPacketHandler)
    → ack_packets level ps h ≡ ok h'
    → sender h' ≡ sender h
unfolding ack_packets
same-ack_packets level [] h h' e = ground (arith, e)
same-ack_packets level (p ∷ ps) h h' e =
    let h0 = raise_lowest level p h in
    let (h1, e1, e2) = bind-ok (Acked.on_packet_acked p h0) _ h' e in
    same-ack_packets level ps h1 h' e2 ∙ same-acked p h0 h1 e1 ∙ same-raise level p h

pub same-rtt :
    (o : Outside) (f : AckFrame) (level : EncryptionLevel) (time : ℕ) (s : PacketNumberSpace)
    (h : SentPacketHandler)
    → sender (maybe_update_rtt o f level time s h) ≡ sender h
unfolding maybe_update_rtt
same-rtt o f level time s h = ground arith
