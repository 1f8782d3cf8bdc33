-- ===== src/Ackhandler/Sent/Accounting/Ordered.antt =====
-- internal/ackhandler/sent_packet_handler.go: the spaces stay in ascending order when
-- packets are acknowledged.
use gt_bbr.Prelude.{
  ℕ, ◌≡◌, sym, subst, inl, inr, Option, none, some, List, [], ◌∷◌, arith, Option-cases,
}
use gt_bbr.Prelude.Reader.{bind-ok, Result, ok}
use gt_bbr.Wire.FrameParser.{EncryptionLevel, unspecified, initial, handshake, one_rtt}
use gt_bbr.Ackhandler.SentHistory.{
  Packet, SentPacketHistory, get_packet, find_packet, change_packet,
}
use gt_bbr.Ackhandler.Sent.{
  PacketNumberSpace, SentPacketHandler, get_packet_number_space, set_packet_number_space,
}
use gt_bbr.Ackhandler.Sent.Acked
use gt_bbr.Ackhandler.Sent.Acked.{detach, forget_acked, drop_retransmission, stop_retransmissions}
use gt_bbr.Ackhandler.Sent.Acked.Fuel.{IsSame, shape}
use gt_bbr.Ackhandler.SentHistory.Outstanding.{Above, IsAscending}
use gt_bbr.Ackhandler.SentHistory.Order.{remove-IsAscending}
use gt_bbr.Ackhandler.Sent.Bytes.{stop-IsSame, removed-list}
use gt_bbr.Ackhandler.Sent.Accounting.{subtract-spaces}
use gt_bbr.Ackhandler.Sent.Loss.{update_history, subtract_lost}

abbrev pub SpaceOrdered : Option PacketNumberSpace → Type 0
SpaceOrdered none = Unit
SpaceOrdered (some s) = IsAscending s.history.packet_list

-- The packets of each space are in ascending order of their numbers.
abbrev pub IsOrdered : SentPacketHandler → Type 0
IsOrdered h =
    SpaceOrdered h.initial_packets
    × SpaceOrdered h.handshake_packets
    × SpaceOrdered (some h.one_rtt_packets)

abbrev pub ViewOrdered :
    Option PacketNumberSpace × Option PacketNumberSpace × PacketNumberSpace → Type 0
ViewOrdered v = SpaceOrdered v.0 × SpaceOrdered v.1 × SpaceOrdered (some v.2)

pub get-IsOrdered :
    (level : EncryptionLevel) (s : PacketNumberSpace) (h : SentPacketHandler)
    → get_packet_number_space level h ≡ ok s
    → IsOrdered h
    → IsAscending s.history.packet_list
unfolding get_packet_number_space
get-IsOrdered unspecified s h e o = absurd (ground (arith, e))
get-IsOrdered initial s h e o = elim (Option-cases h.initial_packets) [
  | inl n ↦ absurd (ground (arith, e, n))
  | inr (k, n) ↦
      let same : h.initial_packets ≡ some s = ground (arith, e, n) in subst SpaceOrdered same o.0
]
get-IsOrdered handshake s h e o = elim (Option-cases h.handshake_packets) [
  | inl n ↦ absurd (ground (arith, e, n))
  | inr (k, n) ↦
      let same : h.handshake_packets ≡ some s = ground (arith, e, n) in subst SpaceOrdered same o.1
]
get-IsOrdered one_rtt s h e o =
    let same : h.one_rtt_packets ≡ s = ground (arith, e) in
    subst (λ k. SpaceOrdered (some k)) same o.2

pub set-IsOrdered :
    (level : EncryptionLevel) (t : PacketNumberSpace) (h : SentPacketHandler)
    → IsAscending t.history.packet_list
    → IsOrdered h
    → IsOrdered (set_packet_number_space level t h)
unfolding set_packet_number_space
set-IsOrdered unspecified t h a o = o
set-IsOrdered initial t h a (o, p, q) = (a, p, q)
set-IsOrdered handshake t h a (o, p, q) = (o, a, q)
set-IsOrdered one_rtt t h a (o, p, q) = (o, p, a)

pub update-IsOrdered :
    (level : EncryptionLevel) (f : SentPacketHistory → Result SentPacketHistory)
    (h h' : SentPacketHandler)
    → ((k k' : SentPacketHistory)
        → f k ≡ ok k'
        → IsAscending k.packet_list
        → IsAscending k'.packet_list)
    → update_history level f h ≡ ok h'
    → IsOrdered h
    → IsOrdered h'
unfolding update_history
update-IsOrdered level f h h' keep e o =
    let (s, es, e1) = bind-ok (get_packet_number_space level h) _ h' e in
    let (t, et, e2) = bind-ok (f s.history) _ h' e1 in
    let s1 : PacketNumberSpace = record s { history = t } in
    let same : set_packet_number_space level s1 h ≡ h' = ground (arith, e2) in
    subst IsOrdered same
      (set-IsOrdered level s1 h (keep s.history t et (get-IsOrdered level s h es o)) o)

Above-shape : (n : ℕ) (ps : List Packet) → Above n ps → Above n (shape ps)
Above-shape n [] a = a
Above-shape n (p ∷ ps) (lt, a) = (lt, Above-shape n ps a)

shape-Above : (n : ℕ) (ps : List Packet) → Above n (shape ps) → Above n ps
shape-Above n [] a = a
shape-Above n (p ∷ ps) (lt, a) = (lt, shape-Above n ps a)

IsAscending-shape : (ps : List Packet) → IsAscending ps → IsAscending (shape ps)
IsAscending-shape [] a = a
IsAscending-shape (p ∷ ps) (b, a) = (Above-shape p.packet_number ps b, IsAscending-shape ps a)

shape-IsAscending : (ps : List Packet) → IsAscending (shape ps) → IsAscending ps
shape-IsAscending [] a = a
shape-IsAscending (p ∷ ps) (b, a) = (shape-Above p.packet_number ps b, shape-IsAscending ps a)

same-IsAscending :
    (h h' : SentPacketHistory)
    → IsSame h h'
    → IsAscending h.packet_list
    → IsAscending h'.packet_list
same-IsAscending h h' s a =
    shape-IsAscending h'.packet_list (subst IsAscending (sym s) (IsAscending-shape h.packet_list a))

forget_acked-IsAscending :
    (p : Packet) (h h' : SentPacketHistory)
    → forget_acked p h ≡ ok h'
    → IsAscending h.packet_list
    → IsAscending h'.packet_list
unfolding forget_acked
forget_acked-IsAscending p h h' e a =
    let n = p.packet_number in
    let (h1, e1, e2) = bind-ok (stop_retransmissions p h) _ h' e in
    subst IsAscending (sym (removed-list n h1 h' e2))
      (remove-IsAscending n h1.packet_list (same-IsAscending h h1 (stop-IsSame p h h1 e1) a))

detach-Above :
    (m n q : ℕ) (ps : List Packet)
    → Above m ps
    → Above m (change_packet (drop_retransmission q) n ps)
unfolding change_packet drop_retransmission
detach-Above m n q [] a = a
detach-Above m n q (p ∷ ps) (lt, a) = ground (arith, detach-Above m n q ps a, lt, a)

change-IsAscending :
    (n q : ℕ) (ps : List Packet)
    → IsAscending ps
    → IsAscending (change_packet (drop_retransmission q) n ps)
unfolding change_packet drop_retransmission
change-IsAscending n q [] a = a
change-IsAscending n q (p ∷ ps) (b, a) =
    ground (arith, change-IsAscending n q ps a, detach-Above p.packet_number n q ps b, a, b)

detach-IsAscending :
    (p : Packet) (h : SentPacketHistory)
    → IsAscending h.packet_list
    → IsAscending (detach p h).packet_list
unfolding detach
detach-IsAscending p h a =
    ground (arith, change-IsAscending p.retransmission_of p.packet_number h.packet_list a, a)

pub acked-IsOrdered :
    (p : Packet) (h h' : SentPacketHandler)
    → Acked.on_packet_acked p h ≡ ok h'
    → IsOrdered h
    → IsOrdered h'
unfolding Acked.on_packet_acked get_packet
acked-IsOrdered p0 h h' e o =
    let level = p0.encryption_level in
    let (s, es, e1) = bind-ok (get_packet_number_space level h) _ h' e in
    elim (Option-cases (find_packet p0.packet_number s.history.packet_list)) [
      | inl m ↦ let same : h ≡ h' = ground (arith, e1, m) in subst IsOrdered same o
      | inr (p, m) ↦
          let s1 : PacketNumberSpace = record s { history = detach p s.history } in
          let h1 = set_packet_number_space level s1 h in
          let updated : update_history level (forget_acked p) (subtract_lost p h1) ≡ ok h' =
            ground (arith, e1, m) in
          let a = detach-IsAscending p s.history (get-IsOrdered level s h es o) in
          update-IsOrdered level (forget_acked p) (subtract_lost p h1) h'
            (forget_acked-IsAscending p) updated
            (subst ViewOrdered (sym (subtract-spaces p h1)) (set-IsOrdered level s1 h a o))
    ]
