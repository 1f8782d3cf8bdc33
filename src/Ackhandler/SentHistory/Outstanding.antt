-- ===== src/Ackhandler/SentHistory/Outstanding.antt =====
-- internal/ackhandler/sent_packet_history.go: the counter and the pointer to the first outstanding
-- packet, against the list of the packets that can be retransmitted.
use gt_bbr.Ackhandler.SentHistory.{
  Packet, first_retransmittable, change_packet, remove_packet, is_number, packets_after,
  find_packet, SentPacketHistory,
}
use gt_bbr.Prelude.{
  ℕ, ◌+◌, ◌<◌, ◌≡◌, refl, subst, inl, inr, Bool, true, false, Option, none, some, List, [], ◌∷◌,
  ◌++◌, arith, ◌==◌, if◌then◌else◌, Bool-cases, length, All,
}

abbrev pub outstanding : List Packet → List ℕ
outstanding [] = []
outstanding (p ∷ ps) =
    if p.can_be_retransmitted then p.packet_number ∷ outstanding ps else outstanding ps

abbrev pub head_of : List ℕ → Option ℕ
head_of [] = none
head_of (n ∷ ns) = some n

abbrev pub delete : ℕ → List ℕ → List ℕ
delete n [] = []
delete n (m ∷ ms) = if m == n then ms else m ∷ delete n ms

abbrev pub Above : ℕ → List Packet → Type 0
Above n ps = All (λ p. n < p.packet_number) ps

abbrev pub Below : ℕ → List Packet → Type 0
Below n ps = All (λ p. p.packet_number < n) ps

abbrev pub IsAscending : List Packet → Type 0
IsAscending [] = Unit
IsAscending (p ∷ ps) = Above p.packet_number ps × IsAscending ps

abbrev pub forget : Packet → Packet
forget p = record p { can_be_retransmitted = false }

pub first-outstanding : (ps : List Packet) → first_retransmittable ps ≡ head_of (outstanding ps)
unfolding first_retransmittable
first-outstanding [] = refl
first-outstanding (p ∷ ps) = ground (arith, first-outstanding ps)

delete-outstanding :
    (n : ℕ) (ps : List Packet) → Above n ps → delete n (outstanding ps) ≡ outstanding ps
delete-outstanding n [] a = refl
delete-outstanding n (p ∷ ps) (lt, a) = ground (arith, delete-outstanding n ps a, lt)

pub change-outstanding :
    (n : ℕ) (ps : List Packet)
    → IsAscending ps
    → outstanding (change_packet forget n ps) ≡ delete n (outstanding ps)
unfolding change_packet
change-outstanding n [] a = refl
change-outstanding n (p ∷ ps) (above, a) = elim (Bool-cases (p.packet_number == n)) [
  | inl e ↦
      let same : p.packet_number ≡ n = ground (arith, e) in
      let kept = delete-outstanding n ps (subst (λ k. Above k ps) same above) in
      ground (arith, kept, e)
  | inr e ↦ ground (arith, change-outstanding n ps a, e)
]

pub remove-outstanding :
    (n : ℕ) (ps : List Packet)
    → IsAscending ps
    → outstanding (remove_packet n ps) ≡ delete n (outstanding ps)
unfolding remove_packet
remove-outstanding n [] a = refl
remove-outstanding n (p ∷ ps) (above, a) = elim (Bool-cases (p.packet_number == n)) [
  | inl e ↦
      let same : p.packet_number ≡ n = ground (arith, e) in
      let kept = delete-outstanding n ps (subst (λ k. Above k ps) same above) in
      ground (arith, kept, e)
  | inr e ↦ ground (arith, remove-outstanding n ps a, e)
]

pub not_first :
    (n : ℕ) (ps : List Packet) → Above n ps → is_number n (head_of (outstanding ps)) ≡ false
not_first n [] a = refl
not_first n (p ∷ ps) (lt, a) = ground (arith, not_first n ps a, lt)

pub after-outstanding :
    (n : ℕ) (ps : List Packet)
    → IsAscending ps
    → is_number n (head_of (outstanding ps)) ≡ true
    → outstanding (packets_after n ps) ≡ delete n (outstanding ps)
unfolding packets_after
after-outstanding n [] a h = refl
after-outstanding n (p ∷ ps) (above, a) h = elim (Bool-cases (p.packet_number == n)) [
  | inl e ↦
      let same : p.packet_number ≡ n = ground (arith, e) in
      let other = not_first n ps (subst (λ k. Above k ps) same above) in ground (arith, other, e, h)
  | inr e ↦ ground (arith, after-outstanding n ps a, e, h)
]

pub after-change :
    (n : ℕ) (ps : List Packet) → packets_after n (change_packet forget n ps) ≡ packets_after n ps
unfolding packets_after change_packet
after-change n [] = refl
after-change n (p ∷ ps) = ground (arith, after-change n ps)

pub first-delete :
    (n : ℕ) (ns : List ℕ) → is_number n (head_of ns) ≡ false → head_of (delete n ns) ≡ head_of ns
first-delete n [] h = refl
first-delete n (m ∷ ms) h = ground arith

abbrev pub bit : Bool → ℕ
bit b = if b then 1 else 0

pub change-length :
    (n : ℕ) (p : Packet) (ps : List Packet)
    → find_packet n ps ≡ some p
    → length (outstanding ps)
      ≡ bit p.can_be_retransmitted + length (outstanding (change_packet forget n ps))
unfolding find_packet change_packet
change-length n p [] e = ground arith
change-length n p (q ∷ ps) e = ground (arith, change-length n p ps)

pub remove-length :
    (n : ℕ) (p : Packet) (ps : List Packet)
    → find_packet n ps ≡ some p
    → length (outstanding ps)
      ≡ bit p.can_be_retransmitted + length (outstanding (remove_packet n ps))
unfolding find_packet remove_packet
remove-length n p [] e = ground arith
remove-length n p (q ∷ ps) e = ground (arith, remove-length n p ps)

pub outstanding-append :
    (ps qs : List Packet) → outstanding (ps ++ qs) ≡ outstanding ps ++ outstanding qs
outstanding-append [] qs = refl
outstanding-append (p ∷ ps) qs = ground (arith, outstanding-append ps qs)

-- The numbers ascend up to `next`, and the counter and the pointer say what the list says.
pub record IsConsistent (next : ℕ) (h : SentPacketHistory) : Type 0 where
  pub below : Below next h.packet_list
  pub ascending : IsAscending h.packet_list
  pub counted : h.num_outstanding_packets ≡ length (outstanding h.packet_list)
  pub first : h.first_outstanding ≡ head_of (outstanding h.packet_list)
