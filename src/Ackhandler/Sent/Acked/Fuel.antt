-- ===== src/Ackhandler/Sent/Acked/Fuel.antt =====
-- internal/ackhandler/sent_packet_handler.go: `stopRetransmissionsFor` ends.
use gt_bbr.Ackhandler.Sent.Acked.{
  stop_each, stop_retransmissions_for, stop_retransmissions, or_not_found,
}
use gt_bbr.Prelude.{
  ℕ, zero, suc, ◌+◌, ◌≤◌, ◌<◌, ◌≡◌, refl, sym, ap, ◌∙◌, subst, ◌≢◌, inl, inr, Bool, some, List, [],
  ◌∷◌, map, arith, leb, ◌==◌, if◌then◌else◌, Bool-cases, Option-cases, length, All,
}
use gt_bbr.Prelude.Reader.{bind-ok, bind-err, Result, err, ok, out_of_fuel, ◌>>=◌}
use gt_bbr.Ackhandler.SentHistory.{
  Packet, SentPacketHistory, mark_cannot_be_retransmitted, get_packet, find_packet, change_packet,
}
use gt_bbr.Ackhandler.SentHistory.{
  set_cannot_be_retransmitted, count_down, readjust_first_outstanding,
}
use gt_bbr.Ackhandler.SentHistory.Outstanding.{forget}

-- Every retransmission has a larger number than the packet.
abbrev pub IsForwardPacket : Packet → Type 0
IsForwardPacket p = All (λ r. p.packet_number < r) p.retransmitted_as

abbrev pub IsForward : List Packet → Type 0
IsForward ps = All IsForwardPacket ps

abbrev pub shape : List Packet → List Packet
shape ps = map forget ps

-- How many packets have a number from `n` on.
abbrev count_from : ℕ → List Packet → ℕ
count_from n [] = 0
count_from n (p ∷ ps) = (if leb n p.packet_number then 1 else 0) + count_from n ps

abbrev pub IsSame : SentPacketHistory → SentPacketHistory → Type 0
IsSame h h' = shape h'.packet_list ≡ shape h.packet_list

shape-change : (n : ℕ) (ps : List Packet) → shape (change_packet forget n ps) ≡ shape ps
unfolding change_packet
shape-change n [] = refl
shape-change n (p ∷ ps) = ground (arith, shape-change n ps)

count-shape : (n : ℕ) (ps : List Packet) → count_from n (shape ps) ≡ count_from n ps
count-shape n [] = refl
count-shape n (p ∷ ps) = ap (λ k. (if leb n p.packet_number then 1 else 0) + k) (count-shape n ps)

IsForward-shape : (ps : List Packet) → IsForward ps → IsForward (shape ps)
IsForward-shape [] f = f
IsForward-shape (p ∷ ps) (a, f) = (a, IsForward-shape ps f)

shape-IsForward : (ps : List Packet) → IsForward (shape ps) → IsForward ps
shape-IsForward [] f = f
shape-IsForward (p ∷ ps) (a, f) = (a, shape-IsForward ps f)

count-le : (n : ℕ) (ps : List Packet) → count_from n ps ≤ length ps
count-le n [] = omega arith
count-le n (p ∷ ps) = ground (arith, count-le n ps)

count_mono : (m n : ℕ) (ps : List Packet) → m ≤ n → count_from n ps ≤ count_from m ps
count_mono m n [] h = omega arith
count_mono m n (p ∷ ps) h = ground (arith, count_mono m n ps h, h)

-- A packet counts from its own number on, and not from the next.
found-count :
    (n : ℕ) (p : Packet) (ps : List Packet)
    → find_packet n ps ≡ some p
    → count_from (n + 1) ps < count_from n ps
unfolding find_packet
found-count n p [] e = ground (arith, e)
found-count n p (q ∷ ps) e = elim (Bool-cases (q.packet_number == n)) [
  | inl t ↦ ground (arith, t, count_mono n (n + 1) ps (omega arith))
  | inr t ↦ ground (arith, t, e, found-count n p ps)
]

pub found-number :
    (n : ℕ) (p : Packet) (ps : List Packet) → find_packet n ps ≡ some p → p.packet_number ≡ n
unfolding find_packet
found-number n p [] e = absurd (ground (arith, e))
found-number n p (q ∷ ps) e = ground (arith, e, found-number n p ps)

found-IsForward :
    (n : ℕ) (p : Packet) (ps : List Packet)
    → find_packet n ps ≡ some p
    → IsForward ps
    → IsForwardPacket p
unfolding find_packet
found-IsForward n p [] e f = absurd (ground (arith, e))
found-IsForward n p (q ∷ ps) e (a, f) = elim (Bool-cases (q.packet_number == n)) [
  | inl t ↦ let same : q ≡ p = ground (arith, t, e) in subst IsForwardPacket same a
  | inr t ↦ found-IsForward n p ps (ground (arith, t, e)) f
]

set-IsSame :
    (n : ℕ) (h : SentPacketHistory)
    → shape (set_cannot_be_retransmitted n h).packet_list ≡ shape h.packet_list
unfolding set_cannot_be_retransmitted readjust_first_outstanding
set-IsSame n h = ground (arith, shape-change n h.packet_list)

count_down-list :
    (p : Packet) (h h' : SentPacketHistory)
    → count_down p h ≡ ok h'
    → h'.packet_list ≡ h.packet_list
unfolding count_down
count_down-list p h h' e = ground (arith, e)

pub mark-IsSame :
    (n : ℕ) (h h' : SentPacketHistory) → mark_cannot_be_retransmitted n h ≡ ok h' → IsSame h h'
unfolding mark_cannot_be_retransmitted get_packet
mark-IsSame n h h' e = elim (Option-cases (find_packet n h.packet_list)) [
  | inl f ↦ absurd (ground (arith, e, f))
  | inr (p, f) ↦
      let go_on : SentPacketHistory → Result SentPacketHistory =
        λ k. ok (set_cannot_be_retransmitted n k) in
      let chain : (count_down p h >>= go_on) ≡ ok h' = ground (arith, e, f) in
      let (h1, e1, e2) = bind-ok (count_down p h) go_on h' chain in
      let same : shape h'.packet_list ≡ shape h1.packet_list =
        ground (arith, e2, set-IsSame n h1) in
      same ∙ ap shape (count_down-list p h h1 e1)
]

mark-ne-out_of_fuel :
    (n : ℕ) (h : SentPacketHistory) → mark_cannot_be_retransmitted n h ≢ err out_of_fuel
unfolding mark_cannot_be_retransmitted get_packet count_down
mark-ne-out_of_fuel n h e = ground (arith, e)

abbrev pub Stop : Type 0
Stop = Packet → SentPacketHistory → Result (SentPacketHistory × Bool)

-- Whatever a call leaves has the same packets, up to the flags.
abbrev pub KeepsShape : Stop → Type 0
KeepsShape f =
    (p : Packet) (h : SentPacketHistory) (r : SentPacketHistory × Bool)
    → f p h ≡ ok r
    → IsSame h r.0

each-IsSame :
    (f : Stop) (rs : List ℕ) (h : SentPacketHistory) (r : SentPacketHistory × Bool)
    → KeepsShape f
    → stop_each f rs h ≡ ok r
    → IsSame h r.0
unfolding get_packet
each-IsSame f [] h r k e = ground (arith, e)
each-IsSame f (n ∷ rs) h r k e = elim (Option-cases (find_packet n h.packet_list)) [
  | inl m ↦ ground (arith, e, m)
  | inr (q, m) ↦
      let go_on : SentPacketHistory × Bool → Result (SentPacketHistory × Bool) =
        λ w. stop_each f rs w.0 in
      let chain : (f q h >>= go_on) ≡ ok r = ground (arith, e, m) in
      let (w, e1, e2) = bind-ok (f q h) go_on r chain in each-IsSame f rs w.0 r k e2 ∙ k q h w e1
]

pub stop-KeepsShape : (fuel : ℕ) → KeepsShape (stop_retransmissions_for fuel)
unfolding stop_retransmissions_for
stop-KeepsShape zero p h r e = absurd (ground (arith, e))
stop-KeepsShape (suc fuel) p h r e =
    let f = stop_retransmissions_for fuel in
    let (h1, e1, e2) = bind-ok (mark_cannot_be_retransmitted p.packet_number h) _ r e in
    each-IsSame f p.retransmitted_as h1 r (stop-KeepsShape fuel) e2
    ∙ mark-IsSame p.packet_number h h1 e1

-- With fuel for the packets from its number on, a call does not run out of it.
abbrev IsEnough : ℕ → Stop → Type 0
IsEnough bound f =
    (p : Packet) (h : SentPacketHistory)
    → IsForward h.packet_list
    → find_packet p.packet_number h.packet_list ≡ some p
    → count_from p.packet_number h.packet_list ≤ bound
    → f p h ≢ err out_of_fuel

same-IsForward :
    (h h' : SentPacketHistory) → IsSame h h' → IsForward h.packet_list → IsForward h'.packet_list
same-IsForward h h' s f =
    shape-IsForward h'.packet_list (subst IsForward (sym s) (IsForward-shape h.packet_list f))

same-count :
    (n : ℕ) (h h' : SentPacketHistory)
    → IsSame h h'
    → count_from n h'.packet_list ≡ count_from n h.packet_list
same-count n h h' s =
    sym (count-shape n h'.packet_list) ∙ ap (count_from n) s ∙ count-shape n h.packet_list

each-IsEnough :
    (bound n : ℕ) (f : Stop) (rs : List ℕ) (h : SentPacketHistory)
    → KeepsShape f
    → IsEnough bound f
    → IsForward h.packet_list
    → All (λ r. n < r) rs
    → count_from (n + 1) h.packet_list ≤ bound
    → stop_each f rs h ≢ err out_of_fuel
unfolding get_packet
each-IsEnough bound n f [] h k b w a c e = ground (arith, e)
each-IsEnough bound n f (m ∷ rs) h k b w (lt, a) c e =
    elim (Option-cases (find_packet m h.packet_list)) [
      | inl g ↦ ground (arith, e, g)
      | inr (q, g) ↦
          let go_on : SentPacketHistory × Bool → Result (SentPacketHistory × Bool) =
            λ v. stop_each f rs v.0 in
          let chain : (f q h >>= go_on) ≡ err out_of_fuel = ground (arith, e, g) in
          let num = found-number m q h.packet_list g in
          let found : find_packet q.packet_number h.packet_list ≡ some q =
            ap (λ x. find_packet x h.packet_list) num ∙ g in
          let less = count_mono (n + 1) q.packet_number h.packet_list (omega (arith, num, lt)) in
          elim (bind-err (f q h) go_on out_of_fuel chain) [
            | inl e1 ↦ b q h w found (omega (arith, less, c)) e1
            | inr (v, e1, e2) ↦
                let s = k q h v e1 in
                each-IsEnough bound n f rs v.0 k b (same-IsForward h v.0 s w) a
                  (omega (arith, same-count (n + 1) h v.0 s, c)) e2
          ]
    ]

stop-IsEnough : (fuel : ℕ) → IsEnough fuel (stop_retransmissions_for fuel)
unfolding stop_retransmissions_for
stop-IsEnough zero p h w g c e = omega (arith, found-count p.packet_number p h.packet_list g, c)
stop-IsEnough (suc fuel) p h w g c e =
    let n = p.packet_number in
    let f = stop_retransmissions_for fuel in
    elim (bind-err (mark_cannot_be_retransmitted n h) _ out_of_fuel e) [
      | inl e1 ↦ mark-ne-out_of_fuel n h e1
      | inr (h1, e1, e2) ↦
          let s = mark-IsSame n h h1 e1 in
          each-IsEnough fuel n f p.retransmitted_as h1 (stop-KeepsShape fuel) (stop-IsEnough fuel)
            (same-IsForward h h1 s w) (found-IsForward n p h.packet_list g w)
            (omega (arith, same-count (n + 1) h h1 s, found-count n p h.packet_list g, c)) e2
    ]

-- If every retransmission has a larger number than the packet that it retransmits, the recursion of
-- `stopRetransmissionsFor` on a packet of the history is never deeper than there are packets in
-- the history: it ends.
pub stop_retransmissions_ends :
    (p : Packet) (h : SentPacketHistory)
    → IsForward h.packet_list
    → find_packet p.packet_number h.packet_list ≡ some p
    → stop_retransmissions p h ≢ err out_of_fuel
unfolding stop_retransmissions
stop_retransmissions_ends p h w g e =
    let n = length h.packet_list in
    elim (bind-err (stop_retransmissions_for n p h) or_not_found out_of_fuel e) [
      | inl e1 ↦ stop-IsEnough n p h w g (count-le p.packet_number h.packet_list) e1
      | inr (r, e1, e2) ↦ ground (arith, e2)
    ]
