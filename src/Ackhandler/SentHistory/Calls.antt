-- ===== src/Ackhandler/SentHistory/Calls.antt =====
-- internal/ackhandler/sent_packet_history.go: what each call does to the outstanding packets.
use gt_bbr.Ackhandler.SentHistory.Order.{
  append-Below, append-IsAscending, remove-Below, change-Below, remove-IsAscending,
  change-IsAscending,
}
use gt_bbr.Ackhandler.SentHistory.Outstanding.{
  head_of, IsConsistent, outstanding, bit, delete, outstanding-append, forget, remove-outstanding,
  remove-length, change-outstanding, change-length, first-outstanding, after-change,
  after-outstanding, first-delete,
}
use gt_bbr.Ackhandler.SentHistory.{
  SentPacketHistory, or_else, sent_packet_impl, set_cannot_be_retransmitted, count_down,
  mark_cannot_be_retransmitted, history_remove, readjust_first_outstanding, packet_not_found,
  Packet, get_packet, find_packet, is_number, change_packet, remove_packet, packets_after,
}
use gt_bbr.Prelude.{
  ℕ, ◌+◌, ◌≤◌, ◌≡◌, refl, sym, ap, ◌∙◌, subst, inl, inr, true, none, some, List, [], ◌∷◌, ◌++◌,
  arith, if◌then◌else◌, Bool-cases, Option-cases, length, length-append,
}
use gt_bbr.Prelude.Reader.{Result, ok, err}

-- A consistent history with the outstanding numbers, or the error.
abbrev pub After : ℕ → Result SentPacketHistory → List ℕ → Type 0
After next (err e) ns = e ≡ packet_not_found
After next (ok h) ns = IsConsistent next h × (outstanding h.packet_list ≡ ns)

length-append-one : (ns : List ℕ) (n : ℕ) → length (ns ++ (n ∷ [])) ≡ length ns + 1
length-append-one ns n = length-append ns (n ∷ []) ∙ omega arith

first-append-one : (ns : List ℕ) (n : ℕ) → or_else (head_of ns) n ≡ head_of (ns ++ (n ∷ []))
first-append-one [] n = refl
first-append-one (m ∷ ms) n = refl

pub send-After :
    (next : ℕ) (p : Packet) (h : SentPacketHistory)
    → IsConsistent next h
    → next ≤ p.packet_number
    → p.can_be_retransmitted ≡ true
    → After
        (p.packet_number + 1)
        (ok (sent_packet_impl p h))
        (outstanding h.packet_list ++ (p.packet_number ∷ []))
unfolding sent_packet_impl
send-After next p h c le can =
    let ns = outstanding h.packet_list in
    let out : outstanding (h.packet_list ++ (p ∷ [])) ≡ ns ++ (p.packet_number ∷ []) =
      outstanding-append h.packet_list (p ∷ []) ∙ rw can in
    (
      record {
        below = append-Below next p h.packet_list le c.below;
        ascending = append-IsAscending next p h.packet_list le c.below c.ascending;
        counted =
            ground (arith, ap length out, length-append-one ns p.packet_number, c.counted, can);
        first =
            ap (λ f. or_else f p.packet_number) c.first
            ∙ first-append-one ns p.packet_number
            ∙ ap head_of (sym out);
      },
      out,
    )

set-After :
    (next n k : ℕ) (h : SentPacketHistory)
    → IsConsistent next h
    → k ≡ length (outstanding (change_packet forget n h.packet_list))
    → After next
        (ok (set_cannot_be_retransmitted n (record h { num_outstanding_packets = k })))
        (delete n (outstanding h.packet_list))
unfolding set_cannot_be_retransmitted readjust_first_outstanding
set-After next n k h c e =
    let ps = h.packet_list in
    let out = change-outstanding n ps c.ascending in
    let below = change-Below next n ps c.below in
    let ascending = change-IsAscending n ps c.ascending in
    elim (Bool-cases (is_number n h.first_outstanding)) [
      | inl f ↦
          let after =
            first-outstanding (packets_after n (change_packet forget n ps))
            ∙ ap (λ l. head_of (outstanding l)) (after-change n ps)
            ∙ ap head_of (after-outstanding n ps c.ascending (ap (is_number n) (sym c.first) ∙ f))
            ∙ ap head_of (sym out) in
          rw f (record { below = below; ascending = ascending; counted = e; first = after }, out)
      | inr f ↦
          let same =
            c.first
            ∙ sym (first-delete n (outstanding ps) (ap (is_number n) (sym c.first) ∙ f))
            ∙ ap head_of (sym out) in
          rw f (record { below = below; ascending = ascending; counted = e; first = same }, out)
    ]

-- `countDown` does not panic on a consistent history, and counts what is left.
count_down_lem :
    (rest : ℕ) (p : Packet) (h : SentPacketHistory)
    → h.num_outstanding_packets ≡ bit p.can_be_retransmitted + rest
    → count_down p h ≡ ok (record h { num_outstanding_packets = rest })
unfolding count_down
count_down_lem rest p h e = ground (arith, e)

marked :
    (n rest : ℕ) (p : Packet) (h : SentPacketHistory)
    → find_packet n h.packet_list ≡ some p
    → h.num_outstanding_packets ≡ bit p.can_be_retransmitted + rest
    → mark_cannot_be_retransmitted n h
      ≡ ok (set_cannot_be_retransmitted n (record h { num_outstanding_packets = rest }))
unfolding mark_cannot_be_retransmitted get_packet
marked n rest p h e k = ground (arith, e, count_down_lem rest p h k)

mark-missing :
    (n : ℕ) (h : SentPacketHistory)
    → find_packet n h.packet_list ≡ none
    → mark_cannot_be_retransmitted n h ≡ err packet_not_found
unfolding mark_cannot_be_retransmitted get_packet
mark-missing n h e = ground (arith, e)

pub mark-After :
    (next n : ℕ) (h : SentPacketHistory)
    → IsConsistent next h
    → After next (mark_cannot_be_retransmitted n h) (delete n (outstanding h.packet_list))
mark-After next n h c =
    let ps = h.packet_list in
    let ns = delete n (outstanding ps) in
    elim (Option-cases (find_packet n ps)) [
      | inl e ↦ subst (λ r. After next r ns) (sym (mark-missing n h e)) refl
      | inr (p, e) ↦
          let rest = length (outstanding (change_packet forget n ps)) in
          subst (λ r. After next r ns)
            (sym (marked n rest p h e (c.counted ∙ change-length n p ps e)))
            (set-After next n rest h c refl)
    ]

removed :
    (n rest : ℕ) (p : Packet) (h : SentPacketHistory)
    → find_packet n h.packet_list ≡ some p
    → h.num_outstanding_packets ≡ bit p.can_be_retransmitted + rest
    → history_remove n h
      ≡ ok (record (if is_number n h.first_outstanding then readjust_first_outstanding n h else h) {
        num_outstanding_packets = rest;
        packet_list = remove_packet n h.packet_list;
      })
unfolding history_remove get_packet count_down readjust_first_outstanding
removed n rest p h e k = ground (arith, e, k)

remove-missing :
    (n : ℕ) (h : SentPacketHistory)
    → find_packet n h.packet_list ≡ none
    → history_remove n h ≡ err packet_not_found
unfolding history_remove get_packet
remove-missing n h e = ground (arith, e)

removed-After :
    (next n : ℕ) (h : SentPacketHistory)
    → IsConsistent next h
    → After next
        (ok
          (record (if is_number n h.first_outstanding then readjust_first_outstanding n h else h) {
            num_outstanding_packets = length (outstanding (remove_packet n h.packet_list));
            packet_list = remove_packet n h.packet_list;
          }))
        (delete n (outstanding h.packet_list))
unfolding readjust_first_outstanding
removed-After next n h c =
    let ps = h.packet_list in
    let out = remove-outstanding n ps c.ascending in
    let below = remove-Below next n ps c.below in
    let ascending = remove-IsAscending n ps c.ascending in
    elim (Bool-cases (is_number n h.first_outstanding)) [
      | inl f ↦
          let after =
            first-outstanding (packets_after n ps)
            ∙ ap head_of (after-outstanding n ps c.ascending (ap (is_number n) (sym c.first) ∙ f))
            ∙ ap head_of (sym out) in
          rw f (record { below = below; ascending = ascending; counted = refl; first = after }, out)
      | inr f ↦
          let same =
            c.first
            ∙ sym (first-delete n (outstanding ps) (ap (is_number n) (sym c.first) ∙ f))
            ∙ ap head_of (sym out) in
          rw f (record { below = below; ascending = ascending; counted = refl; first = same }, out)
    ]

pub remove-After :
    (next n : ℕ) (h : SentPacketHistory)
    → IsConsistent next h
    → After next (history_remove n h) (delete n (outstanding h.packet_list))
remove-After next n h c =
    let ps = h.packet_list in
    let ns = delete n (outstanding ps) in
    elim (Option-cases (find_packet n ps)) [
      | inl e ↦ subst (λ r. After next r ns) (sym (remove-missing n h e)) refl
      | inr (p, e) ↦
          let rest = length (outstanding (remove_packet n ps)) in
          subst (λ r. After next r ns)
            (sym (removed n rest p h e (c.counted ∙ remove-length n p ps e)))
            (removed-After next n h c)
    ]
