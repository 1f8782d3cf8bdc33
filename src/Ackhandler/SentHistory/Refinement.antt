-- ===== src/Ackhandler/SentHistory/Refinement.antt =====
-- internal/ackhandler/sent_packet_history.go: the history implements a list of the numbers of the
-- packets that can be retransmitted.
use gt_bbr.Ackhandler.SentHistory.Calls.{After, send-After, mark-After, remove-After}
use gt_bbr.Ackhandler.SentHistory.Outstanding.{delete, IsConsistent, outstanding, head_of}
use gt_bbr.Ackhandler.SentHistory.{
  Packet, sent_packet_impl, SentPacketHistory, new_sent_packet_history,
  mark_cannot_be_retransmitted, packet_not_found, history_remove,
}
use gt_bbr.Prelude.{ℕ, ◌+◌, ◌≤◌, ◌≡◌, refl, ap, ◌∙◌, subst, true, List, [], ◌∷◌, ◌++◌, length}
use gt_bbr.Prelude.Reader.{Result, ok, err, ◌>>=◌}

-- A call of the history.
pub data Op : Type 0 where
  send : Packet → Op
  mark : ℕ → Op
  remove : ℕ → Op

unfoldable pub apply : Op → SentPacketHistory → Result SentPacketHistory
unfolding sent_packet_impl mark_cannot_be_retransmitted history_remove
apply (send p) h = ok (sent_packet_impl p h)
apply (mark n) h = mark_cannot_be_retransmitted n h
apply (remove n) h = history_remove n h

unfoldable pub run : List Op → SentPacketHistory → Result SentPacketHistory
unfolding apply
run [] h = ok h
run (op ∷ ops) h = do h1 ← apply op h; run ops h1

-- The same calls, on the numbers of the packets that can be retransmitted.
abbrev pub replay_op : Op → List ℕ → List ℕ
replay_op (send p) ns = ns ++ (p.packet_number ∷ [])
replay_op (mark n) ns = delete n ns
replay_op (remove n) ns = delete n ns

abbrev pub replay : List Op → List ℕ → List ℕ
replay [] ns = ns
replay (op ∷ ops) ns = replay ops (replay_op op ns)

-- Packets are sent with ascending numbers, and can be retransmitted.
abbrev pub IsInOrder : ℕ → List Op → Type 0
IsInOrder next [] = Unit
IsInOrder next (send p ∷ ops) =
    (next ≤ p.packet_number) × (p.can_be_retransmitted ≡ true) × IsInOrder (p.packet_number + 1) ops
IsInOrder next (mark n ∷ ops) = IsInOrder next ops
IsInOrder next (remove n ∷ ops) = IsInOrder next ops

-- What the history shows of the abstract state; the only error is a packet that is not found.
abbrev pub Shows : Result SentPacketHistory → List ℕ → Type 0
Shows (err e) ns = e ≡ packet_not_found
Shows (ok h) ns =
    (outstanding h.packet_list ≡ ns)
    × (h.first_outstanding ≡ head_of ns)
    × (h.num_outstanding_packets ≡ length ns)

After-Shows : (next : ℕ) (r : Result SentPacketHistory) (ns : List ℕ) → After next r ns → Shows r ns
After-Shows next (err e) ns a = a
After-Shows next (ok h) ns (c, out) = (out, c.first ∙ ap head_of out, c.counted ∙ ap length out)

go_on-Shows :
    (next : ℕ) (r : Result SentPacketHistory) (ns : List ℕ) (ops : List Op)
    → After next r ns
    → ((h : SentPacketHistory)
        → IsConsistent next h
        → Shows (run ops h) (replay ops (outstanding h.packet_list)))
    → Shows (r >>= run ops) (replay ops ns)
go_on-Shows next (err e) ns ops a f = a
go_on-Shows next (ok h) ns ops (c, out) f =
    subst (λ l. Shows (run ops h) (replay ops l)) out (f h c)

run-Shows :
    (next : ℕ) (ops : List Op) (h : SentPacketHistory)
    → IsConsistent next h
    → IsInOrder next ops
    → Shows (run ops h) (replay ops (outstanding h.packet_list))
unfolding run apply
run-Shows next [] h c o = After-Shows next (ok h) (outstanding h.packet_list) (c, refl)
run-Shows next (send p ∷ ops) h c (le, can, o) =
    let after = send-After next p h c le can in
    let k = p.packet_number + 1 in
    go_on-Shows k (ok (sent_packet_impl p h)) (outstanding h.packet_list ++ (p.packet_number ∷ []))
      ops after (λ h' c'. run-Shows k ops h' c' o)
run-Shows next (mark n ∷ ops) h c o =
    go_on-Shows next (mark_cannot_be_retransmitted n h) (delete n (outstanding h.packet_list)) ops
      (mark-After next n h c) (λ h' c'. run-Shows next ops h' c' o)
run-Shows next (remove n ∷ ops) h c o =
    go_on-Shows next (history_remove n h) (delete n (outstanding h.packet_list)) ops
      (remove-After next n h c) (λ h' c'. run-Shows next ops h' c' o)

-- A history on which packets that can be retransmitted are sent with ascending numbers, and packets
-- are marked or removed, implements the list of the numbers of the packets that can be
-- retransmitted, to which sending appends a number, and from which the other two delete one: the
-- packets in the history that can be retransmitted are those in the list, the first outstanding
-- packet is its head, and the counter is its length. The only error is a packet that is not found:
-- the counter never becomes negative.
pub run_refines :
    (ops : List Op) → IsInOrder 0 ops → Shows (run ops new_sent_packet_history) (replay ops [])
unfolding new_sent_packet_history
run_refines ops o =
    run-Shows 0 ops new_sent_packet_history
      (record { below = tt; ascending = tt; counted = refl; first = refl }) o
