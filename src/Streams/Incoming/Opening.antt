-- ===== src/Streams/Incoming/Opening.antt =====
-- streams_map_incoming_generic.go: the loop that opens all streams up to a number.
use gt_bbr.Prelude.{
  ℕ, zero, suc, ◌+◌, ◌≤◌, ◌<◌, ◌≡◌, ◌↔◌, ◌⊎◌, inl, inr, true, List, ◌∷◌, arith, Bool-cases, length,
}
use gt_bbr.Streams.NumSet.{contains, HasNoRepeats}
use gt_bbr.Streams.Incoming.{open_streams}

pub open_streams-contains :
    (count first k : ℕ) (ms : List ℕ)
    → (contains k (open_streams count first ms) ≡ true)
      ↔ ((contains k ms ≡ true) ⊎ ((first ≤ k) × (k < first + count)))
unfolding open_streams contains
open_streams-contains zero first k ms = ground arith
open_streams-contains (suc count) first k ms = ground (
  arith,
  open_streams-contains count (first + 1) k ms,
  open_streams-contains count (first + 1) k (first ∷ ms),
)

pub open_streams-HasNoRepeats :
    (count first : ℕ) (ms : List ℕ) → HasNoRepeats ms → HasNoRepeats (open_streams count first ms)
unfolding open_streams
open_streams-HasNoRepeats zero first ms s = s
open_streams-HasNoRepeats (suc count) first ms s = elim (Bool-cases (contains first ms)) [
  | inl e ↦ rw e (open_streams-HasNoRepeats count (first + 1) ms s)
  | inr e ↦ rw e (open_streams-HasNoRepeats count (first + 1) (first ∷ ms) (e, s))
]

pub length-open_streams :
    (count first : ℕ) (ms : List ℕ) → length (open_streams count first ms) ≤ length ms + count
unfolding open_streams
length-open_streams zero first ms = omega arith
length-open_streams (suc count) first ms = ground (
  arith,
  length-open_streams count (first + 1) ms,
  length-open_streams count (first + 1) (first ∷ ms),
)
