-- ===== src/Ackhandler/PacketHistory/Order.antt =====
-- What a list of intervals means: the packet numbers in it, and that the intervals are in order, with
-- a gap between any two.
use gt_bbr.Prelude.{ℕ, ◌+◌, ◌≤◌, ◌<◌, ◌≡◌, ◌↔◌, ◌⊎◌, inl, inr, List, [], ◌∷◌, arith}
use gt_bbr.Ackhandler.PacketHistory.{PacketInterval, merge_prev, insert_packet}

-- The highest interval stays below `s`, and does not touch it.
abbrev pub Below : ℕ → List PacketInterval → Type 0
Below s [] = Unit {0}
Below s (r ∷ rs) = r.end + 1 < s

abbrev pub IsOrdered : List PacketInterval → Type 0
IsOrdered [] = Unit {0}
IsOrdered (r ∷ rs) = (r.start ≤ r.end) × Below r.start rs × IsOrdered rs

-- The packet number `q` lies in an interval.
abbrev pub Has : ℕ → List PacketInterval → Type 0
Has q [] = ⊥
Has q (r ∷ rs) = ((r.start ≤ q) × (q ≤ r.end)) ⊎ Has q rs

-- All packet numbers of an ordered list lie below its bound.
pub Has-Below :
    (s q : ℕ) (rs : List PacketInterval) → Below s rs → IsOrdered rs → Has q rs → q + 1 < s
Has-Below s q [] b o h = elim h [ ]
Has-Below s q (r ∷ rs) b o (inl h) = omega arith
Has-Below s q (r ∷ rs) b o (inr h) = omega (arith, Has-Below r.start q rs o.1 o.2 h)

pub merge_prev-Below :
    (s : ℕ) (el : PacketInterval) (rs : List PacketInterval)
    → el.end + 1 < s
    → Below s (merge_prev el rs)
unfolding merge_prev
merge_prev-Below s el [] h = h
merge_prev-Below s el (r ∷ rs) h = ground arith

merge_prev-IsOrdered :
    (el : PacketInterval) (rs : List PacketInterval)
    → el.start ≤ el.end
    → Below (el.start + 1) rs
    → IsOrdered rs
    → IsOrdered (merge_prev el rs)
unfolding merge_prev
merge_prev-IsOrdered el [] h b o = (h, tt, tt)
merge_prev-IsOrdered el (r ∷ []) h b o = ground arith
merge_prev-IsOrdered el (r ∷ r' ∷ rs) h b o = ground arith

merge_prev-Has :
    (q : ℕ) (el : PacketInterval) (rs : List PacketInterval)
    → el.start ≤ el.end
    → IsOrdered rs
    → Has q (merge_prev el rs) ↔ Has q (el ∷ rs)
unfolding merge_prev
merge_prev-Has q el [] h o = ground arith
merge_prev-Has q el (r ∷ rs) h o = ground arith

pub insert_packet-Below :
    (s p : ℕ) (rs : List PacketInterval) → Below s rs → p + 1 < s → Below s (insert_packet p rs)
unfolding insert_packet
insert_packet-Below s p [] b h = h
insert_packet-Below s p (r ∷ rs) b h = ground (
  arith,
  merge_prev-Below s (record r { end = p }) rs h,
  merge_prev-Below s (record r { start = p }) rs b,
)

pub Below-weaken : (s t : ℕ) (rs : List PacketInterval) → Below s rs → s ≤ t → Below t rs
Below-weaken s t [] b h = tt
Below-weaken s t (r ∷ rs) b h = omega arith

pub insert_packet-IsOrdered :
    (p : ℕ) (rs : List PacketInterval) → IsOrdered rs → IsOrdered (insert_packet p rs)
unfolding insert_packet
insert_packet-IsOrdered p [] o = (omega arith, tt, tt)
insert_packet-IsOrdered p (r ∷ rs) o = ground (
  arith,
  insert_packet-IsOrdered p rs o.2,
  insert_packet-Below r.start p rs o.1,
  merge_prev-IsOrdered (record r { end = p }) rs,
  merge_prev-IsOrdered (record r { start = p }) rs,
  Below-weaken r.start (r.start + 1) rs o.1 (omega arith),
  Below-weaken r.start (p + 1) rs o.1,
)

pub insert_packet-Has :
    (p q : ℕ) (rs : List PacketInterval)
    → IsOrdered rs
    → Has q (insert_packet p rs) ↔ ((q ≡ p) ⊎ Has q rs)
unfolding insert_packet
insert_packet-Has p q [] o = ground arith
insert_packet-Has p q (r ∷ rs) o = ground (
  arith,
  insert_packet-Has p q rs o.2,
  merge_prev-Has q (record r { end = p }) rs,
  merge_prev-Has q (record r { start = p }) rs,
)
