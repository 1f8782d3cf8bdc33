-- ===== src/Wire/AckFrame/Acks.antt =====
-- internal/wire/ack_frame.go: `AcksPacket`, a binary search, decides whether a frame acknowledges a
-- packet number.
use gt_bbr.Wire.AckFrame.{AckRange, AckFrame, validate_ack_ranges}
use gt_bbr.Prelude.{
  ℕ, zero, suc, ◌+◌, ◌-◌, ◌/◌, ◌≤◌, ◌<◌, ◌≡◌, ◌↔◌, ◌⊎◌, inl, inr, Bool, true, false, not, ◌||◌,
  List, [], ◌∷◌, arith, ltb, leb, if◌then◌else◌, leb→le, Bool-cases, length,
}

-- `sort.Search` on the indices from `i` up to `j`.
pub search_index : ℕ → (ℕ → Bool) → ℕ → ℕ → ℕ
search_index zero f i j = i
search_index (suc fuel) f i j =
    let h = (i + j) / 2 in
    let up = search_index fuel f (h + 1) j in
    let down = search_index fuel f i h in if ltb i j then (if not (f h) then up else down) else i

-- The `i`th range. The loops below keep to indices that there are.
abbrev pub smallest_at : List AckRange → ℕ → ℕ
smallest_at [] i = 0
smallest_at (r ∷ rs) zero = r.smallest
smallest_at (r ∷ rs) (suc i) = smallest_at rs i

abbrev pub largest_at : List AckRange → ℕ → ℕ
largest_at [] i = 0
largest_at (r ∷ rs) zero = r.largest
largest_at (r ∷ rs) (suc i) = largest_at rs i

unfoldable pub lowest_acked : AckFrame → ℕ
lowest_acked f = smallest_at f.ack_ranges (length f.ack_ranges - 1)

unfoldable pub largest_acked : AckFrame → ℕ
largest_acked f = largest_at f.ack_ranges 0

-- The index that `sort.Search` finds.
pub found_index : List AckRange → ℕ → ℕ
unfolding search_index
found_index rs p = let n = length rs in search_index n (λ i. leb (smallest_at rs i) p) 0 n

-- `AcksPacket` on a frame that has a range, as every parsed frame has; on another the code indexes out
-- of range.
unfoldable pub acks_packet : AckFrame → ℕ → Bool
unfolding found_index
acks_packet f p =
    if ltb p (lowest_acked f) || ltb (largest_acked f) p
    then false
    else leb p (largest_at f.ack_ranges (found_index f.ack_ranges p))

-- The binary search returns the first index at which a test that stays true once it is true holds,
-- or the end.
search_index_lem :
    (fuel : ℕ) (f : ℕ → Bool) (i j : ℕ)
    → i ≤ j
    → j ≤ i + fuel
    → ((a b : ℕ) → a ≤ b → f a ≡ true → f b ≡ true)
    → let k = search_index fuel f i j in
      (i ≤ k) × (k ≤ j) × (k < j → f k ≡ true) × ((m : ℕ) → i ≤ m → m < k → f m ≡ false)
unfolding search_index
search_index_lem zero f i j h k mono =
    (omega arith, omega arith, λ lt. absurd (omega arith), λ m a b. absurd (omega arith))
search_index_lem (suc fuel) f i j h k mono = elim (Bool-cases (ltb i j)) [
  | inr done ↦
      rw done (omega arith, omega arith, λ lt. absurd (ground arith), λ m a b. absurd (omega arith))
  | inl more ↦ elim (Bool-cases (f ((i + j) / 2))) [
    | inl hit ↦
        let (a, b, c, d) =
          search_index_lem fuel f i ((i + j) / 2) (ground arith) (ground arith) mono in
        rw (more, hit) (a, ground arith, λ lt. ground arith, d)
    | inr miss ↦
        let (a, b, c, d) =
          search_index_lem fuel f ((i + j) / 2 + 1) j (ground arith) (ground arith) mono in
        rw (more, miss) (omega arith, b, c, λ m lo hi. ground (arith, mono m ((i + j) / 2), d m))
  ]
]

-- A packet number lies in one of the ranges.
abbrev pub InRanges : List AckRange → ℕ → Type 0
InRanges [] p = ⊥
InRanges (r ∷ rs) p = ((r.smallest ≤ p) × (p ≤ r.largest)) ⊎ InRanges rs p

pub valid-head :
    (r : AckRange) (rs : List AckRange)
    → validate_ack_ranges (r ∷ rs) ≡ true
    → r.smallest ≤ r.largest
unfolding validate_ack_ranges
valid-head r rs h = ground arith

pub valid-next :
    (r s : AckRange) (rs : List AckRange)
    → validate_ack_ranges (r ∷ s ∷ rs) ≡ true
    → (s.largest + 1 < r.smallest)
      × (s.smallest ≤ s.largest)
      × (validate_ack_ranges (s ∷ rs) ≡ true)
unfolding validate_ack_ranges
valid-next r s rs h = ground arith

-- In a valid list every later range lies below the first.
smallest_at_le :
    (r : AckRange) (rs : List AckRange) (i : ℕ)
    → validate_ack_ranges (r ∷ rs) ≡ true
    → smallest_at (r ∷ rs) i ≤ r.smallest
smallest_at_le r rs zero h = omega arith
smallest_at_le r [] (suc i) h = omega arith
smallest_at_le r (s ∷ rs) (suc i) h =
    let (a, b, c) = valid-next r s rs h in omega (arith, smallest_at_le s rs i c)

smallest_at_mono :
    (rs : List AckRange) (a b : ℕ)
    → validate_ack_ranges rs ≡ true
    → a ≤ b
    → smallest_at rs b ≤ smallest_at rs a
smallest_at_mono [] a b h le = omega arith
smallest_at_mono (r ∷ rs) zero b h le = smallest_at_le r rs b h
smallest_at_mono (r ∷ rs) (suc a) zero h le = absurd (omega arith)
smallest_at_mono (r ∷ []) (suc a) (suc b) h le = omega arith
smallest_at_mono (r ∷ s ∷ rs) (suc a) (suc b) h le =
    smallest_at_mono (s ∷ rs) a b (valid-next r s rs h).2 (omega arith)

InRanges-below :
    (r : AckRange) (rs : List AckRange) (p : ℕ)
    → validate_ack_ranges (r ∷ rs) ≡ true
    → InRanges rs p
    → p < r.smallest
InRanges-below r [] p h m = elim m [ ]
InRanges-below r (s ∷ rs) p h (inl m) = let (a, b, c) = valid-next r s rs h in omega arith
InRanges-below r (s ∷ rs) p h (inr m) =
    let (a, b, c) = valid-next r s rs h in omega (arith, InRanges-below s rs p c m)

InRanges-le-largest :
    (r : AckRange) (rs : List AckRange) (p : ℕ)
    → validate_ack_ranges (r ∷ rs) ≡ true
    → InRanges (r ∷ rs) p
    → p ≤ r.largest
InRanges-le-largest r rs p h (inl m) = m.1
InRanges-le-largest r rs p h (inr m) = omega (arith, InRanges-below r rs p h m, valid-head r rs h)

InRanges-ge-lowest :
    (r : AckRange) (rs : List AckRange) (p : ℕ)
    → validate_ack_ranges (r ∷ rs) ≡ true
    → InRanges (r ∷ rs) p
    → smallest_at (r ∷ rs) (length rs) ≤ p
InRanges-ge-lowest r rs p h (inl m) = omega (arith, smallest_at_le r rs (length rs) h)
InRanges-ge-lowest r [] p h (inr m) = elim m [ ]
InRanges-ge-lowest r (s ∷ rs) p h (inr m) = InRanges-ge-lowest s rs p (valid-next r s rs h).2 m

-- At the first range that does not start above `p`, its end decides.
index_decides :
    (rs : List AckRange) (p k : ℕ)
    → validate_ack_ranges rs ≡ true
    → k < length rs
    → smallest_at rs k ≤ p
    → ((m : ℕ) → m < k → p < smallest_at rs m)
    → InRanges rs p ↔ (p ≤ largest_at rs k)
index_decides [] p k h lt at above = absurd (omega arith)
index_decides (r ∷ rs) p zero h lt at above = (there, λ le. inl (at, le))
  where
    there : InRanges (r ∷ rs) p → p ≤ r.largest
    there m = InRanges-le-largest r rs p h m
index_decides (r ∷ []) p (suc k) h lt at above = absurd (omega arith)
index_decides (r ∷ s ∷ rs) p (suc k) h lt at above = skip (
    index_decides (s ∷ rs) p k (valid-next r s rs h).2 (omega arith) at
      (λ m lt. above (suc m) (omega arith)))
  where
    skip :
        (InRanges (s ∷ rs) p ↔ (p ≤ largest_at (s ∷ rs) k))
        → InRanges (r ∷ s ∷ rs) p ↔ (p ≤ largest_at (s ∷ rs) k)
    skip rest = (
      λ m. elim m [ inl a ↦ absurd (omega (arith, above 0 (omega arith))) | inr b ↦ rest.0 b ],
      λ le. inr (rest.1 le),
    )

-- What the search finds if the last range does not start above `p`.
found_index_lem :
    (r : AckRange) (rs : List AckRange) (p : ℕ)
    → validate_ack_ranges (r ∷ rs) ≡ true
    → smallest_at (r ∷ rs) (length rs) ≤ p
    → let k = found_index (r ∷ rs) p in
      (k < length (r ∷ rs))
      × (smallest_at (r ∷ rs) k ≤ p)
      × ((m : ℕ) → m < k → p < smallest_at (r ∷ rs) m)
unfolding found_index
found_index_lem r rs p h low = (inside, leb→le _ _ (c inside), above)
  where
    n : ℕ
    n = length (r ∷ rs)

    test : ℕ → Bool
    test i = leb (smallest_at (r ∷ rs) i) p

    mono : (a b : ℕ) → a ≤ b → test a ≡ true → test b ≡ true
    mono a b le e = ground (arith, smallest_at_mono (r ∷ rs) a b h le)

    k : ℕ
    k = search_index n test 0 n

    found : (0 ≤ k) × (k ≤ n) × (k < n → test k ≡ true) × ((m : ℕ) → 0 ≤ m → m < k → test m ≡ false)
    found = search_index_lem n test 0 n (omega arith) (omega arith) mono

    above : (m : ℕ) → m < k → p < smallest_at (r ∷ rs) m
    above m lt = ground (arith, found.3 m (omega arith) lt)

    inside : k < n
    inside = ground (arith, found.1, found.3 (length rs) (omega arith))

    c : k < n → test k ≡ true
    c = found.2

acks_ranges :
    (r : AckRange) (rs : List AckRange) (d p : ℕ)
    → validate_ack_ranges (r ∷ rs) ≡ true
    → (acks_packet (record { ack_ranges = r ∷ rs; delay_time = d }) p ≡ true) ↔ InRanges (r ∷ rs) p
unfolding acks_packet lowest_acked largest_acked
acks_ranges r rs d p h = (sound, complete)
  where
    low : InRanges (r ∷ rs) p → smallest_at (r ∷ rs) (length rs) ≤ p
    low = InRanges-ge-lowest r rs p h

    decides :
        smallest_at (r ∷ rs) (length rs) ≤ p
        → InRanges (r ∷ rs) p ↔ (p ≤ largest_at (r ∷ rs) (found_index (r ∷ rs) p))
    decides le =
        let (a, b, c) = found_index_lem r rs p h le in
        index_decides (r ∷ rs) p (found_index (r ∷ rs) p) h a b c

    sound :
        acks_packet (record { ack_ranges = r ∷ rs; delay_time = d }) p ≡ true → InRanges (r ∷ rs) p
    sound e = (decides (ground arith)).1 (ground arith)

    complete :
        InRanges (r ∷ rs) p → acks_packet (record { ack_ranges = r ∷ rs; delay_time = d }) p ≡ true
    complete m =
        let a = low m in
        let b = InRanges-le-largest r rs p h m in let c = (decides a).0 m in ground arith

-- `AcksPacket` of a frame whose ranges are valid returns true exactly on the packet numbers that
-- lie in one of its ranges.
pub acks_packet_iff :
    (f : AckFrame) (p : ℕ)
    → validate_ack_ranges f.ack_ranges ≡ true
    → (acks_packet f p ≡ true) ↔ InRanges f.ack_ranges p
acks_packet_iff f p h = go f.ack_ranges h
  where
    go :
        (rs : List AckRange)
        → validate_ack_ranges rs ≡ true
        → (acks_packet (record { ack_ranges = rs; delay_time = f.delay_time }) p ≡ true)
          ↔ InRanges rs p
    go [] h = absurd (unfold validate_ack_ranges in cc)
    go (r ∷ rs) h = acks_ranges r rs f.delay_time p h
