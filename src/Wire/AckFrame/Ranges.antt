-- ===== src/Wire/AckFrame/Ranges.antt =====
-- internal/wire/ack_frame.go: the ACK ranges after the first, written, measured and parsed.
use gt_bbr.Prelude.{
  ℕ, zero, suc, ◌+◌, ◌-◌, ◌*◌, ◌≤◌, ◌<◌, ◌≡◌, refl, ap, ◌∙◌, inl, inr, true, false, List, [], ◌∷◌,
  ◌++◌, append_assoc, append-nil, arith, ltb, le→not_ltb, Bool-cases, length, take, length-append,
}
use gt_bbr.Prelude.Reader.{ok}
use gt_bbr.Utils.VarInt.{max_var_int8}
use gt_bbr.Wire.Codec.{writing, measuring, reading}
use gt_bbr.Utils.VarInt.RoundTrip.{var_int, var_int_pos, length-var_int-le}
use gt_bbr.Wire.AckFrame.{
  AckRange, max_ack_frame_size, validate_ack_ranges, parse_ack_ranges, encode_ack_range, range_len,
  num_encodable_loop, write_ack_ranges, length_ack_ranges,
}
use gt_bbr.Wire.AckFrame.Acks.{valid-next}

-- The bytes of the first `n` ranges of a list, behind the range `last`.
pub range_bytes : ℕ → AckRange → List AckRange → List ℕ
range_bytes zero last rs = []
range_bytes (suc n) last [] = []
range_bytes (suc n) last (r ∷ rs) =
    var_int (last.smallest - r.largest - 2)
    ++ (var_int (r.largest - r.smallest) ++ range_bytes n r rs)

-- Behind a range that it does not touch, a range is encoded by plain differences.
encode_ack_range_lem :
    (last r : AckRange)
    → last.smallest ≤ max_var_int8
    → r.largest + 1 < last.smallest
    → r.smallest ≤ r.largest
    → encode_ack_range last r ≡ (last.smallest - r.largest - 2, r.largest - r.smallest)
unfolding encode_ack_range
encode_ack_range_lem last r small apart ordered = ground arith

pub write_ack_ranges_lem :
    (n : ℕ) (last : AckRange) (rs : List AckRange) (b : List ℕ)
    → validate_ack_ranges (last ∷ rs) ≡ true
    → last.smallest ≤ max_var_int8
    → n ≤ length rs
    → write_ack_ranges n last rs b ≡ ok (b ++ range_bytes n last rs)
unfolding write_ack_ranges range_bytes
write_ack_ranges_lem zero last rs b h small le = rw append-nil
write_ack_ranges_lem (suc n) last [] b h small le = absurd (omega arith)
write_ack_ranges_lem (suc n) last (r ∷ rs) b h small le =
    let (apart, ordered, h') = valid-next last r rs h in
    let g : last.smallest - r.largest - 2 ≤ max_var_int8 = omega arith in
    let l : r.largest - r.smallest ≤ max_var_int8 = omega arith in
    rw (encode_ack_range_lem last r small apart ordered) (
      simp (writing, g, l)
        (write_ack_ranges_lem n r rs _ h' (omega arith) (omega arith) ∙ simp append_assoc))

range_len_lem :
    (last r : AckRange)
    → last.smallest ≤ max_var_int8
    → r.largest + 1 < last.smallest
    → r.smallest ≤ r.largest
    → range_len last r
      ≡ ok (
          length (var_int (last.smallest - r.largest - 2))
          + length (var_int (r.largest - r.smallest)))
unfolding range_len
range_len_lem last r small apart ordered =
    let g : last.smallest - r.largest - 2 ≤ max_var_int8 = omega arith in
    let l : r.largest - r.smallest ≤ max_var_int8 = omega arith in
    rw (encode_ack_range_lem last r small apart ordered) (simp (measuring, g, l))

pub length_ack_ranges_lem :
    (n : ℕ) (last : AckRange) (rs : List AckRange) (len : ℕ)
    → validate_ack_ranges (last ∷ rs) ≡ true
    → last.smallest ≤ max_var_int8
    → n ≤ length rs
    → length_ack_ranges n last rs len ≡ ok (len + length (range_bytes n last rs))
unfolding length_ack_ranges range_bytes
length_ack_ranges_lem zero last rs len h small le = ap ok (omega arith)
length_ack_ranges_lem (suc n) last [] len h small le = absurd (omega arith)
length_ack_ranges_lem (suc n) last (r ∷ rs) len h small le =
    let (apart, ordered, h') = valid-next last r rs h in
    rw (range_len_lem last r small apart ordered) (
      length_ack_ranges_lem n r rs _ h' (omega arith) (omega arith)
      ∙ ap ok (simp length-append (omega arith)))

-- The first `n` ranges are read back.
pub parse_ack_ranges_lem :
    (n : ℕ) (last : AckRange) (rs out : List AckRange) (rest : List ℕ)
    → validate_ack_ranges (last ∷ rs) ≡ true
    → last.smallest ≤ max_var_int8
    → n ≤ length rs
    → parse_ack_ranges n last.smallest out (range_bytes n last rs ++ rest)
      ≡ ok (out ++ take n rs, rest)
unfolding parse_ack_ranges range_bytes
parse_ack_ranges_lem zero last rs out rest h small le = rw append-nil
parse_ack_ranges_lem (suc n) last [] out rest h small le = absurd (omega arith)
parse_ack_ranges_lem (suc n) last (r ∷ rs) out rest h small le =
    let (apart, ordered, h') = valid-next last r rs h in
    let g : last.smallest - r.largest - 2 ≤ max_var_int8 = omega arith in
    let l : r.largest - r.smallest ≤ max_var_int8 = omega arith in
    let e : last.smallest - (last.smallest - r.largest - 2) - 2 ≡ r.largest = omega arith in
    let e' : r.largest - (r.largest - r.smallest) ≡ r.smallest = omega arith in
    let t : ltb last.smallest (last.smallest - r.largest - 2 + 2) ≡ false =
      le→not_ltb _ _ (omega arith) in
    let t' : ltb r.largest (r.largest - r.smallest) ≡ false = le→not_ltb _ _ (omega arith) in
    simp (reading, g, l, t, e, e', t')
      (parse_ack_ranges_lem n r rs (out ++ (r ∷ [])) rest h' (omega arith) (omega arith)
        ∙ simp append_assoc)

-- A prefix of a valid list of ranges is valid.
pub validate-take :
    (n : ℕ) (r : AckRange) (rs : List AckRange)
    → validate_ack_ranges (r ∷ rs) ≡ true
    → validate_ack_ranges (r ∷ take n rs) ≡ true
unfolding validate_ack_ranges
validate-take zero r rs h = ground arith
validate-take (suc n) r [] h = h
validate-take (suc zero) r (s ∷ rs) h = ground arith
validate-take (suc (suc n)) r (s ∷ rs) h =
    ground (arith, validate-take (suc n) s rs (valid-next r s rs h).2)

range_bytes-cons :
    (last r : AckRange) (rs : List AckRange) (j j' : ℕ)
    → j' ≡ j - 1
    → length (range_bytes j last (r ∷ rs))
      ≤ length (var_int (last.smallest - r.largest - 2))
        + length (var_int (r.largest - r.smallest))
        + length (range_bytes j' r rs)
unfolding range_bytes
range_bytes-cons last r rs zero j' e = omega arith
range_bytes-cons last r rs (suc j) j' e =
    let e : j' ≡ j = omega arith in
    rw e (
      omega (
        arith,
        length-append (var_int (last.smallest - r.largest - 2))
            (var_int (r.largest - r.smallest) ++ range_bytes j r rs),
        length-append (var_int (r.largest - r.smallest)) (range_bytes j r rs),
      ))

-- The number of ranges that are encoded, if the ones before take `len` bytes and the first of `rs`
-- has the index `i`.
pub num_encodable_loop_lem :
    (i len : ℕ) (last : AckRange) (rs : List AckRange)
    → validate_ack_ranges (last ∷ rs) ≡ true
    → last.smallest ≤ max_var_int8
    → 1 ≤ i
    → 2 * i ≤ len
    → len ≤ 1000
    → (k : ℕ) × (num_encodable_loop i len last rs ≡ ok k)
      × (i ≤ k + 1)
      × (len ≤ 984 → i ≤ k)
      × (k ≤ i + length rs)
      × (k ≤ 500)
      × (len + length (range_bytes (k - i) last rs) ≤ 1000)
unfolding num_encodable_loop range_bytes
num_encodable_loop_lem i len last [] h small pos two le = (
  i,
  refl,
  omega arith,
  (λ _. omega arith),
  omega arith,
  omega arith,
  let e : i - i ≡ 0 = omega arith in rw e (omega arith),
)
num_encodable_loop_lem i len last (r ∷ rs) h small pos two le =
    let (apart, ordered, h') = valid-next last r rs h in
    let g = var_int (last.smallest - r.largest - 2) in
    let l = var_int (r.largest - r.smallest) in
    let n = length g + length l in
    let e = range_len_lem last r small apart ordered in
    let two' : 2 ≤ n =
      omega (
        arith,
        var_int_pos (last.smallest - r.largest - 2),
        var_int_pos (r.largest - r.smallest),
      ) in
    let too_long : len ≤ 984 → ltb max_ack_frame_size (len + n) ≡ true → ⊥ = λ small over. ground (
      arith,
      length-var_int-le (last.smallest - r.largest - 2),
      length-var_int-le (r.largest - r.smallest),
    ) in
    elim (Bool-cases (ltb max_ack_frame_size (len + n))) [
      | inl over ↦ (
        i - 1,
        rw (e, over),
        omega arith,
        (λ small. absurd (too_long small over)),
        omega arith,
        omega arith,
        let z : i - 1 - i ≡ 0 = omega arith in rw z (omega arith),
      )
      | inr fits ↦
          let (k, rec, a, a', b, c, d) =
            num_encodable_loop_lem (i + 1) (len + n) r rs h' (omega arith) (omega arith)
              (omega arith) (ground arith) in
          (
            k,
            rw (e, fits) rec,
            omega arith,
            (λ _. omega arith),
            omega arith,
            c,
            omega (arith, range_bytes-cons last r rs (k - i) (k - (i + 1)) (omega arith)),
          )
    ]
