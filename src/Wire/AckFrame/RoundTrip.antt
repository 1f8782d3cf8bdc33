-- ===== src/Wire/AckFrame/RoundTrip.antt =====
-- internal/wire/ack_frame.go: an ACK frame that was written is parsed back.
use gt_bbr.Prelude.{
  ℕ, zero, suc, ◌+◌, ◌-◌, ◌*◌, ◌/◌, ◌^◌, ◌≤◌, ◌<◌, ◌≡◌, ap, ◌∙◌, true, false, List, [], ◌∷◌, ◌++◌,
  append_assoc, arith, ltb, le→not_ltb, length, take, All, length-append,
}
use gt_bbr.Prelude.Reader.{ok}
use gt_bbr.Utils.VarInt.{max_var_int8}
use gt_bbr.Wire.Codec.{writing, measuring, reading}
use gt_bbr.Utils.VarInt.RoundTrip.{var_int, length-var_int, length-var_int-le, length-var_int-le2}
use gt_bbr.Wire.AckFrame.{
  AckRange, AckFrame, sub64, validate_ack_ranges, decode_ack_delay, encode_ack_delay, skip_ecn,
  encode_first_range, num_encodable_ack_ranges, write_ack_frame, length_ack_frame, parse_ack_frame,
}
use gt_bbr.Wire.AckFrame.Acks.{valid-head}
use gt_bbr.Wire.AckFrame.Ranges.{
  range_bytes, write_ack_ranges_lem, length_ack_ranges_lem, parse_ack_ranges_lem, validate-take,
  num_encodable_loop_lem,
}

-- A delay is sent in units of 8 microseconds, rounded down.
ack_delay_rounds : (d : ℕ) → d < 2 ^ 63 → decode_ack_delay (encode_ack_delay d) 3 ≡ d / 8000 * 8000
unfolding decode_ack_delay encode_ack_delay
ack_delay_rounds d h = ground arith

encode_ack_delay-le : (d : ℕ) → d < 2 ^ 63 → encode_ack_delay d ≤ max_var_int8
unfolding encode_ack_delay
encode_ack_delay-le d h = ground arith

-- The bytes behind the type byte of a frame of which `k` ranges are encoded.
ack_body : ℕ → AckRange → List AckRange → ℕ → List ℕ
ack_body k first rs d =
    var_int first.largest
    ++ (var_int (encode_ack_delay d)
        ++ (var_int (k - 1)
            ++ (var_int (first.largest - first.smallest) ++ range_bytes (k - 1) first rs)))

first_range_lem :
    (r : AckRange)
    → r.largest ≤ max_var_int8
    → r.smallest ≤ r.largest
    → encode_first_range r ≡ r.largest - r.smallest
unfolding encode_first_range
first_range_lem r h le = omega arith

sub64_one : (k : ℕ) → 1 ≤ k → k ≤ 500 → sub64 k 1 ≡ k - 1
sub64_one k h h' = omega arith

take_pos :
    (k : ℕ) (r : AckRange) (rs : List AckRange) → 1 ≤ k → take k (r ∷ rs) ≡ r ∷ take (k - 1) rs
take_pos zero r rs h = absurd (omega arith)
take_pos (suc k) r rs h = ground arith

module _ (first : AckRange) (rs : List AckRange) (d : ℕ)
    (valid : validate_ack_ranges (first ∷ rs) ≡ true) (small : first.largest ≤ max_var_int8)
    (hd : d < 2 ^ 63) where
  abbrev frame : AckFrame
  frame = record { ack_ranges = first ∷ rs; delay_time = d }

  -- How many ranges are encoded.
  num_encodable_lem :
      (k : ℕ) × (num_encodable_ack_ranges frame ≡ ok k)
      × (1 ≤ k)
      × (k ≤ length (first ∷ rs))
      × (k ≤ 500)
      × (1 + length (ack_body k first rs d) ≤ 1008)
  unfolding num_encodable_ack_ranges ack_body
  num_encodable_lem =
      let l1 = var_int first.largest in
      let l2 = var_int (encode_ack_delay d) in
      let hd' = encode_ack_delay-le d hd in
      let ordered = valid-head first rs valid in
      let b1 = length-var_int-le first.largest in
      let b2 = length-var_int-le (encode_ack_delay d) in
      let (k, e, a, a', b, c, bound) =
        num_encodable_loop_lem 1 (1 + length l1 + length l2 + 2) first rs valid (omega arith)
          (omega arith) (omega arith) (omega arith) in
      (
        k,
        simp (measuring, small, hd') (simp length-var_int at e),
        a' (omega arith),
        omega arith,
        c,
        simp length-append (
            omega (
              arith,
              length-var_int-le2 (k - 1),
              length-var_int-le (first.largest - first.smallest),
            )),
      )

  module _ (k : ℕ) (num : num_encodable_ack_ranges frame ≡ ok k) (pos : 1 ≤ k)
      (few : k ≤ length (first ∷ rs)) (cap : k ≤ 500) where
    count : k - 1 ≤ max_var_int8
    count = omega arith

    low : first.smallest ≤ max_var_int8
    low = omega (arith, valid-head first rs valid)

    block : first.largest - first.smallest ≤ max_var_int8
    block = omega arith

    enough : k - 1 ≤ length rs
    enough = omega arith

    plain : sub64 first.largest first.smallest ≡ first.largest - first.smallest
    plain = omega (arith, valid-head first rs valid)

    first_range : encode_first_range first ≡ first.largest - first.smallest
    first_range = first_range_lem first small (valid-head first rs valid)

    write_ack_frame_lem :
        (b : List ℕ) → write_ack_frame b frame ≡ ok (b ++ (0x2 ∷ ack_body k first rs d))
    unfolding write_ack_frame ack_body
    write_ack_frame_lem b =
        rw (num, sub64_one k pos cap, first_range)
          (simp (writing, small, encode_ack_delay-le d hd, count, block)
            (write_ack_ranges_lem (k - 1) first rs _ valid low (omega arith) ∙ simp append_assoc))

    length_ack_frame_lem : length_ack_frame frame ≡ ok (1 + length (ack_body k first rs d))
    unfolding length_ack_frame ack_body
    length_ack_frame_lem =
        rw (num, sub64_one k pos cap)
          (simp
            (
              measuring,
              small,
              encode_ack_delay-le d hd,
              count,
              plain,
              block,
              length_ack_ranges_lem,
              valid,
              low,
              enough,
            )
            (ap ok (omega arith)))

    parse_ack_frame_lem :
        (rest : List ℕ)
        → parse_ack_frame 3 (0x2 ∷ (ack_body k first rs d ++ rest))
          ≡ ok (record { ack_ranges = take k (first ∷ rs); delay_time = d / 8000 * 8000 }, rest)
    unfolding parse_ack_frame ack_body skip_ecn
    parse_ack_frame_lem rest =
        let t : ltb first.largest (first.largest - first.smallest) ≡ false =
          le→not_ltb _ _ (omega arith) in
        let e : first.largest - (first.largest - first.smallest) ≡ first.smallest =
          omega (arith, valid-head first rs valid) in
        simp (
          reading,
          small,
          encode_ack_delay-le d hd,
          count,
          block,
          t,
          e,
          parse_ack_ranges_lem,
          valid,
          low,
          enough,
          validate-take,
          ack_delay_rounds,
          hd,
          take_pos k first rs pos,
        )

-- An ACK frame with valid ranges, none above 2 ^ 62 - 1, and a delay that is not negative, is
-- written as its first `k` ranges, at least one; `Length` is right; the frame takes at most 1008
-- bytes; and it is parsed back as these ranges, with the delay rounded down to 8 microseconds.
pub ack_frame_round_trip :
    (f : AckFrame) (b rest : List ℕ)
    → validate_ack_ranges f.ack_ranges ≡ true
    → All (λ r. r.largest ≤ max_var_int8) f.ack_ranges
    → f.delay_time < 2 ^ 63
    → (k : ℕ) × (body : List ℕ) × (num_encodable_ack_ranges f ≡ ok k)
      × (1 ≤ k)
      × (k ≤ length f.ack_ranges)
      × (write_ack_frame b f ≡ ok (b ++ (0x2 ∷ body)))
      × (length_ack_frame f ≡ ok (1 + length body))
      × (1 + length body ≤ 1008)
      × (parse_ack_frame 3 (0x2 ∷ (body ++ rest))
          ≡ ok (
            record { ack_ranges = take k f.ack_ranges; delay_time = f.delay_time / 8000 * 8000 },
            rest,
          ))
ack_frame_round_trip f b rest valid small hd = go f.ack_ranges valid small
  where
    d : ℕ
    d = f.delay_time

    go :
        (rs : List AckRange)
        → validate_ack_ranges rs ≡ true
        → All (λ r. r.largest ≤ max_var_int8) rs
        → let f' : AckFrame = record { ack_ranges = rs; delay_time = d } in
          (k : ℕ) × (body : List ℕ) × (num_encodable_ack_ranges f' ≡ ok k)
          × (1 ≤ k)
          × (k ≤ length rs)
          × (write_ack_frame b f' ≡ ok (b ++ (0x2 ∷ body)))
          × (length_ack_frame f' ≡ ok (1 + length body))
          × (1 + length body ≤ 1008)
          × (parse_ack_frame 3 (0x2 ∷ (body ++ rest))
              ≡ ok (record { ack_ranges = take k rs; delay_time = d / 8000 * 8000 }, rest))
    go [] valid small = absurd (unfold validate_ack_ranges in cc)
    go (first ∷ rs) valid (small, _) =
        let (k, num, pos, few, cap, bound) = num_encodable_lem first rs d valid small hd in
        (
          k,
          ack_body k first rs d,
          num,
          pos,
          few,
          write_ack_frame_lem first rs d valid small hd k num pos few cap b,
          length_ack_frame_lem first rs d valid small hd k num pos few cap,
          bound,
          parse_ack_frame_lem first rs d valid small hd k num pos few cap rest,
        )
