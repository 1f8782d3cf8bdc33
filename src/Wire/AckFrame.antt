-- ===== src/Wire/AckFrame.antt =====
-- internal/wire/ack_frame.go and ack_range.go: ACK frames.
-- Packet numbers that a frame acknowledges are not negative, and are plain numbers here. The delay
-- is the 64-bit pattern of a `time.Duration` in nanoseconds.
pub mod Acks
pub mod Ranges
pub mod RoundTrip
use gt_bbr.Prelude.{
  ℕ, zero, suc, ◌+◌, ◌-◌, ◌*◌, ◌/◌, ◌%◌, ◌^◌, List, [], ◌∷◌, ◌++◌, length, ◌==◌, if◌then◌else◌,
  Bool, true, false, ltb, leb, not, ◌&&◌, ◌||◌, bit_and,
}
use gt_bbr.Prelude.Reader.{
  Result, ok, err, eof, invalid_first_ack_range, invalid_ack_ranges, panic, ◌>>=◌, read_byte,
}
use gt_bbr.Utils.VarInt.{u64, read_var_int, write_var_int, var_int_len}

pub record AckRange : Type 0 where
  pub smallest : ℕ
  pub largest : ℕ

-- `AckRange.Len`; the range is not empty.
abbrev pub length_ack_range : AckRange → ℕ
length_ack_range r = r.largest - r.smallest + 1

-- The highest range goes first.
pub record AckFrame : Type 0 where
  pub ack_ranges : List AckRange
  pub delay_time : ℕ

abbrev pub max_ack_frame_size : ℕ
max_ack_frame_size = 1000

-- `time.Duration(delay*1<<ackDelayExponent) * time.Microsecond`
unfoldable pub decode_ack_delay : ℕ → ℕ → ℕ
decode_ack_delay delay ack_delay_exponent = u64 (u64 (delay * 2 ^ ack_delay_exponent) * 1000)

-- `uint64(delay.Nanoseconds() / 8000)`: a signed division, which rounds towards zero.
unfoldable pub encode_ack_delay : ℕ → ℕ
encode_ack_delay d = if ltb d (2 ^ 63) then d / 8000 else u64 (2 ^ 64 - (2 ^ 64 - d) / 8000)

-- The loop over the ranges after the first; `smallest` is that of the range before.
pub parse_ack_ranges : ℕ → ℕ → List AckRange → List ℕ → Result (List AckRange × List ℕ)
parse_ack_ranges zero smallest out r = ok (out, r)
parse_ack_ranges (suc n) smallest out r = do
  (gap, r1) ← read_var_int r
  if ltb smallest (gap + 2) then err invalid_ack_ranges else do
    let largest = smallest - gap - 2
    (ack_block, r2) ← read_var_int r1
    let next = largest - ack_block
    let rest =
        parse_ack_ranges n next (out ++ (record { smallest = next; largest = largest } ∷ [])) r2
    if ltb largest ack_block then err invalid_ack_ranges else rest

abbrev pub all_ordered : List AckRange → Bool
all_ordered [] = true
all_ordered (r ∷ rs) = not (ltb r.largest r.smallest) && all_ordered rs

abbrev pub all_separate : List AckRange → Bool
all_separate [] = true
all_separate (r ∷ []) = true
all_separate (last ∷ r ∷ rs) =
    not (leb last.smallest r.smallest)
    && not (leb last.smallest (r.largest + 1))
    && all_separate (r ∷ rs)

unfoldable pub validate_ack_ranges : List AckRange → Bool
validate_ack_ranges [] = false
validate_ack_ranges (r ∷ rs) = all_ordered (r ∷ rs) && all_separate (r ∷ rs)

-- The ECN section is three integers, which are read and dropped.
pub skip_ecn : Bool → List ℕ → Result (List ℕ)
skip_ecn false r = ok r
skip_ecn true r = do
  (_, r1) ← read_var_int r
  (_, r2) ← read_var_int r1
  (_, r3) ← read_var_int r2
  ok r3

unfoldable pub parse_ack_frame : ℕ → List ℕ → Result (AckFrame × List ℕ)
parse_ack_frame ack_delay_exponent src = do
  (type_byte, r1) ← read_byte src
  let ecn = ltb 0 (bit_and type_byte 0x1)
  (largest_acked, r2) ← read_var_int r1
  (delay, r3) ← read_var_int r2
  (num_blocks, r4) ← read_var_int r3
  (ack_block, r5) ← read_var_int r4
  if ltb largest_acked ack_block then err invalid_first_ack_range else do
    let smallest = largest_acked - ack_block
    (ranges, r6) ←
        parse_ack_ranges num_blocks smallest
          (record { smallest = smallest; largest = largest_acked } ∷ []) r5
    if not (validate_ack_ranges ranges) then err invalid_ack_ranges else do
      r7 ← skip_ecn ecn r6
      ok (
        record { ack_ranges = ranges; delay_time = decode_ack_delay delay ack_delay_exponent },
        r7,
      )

-- `uint64(a - b)`
abbrev pub sub64 : ℕ → ℕ → ℕ
sub64 a b = (a + 2 ^ 64 - b) % 2 ^ 64

-- `encodeAckRange(i)` for the first range, and for a range behind `last`: the gap and the length.
unfoldable pub encode_first_range : AckRange → ℕ
encode_first_range r = sub64 r.largest r.smallest

unfoldable pub encode_ack_range : AckRange → AckRange → ℕ × ℕ
encode_ack_range last r = (sub64 (sub64 last.smallest r.largest) 2, sub64 r.largest r.smallest)

-- The bytes that range `r` behind `last` takes.
unfoldable pub range_len : AckRange → AckRange → Result ℕ
range_len last r = do
  let (gap, len) = encode_ack_range last r
  n1 ← var_int_len gap
  n2 ← var_int_len len
  ok (n1 + n2)

-- The loop of `numEncodableAckRanges`: `i` is the index of the first range of the list.
unfoldable pub num_encodable_loop : ℕ → ℕ → AckRange → List AckRange → Result ℕ
num_encodable_loop i length last [] = ok i
num_encodable_loop i length last (r ∷ rs) = do
  n ← range_len last r
  let more = num_encodable_loop (i + 1) (length + n) r rs
  if ltb max_ack_frame_size (length + n) then ok (i - 1) else more

-- An index into an empty list of ranges is a panic.
unfoldable pub num_encodable_ack_ranges : AckFrame → Result ℕ
num_encodable_ack_ranges f = elim f.ack_ranges [
  | [] ↦ err panic
  | first ∷ rs ↦ do
    n1 ← var_int_len first.largest
    n2 ← var_int_len (encode_ack_delay f.delay_time)
    num_encodable_loop 1 (1 + n1 + n2 + 2) first rs
]

-- The loop of `Write` over the ranges after the first, `n` of them. An index past the end panics.
pub write_ack_ranges : ℕ → AckRange → List AckRange → List ℕ → Result (List ℕ)
write_ack_ranges zero last rs b = ok b
write_ack_ranges (suc n) last [] b = err panic
write_ack_ranges (suc n) last (r ∷ rs) b = do
  let (gap, len) = encode_ack_range last r
  b1 ← write_var_int b gap
  b2 ← write_var_int b1 len
  write_ack_ranges n r rs b2

unfoldable pub write_ack_frame : List ℕ → AckFrame → Result (List ℕ)
write_ack_frame b f = elim f.ack_ranges [
  | [] ↦ err panic
  | first ∷ rs ↦ do
    b1 ← write_var_int (b ++ (0x2 ∷ [])) first.largest
    b2 ← write_var_int b1 (encode_ack_delay f.delay_time)
    num_ranges ← num_encodable_ack_ranges f
    b3 ← write_var_int b2 (sub64 num_ranges 1)
    b4 ← write_var_int b3 (encode_first_range first)
    write_ack_ranges (num_ranges - 1) first rs b4
]

pub length_ack_ranges : ℕ → AckRange → List AckRange → ℕ → Result ℕ
length_ack_ranges zero last rs length = ok length
length_ack_ranges (suc n) last [] length = err panic
length_ack_ranges (suc n) last (r ∷ rs) length = do
  len ← range_len last r
  length_ack_ranges n r rs (length + len)

unfoldable pub length_ack_frame : AckFrame → Result ℕ
length_ack_frame f = elim f.ack_ranges [
  | [] ↦ err panic
  | first ∷ rs ↦ do
    num_ranges ← num_encodable_ack_ranges f
    n1 ← var_int_len first.largest
    n2 ← var_int_len (encode_ack_delay f.delay_time)
    n3 ← var_int_len (sub64 num_ranges 1)
    n4 ← var_int_len (sub64 first.largest first.smallest)
    length_ack_ranges (num_ranges - 1) first rs (1 + n1 + n2 + n3 + n4)
]
