-- ===== src/Wire/StreamFrame/RoundTrip.antt =====
-- internal/wire/stream_frame.go: a STREAM frame that was written is parsed back.
use gt_bbr.Prelude.{
  ℕ, ◌+◌, ◌≤◌, ◌<◌, ◌≡◌, refl, ap, List, [], ◌∷◌, ◌++◌, length, arith, ◌==◌, if◌then◌else◌, Bool,
  true, false, ltb, not, ◌&&◌, append-nil, ◌⊎◌, bit_and, sym,
}
use gt_bbr.Prelude.Reader.{ok, fits_append}
use gt_bbr.Utils.VarInt.{max_var_int8, u64}
use gt_bbr.Utils.VarInt.RoundTrip.{
  var_int, write_var_int-var_int, read_var_int-var_int, var_int_len-length, length-var_int,
}
use gt_bbr.Wire.Codec.{RoundTrips, writing, measuring, reading}
use gt_bbr.Wire.CryptoFrame.RoundTrip.{read_payload-append}
use gt_bbr.Wire.StreamFrame.{
  StreamFrame, max_byte_count, read_offset, read_data_len, parse_stream_frame, stream_type_byte,
  write_if, write_stream_frame, var_int_len_if, length_stream_frame,
}

-- The bytes of an integer that is written only if a flag is set.
pub var_int_if : Bool → ℕ → List ℕ
var_int_if c i = if c then var_int i else []

write_if-var_int_if :
    (c : Bool) (b : List ℕ) (i : ℕ) → i ≤ max_var_int8 → write_if c b i ≡ ok (b ++ var_int_if c i)
unfolding write_if var_int_if
write_if-var_int_if true b i h = write_var_int-var_int b i h
write_if-var_int_if false b i h = ap ok (sym (append-nil b))

var_int_len_if-length :
    (c : Bool) (i : ℕ) → i ≤ max_var_int8 → var_int_len_if c i ≡ ok (length (var_int_if c i))
unfolding var_int_len_if var_int_if
var_int_len_if-length true i h = simp (var_int_len-length, length-var_int, h)
var_int_len_if-length false i h = refl

read_offset-var_int_if :
    (i : ℕ) (r : List ℕ)
    → i ≤ max_var_int8
    → read_offset (not (i == 0)) (var_int_if (not (i == 0)) i ++ r) ≡ ok (i, r)
unfolding read_offset var_int_if
read_offset-var_int_if i r h = ground (arith, read_var_int-var_int i r)

-- A frame with no length takes up the rest of the packet.
read_data_len-var_int_if :
    (c : Bool) (xs r : List ℕ)
    → length xs ≤ max_var_int8
    → (c ≡ false → r ≡ [])
    → read_data_len c (var_int_if c (length xs) ++ (xs ++ r)) ≡ ok (length xs, xs ++ r)
unfolding read_data_len var_int_if
read_data_len-var_int_if true xs r h e = simp (read_var_int-var_int, h, fits_append)
read_data_len-var_int_if false xs r h e = rw (e refl, append-nil)

-- The three flags are read back from the type byte.
type_byte_bits :
    (fin present has_offset : Bool)
    → let b = stream_type_byte fin present has_offset in
      (ltb 0 (bit_and b 0x4) ≡ has_offset)
      × (ltb 0 (bit_and b 0x1) ≡ fin)
      × (ltb 0 (bit_and b 0x2) ≡ present)
unfolding stream_type_byte
type_byte_bits true true true = (refl, refl, refl)
type_byte_bits true true false = (refl, refl, refl)
type_byte_bits true false true = (refl, refl, refl)
type_byte_bits true false false = (refl, refl, refl)
type_byte_bits false true true = (refl, refl, refl)
type_byte_bits false true false = (refl, refl, refl)
type_byte_bits false false true = (refl, refl, refl)
type_byte_bits false false false = (refl, refl, refl)

abbrev pub type_byte : StreamFrame → ℕ
type_byte f = stream_type_byte f.fin_bit f.data_len_present (not (f.offset == 0))

-- The bytes of a frame behind its type byte.
stream_body : StreamFrame → List ℕ
stream_body f =
    var_int f.stream_id
    ++ (var_int_if (not (f.offset == 0)) f.offset
        ++ (var_int_if f.data_len_present (length f.payload) ++ f.payload))

not_empty :
    (f : StreamFrame)
    → (f.fin_bit ≡ true) ⊎ (0 < length f.payload)
    → (length f.payload == 0 && not f.fin_bit) ≡ false
not_empty f h = ground arith

module _ (f : StreamFrame) (sid : f.stream_id ≤ max_var_int8)
    (small : f.offset + length f.payload ≤ max_byte_count) where
  off : f.offset ≤ max_var_int8
  off = omega arith

  len : length f.payload ≤ max_var_int8
  len = omega arith

  no_overflow : ltb max_byte_count (u64 (f.offset + length f.payload)) ≡ false
  no_overflow = ground arith

  write_stream_frame_lem :
      (b : List ℕ)
      → (f.fin_bit ≡ true) ⊎ (0 < length f.payload)
      → write_stream_frame b f ≡ ok (b ++ (type_byte f ∷ stream_body f))
  unfolding write_stream_frame stream_body
  write_stream_frame_lem b h = simp (writing, write_if-var_int_if, not_empty f h, sid, off, len)

  length_stream_frame_lem : length_stream_frame f ≡ ok (1 + length (stream_body f))
  unfolding length_stream_frame stream_body
  length_stream_frame_lem = simp (measuring, var_int_len_if-length, sid, off, len) (ground arith)

  parse_stream_frame_lem :
      (rest : List ℕ)
      → (f.data_len_present ≡ false → rest ≡ [])
      → parse_stream_frame (type_byte f ∷ (stream_body f ++ rest)) ≡ ok (f, rest)
  unfolding parse_stream_frame stream_body
  parse_stream_frame_lem rest h =
      let bits = type_byte_bits f.fin_bit f.data_len_present (not (f.offset == 0)) in
      rw (bits.0, bits.1, bits.2)
        (simp (
          reading, read_offset-var_int_if, read_data_len-var_int_if, read_payload-append,
          no_overflow, sid, off, len, h,
        ))

-- A STREAM frame that is not empty or has the FIN bit, whose stream ID is of 62 bits and whose data
-- end below the maximum offset, is written, its length is what `Length` says, and it is parsed back,
-- with its flags. If it has no length field it must end the packet.
pub stream_frame_round_trip :
    (f : StreamFrame) (b rest : List ℕ)
    → f.stream_id ≤ max_var_int8
    → f.offset + length f.payload ≤ max_byte_count
    → (f.fin_bit ≡ true) ⊎ (0 < length f.payload)
    → (f.data_len_present ≡ false → rest ≡ [])
    → RoundTrips f b rest
        (stream_type_byte f.fin_bit f.data_len_present (not (f.offset == 0)))
        (write_stream_frame b f)
        (length_stream_frame f)
        parse_stream_frame
stream_frame_round_trip f b rest sid small h e = (
  stream_body f,
  write_stream_frame_lem f sid small b h,
  length_stream_frame_lem f sid small,
  parse_stream_frame_lem f sid small rest e,
)
