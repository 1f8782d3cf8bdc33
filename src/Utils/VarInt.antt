-- ===== src/Utils/VarInt.antt =====
-- internal/utils/varint.go: QUIC's variable-length integers.
pub mod RoundTrip
pub mod Bounds
use gt_bbr.Prelude.{
  ℕ, ◌+◌, ◌-◌, ◌*◌, ◌/◌, ◌%◌, ◌^◌, ◌≡◌, refl, List, [], ◌∷◌, ◌++◌, ◌==◌, leb, if◌then◌else◌,
  bit_and, bit_or,
}
use gt_bbr.Prelude.Reader.{Result, ok, err, panic, ◌>>=◌, read_byte}

abbrev pub max_var_int1 : ℕ
max_var_int1 = 63

abbrev pub max_var_int2 : ℕ
max_var_int2 = 16383

abbrev pub max_var_int4 : ℕ
max_var_int4 = 1073741823

abbrev pub max_var_int8 : ℕ
max_var_int8 = 4611686018427387903

-- `uint8(x)`, and `uint64(x) << k`.
abbrev pub u8 : ℕ → ℕ
u8 x = x % 256

abbrev pub shl64 : ℕ → ℕ → ℕ
shl64 x k = x * 2 ^ k % 2 ^ 64

-- Sums modulo 2 ^ 64 are reduced once, at the end.
abbrev pub u64 : ℕ → ℕ
u64 x = x % 2 ^ 64

unfoldable pub read_var_int : List ℕ → Result (ℕ × List ℕ)
read_var_int src = do
  (first_byte, r1) ← read_byte src
  let len = 2 ^ (bit_and first_byte 0xc0 / 2 ^ 6)
  let b1 = bit_and first_byte (0xff - 0xc0)
  if len == 1 then ok (b1, r1) else do
    (b2, r2) ← read_byte r1
    if len == 2 then ok (u64 (b2 + shl64 b1 8), r2) else do
      (b3, r3) ← read_byte r2
      (b4, r4) ← read_byte r3
      if len == 4 then ok (u64 (b4 + shl64 b3 8 + shl64 b2 16 + shl64 b1 24), r4) else do
        (b5, r5) ← read_byte r4
        (b6, r6) ← read_byte r5
        (b7, r7) ← read_byte r6
        (b8, r8) ← read_byte r7
        ok (
          u64 (
              b8
              + shl64 b7 8
              + shl64 b6 16
              + shl64 b5 24
              + shl64 b4 32
              + shl64 b3 40
              + shl64 b2 48
              + shl64 b1 56),
          r8,
        )

-- The bytes that `WriteVarInt` appends to the buffer.
abbrev pub var_int2 : ℕ → List ℕ
var_int2 i = bit_or (u8 (i / 2 ^ 8)) 0x40 ∷ u8 i ∷ []

abbrev pub var_int4 : ℕ → List ℕ
var_int4 i = bit_or (u8 (i / 2 ^ 24)) 0x80 ∷ u8 (i / 2 ^ 16) ∷ u8 (i / 2 ^ 8) ∷ u8 i ∷ []

abbrev pub var_int8 : ℕ → List ℕ
var_int8 i =
    bit_or (u8 (i / 2 ^ 56)) 0xc0
    ∷ u8 (i / 2 ^ 48)
    ∷ u8 (i / 2 ^ 40)
    ∷ u8 (i / 2 ^ 32)
    ∷ u8 (i / 2 ^ 24)
    ∷ u8 (i / 2 ^ 16)
    ∷ u8 (i / 2 ^ 8)
    ∷ u8 i
    ∷ []

unfoldable pub write_var_int : List ℕ → ℕ → Result (List ℕ)
write_var_int b i =
    if leb i max_var_int1
    then ok (b ++ (u8 i ∷ []))
    else if leb i max_var_int2
    then ok (b ++ var_int2 i)
    else if leb i max_var_int4
    then ok (b ++ var_int4 i)
    else if leb i max_var_int8
    then ok (b ++ var_int8 i)
    else err panic

unfoldable pub var_int_len : ℕ → Result ℕ
var_int_len i =
    if leb i max_var_int1
    then ok 1
    else if leb i max_var_int2
    then ok 2
    else if leb i max_var_int4
    then ok 4
    else if leb i max_var_int8
    then ok 8
    else err panic
