-- ===== src/Utils/VarInt/RoundTrip.antt =====
-- internal/utils/varint.go: what `WriteVarInt` writes, `ReadVarInt` reads back.
use gt_bbr.Prelude.{
  ℕ, ◌+◌, ◌*◌, ◌/◌, ◌%◌, ◌^◌, ◌≤◌, ◌<◌, ◌≡◌, refl, List, [], ◌∷◌, ◌++◌, leb, if◌then◌else◌, bit_and,
  arith, length, ◌↔◌,
}
use gt_bbr.Prelude.Bits.{and-c0, and-3f, or-40, or-80, or-c0}
use gt_bbr.Prelude.Reader.{ok, err, panic}
use gt_bbr.Utils.VarInt.{
  max_var_int1, max_var_int2, max_var_int4, max_var_int8, u8, u64, shl64, read_var_int,
  write_var_int, var_int_len,
}

-- The encoding as plain arithmetic, for the integers that have one.
pub var_int : ℕ → List ℕ
var_int i =
    if leb i max_var_int1
    then i ∷ []
    else if leb i max_var_int2
    then (i / 2 ^ 8 + 0x40) ∷ i % 256 ∷ []
    else if leb i max_var_int4
    then (i / 2 ^ 24 + 0x80) ∷ u8 (i / 2 ^ 16) ∷ u8 (i / 2 ^ 8) ∷ u8 i ∷ []
    else (i / 2 ^ 56 + 0xc0)
      ∷ u8 (i / 2 ^ 48)
      ∷ u8 (i / 2 ^ 40)
      ∷ u8 (i / 2 ^ 32)
      ∷ u8 (i / 2 ^ 24)
      ∷ u8 (i / 2 ^ 16)
      ∷ u8 (i / 2 ^ 8)
      ∷ u8 i
      ∷ []

pub length_var_int : ℕ → ℕ
length_var_int i =
    if leb i max_var_int1
    then 1
    else if leb i max_var_int2
    then 2
    else if leb i max_var_int4
    then 4
    else 8

pub length_var_int-zero : length_var_int 0 ≡ 1
unfolding length_var_int
length_var_int-zero = refl

pub write_var_int-var_int :
    (b : List ℕ) (i : ℕ) → i ≤ max_var_int8 → write_var_int b i ≡ ok (b ++ var_int i)
unfolding write_var_int var_int
write_var_int-var_int b i h =
    ground (arith, or-40 (i / 2 ^ 8), or-80 (i / 2 ^ 24), or-c0 (i / 2 ^ 56))

pub first_byte :
    (b q v : ℕ)
    → b < 256
    → b ≡ q * 64 + v
    → v < 64
    → (bit_and b 0xc0 / 2 ^ 6 ≡ q) × (bit_and b 0x3f ≡ v)
first_byte b q v h e k = omega (arith, and-c0 b h, and-3f b h)

pub read1 : (b v : ℕ) (rest : List ℕ) → b ≡ v → v < 64 → read_var_int (b ∷ rest) ≡ ok (v, rest)
unfolding read_var_int
read1 b v rest e h = let (p, q) = first_byte b 0 v (omega arith) (omega arith) h in rw (p, q)

read2 :
    (b v b2 : ℕ) (rest : List ℕ)
    → b ≡ v + 0x40
    → v < 64
    → read_var_int (b ∷ b2 ∷ rest) ≡ ok (u64 (b2 + shl64 v 8), rest)
unfolding read_var_int
read2 b v b2 rest e h = let (p, q) = first_byte b 1 v (omega arith) (omega arith) h in rw (p, q)

read4 :
    (b v b2 b3 b4 : ℕ) (rest : List ℕ)
    → b ≡ v + 0x80
    → v < 64
    → read_var_int (b ∷ b2 ∷ b3 ∷ b4 ∷ rest)
      ≡ ok (u64 (b4 + shl64 b3 8 + shl64 b2 16 + shl64 v 24), rest)
unfolding read_var_int
read4 b v b2 b3 b4 rest e h =
    let (p, q) = first_byte b 2 v (omega arith) (omega arith) h in rw (p, q)

read8 :
    (b v b2 b3 b4 b5 b6 b7 b8 : ℕ) (rest : List ℕ)
    → b ≡ v + 0xc0
    → v < 64
    → read_var_int (b ∷ b2 ∷ b3 ∷ b4 ∷ b5 ∷ b6 ∷ b7 ∷ b8 ∷ rest)
      ≡ ok (
        u64 (
            b8
            + shl64 b7 8
            + shl64 b6 16
            + shl64 b5 24
            + shl64 b4 32
            + shl64 b3 40
            + shl64 b2 48
            + shl64 v 56),
        rest,
      )
unfolding read_var_int
read8 b v b2 b3 b4 b5 b6 b7 b8 rest e h =
    let (p, q) = first_byte b 3 v (omega arith) (omega arith) h in rw (p, q)

join2 : (i : ℕ) → i ≤ max_var_int2 → u64 (i % 256 + shl64 (i / 2 ^ 8) 8) ≡ i
join2 i h = omega arith

join4 :
    (i : ℕ)
    → i ≤ max_var_int4
    → u64 (u8 i + shl64 (u8 (i / 2 ^ 8)) 8 + shl64 (u8 (i / 2 ^ 16)) 16 + shl64 (i / 2 ^ 24) 24) ≡ i
join4 i h = omega arith

join8 :
    (i : ℕ)
    → i ≤ max_var_int8
    → u64 (
        u8 i
        + shl64 (u8 (i / 2 ^ 8)) 8
        + shl64 (u8 (i / 2 ^ 16)) 16
        + shl64 (u8 (i / 2 ^ 24)) 24
        + shl64 (u8 (i / 2 ^ 32)) 32
        + shl64 (u8 (i / 2 ^ 40)) 40
        + shl64 (u8 (i / 2 ^ 48)) 48
        + shl64 (i / 2 ^ 56) 56)
      ≡ i
join8 i h = omega arith

-- What was written is read back, whatever follows it.
pub read_var_int-var_int :
    (i : ℕ) (rest : List ℕ) → i ≤ max_var_int8 → read_var_int (var_int i ++ rest) ≡ ok (i, rest)
unfolding var_int
read_var_int-var_int i rest h = ground (
  arith,
  read1 i i rest,
  read2 (i / 2 ^ 8 + 0x40) (i / 2 ^ 8) (i % 256) rest,
  join2 i,
  read4 (i / 2 ^ 24 + 0x80) (i / 2 ^ 24) (u8 (i / 2 ^ 16)) (u8 (i / 2 ^ 8)) (u8 i) rest,
  join4 i,
  read8 (i / 2 ^ 56 + 0xc0) (i / 2 ^ 56) (u8 (i / 2 ^ 48)) (u8 (i / 2 ^ 40)) (u8 (i / 2 ^ 32))
      (u8 (i / 2 ^ 24)) (u8 (i / 2 ^ 16)) (u8 (i / 2 ^ 8)) (u8 i) rest,
  join8 i,
)

pub length-var_int : (i : ℕ) → length (var_int i) ≡ length_var_int i
unfolding var_int length_var_int
length-var_int i = ground arith

pub var_int_pos : (i : ℕ) → 1 ≤ length (var_int i)
unfolding var_int
var_int_pos i = ground arith

pub length-var_int-le : (i : ℕ) → length (var_int i) ≤ 8
unfolding var_int
length-var_int-le i = ground arith

pub length-var_int-le2 : (i : ℕ) → i ≤ max_var_int2 → length (var_int i) ≤ 2
unfolding var_int
length-var_int-le2 i h = ground arith

pub var_int_len-length : (i : ℕ) → i ≤ max_var_int8 → var_int_len i ≡ ok (length_var_int i)
unfolding var_int_len length_var_int
var_int_len-length i h = ground arith

-- Whatever integer of 62 bits `WriteVarInt` is given, it appends some bytes to the buffer and
-- leaves the rest of it alone; `VarIntLen` counts these bytes, and `ReadVarInt` reads the integer
-- back from them and leaves what follows them.
pub var_int_round_trip :
    (b : List ℕ) (i : ℕ) (rest : List ℕ)
    → i ≤ max_var_int8
    → (bytes : List ℕ) × (write_var_int b i ≡ ok (b ++ bytes))
      × (var_int_len i ≡ ok (length bytes))
      × (read_var_int (bytes ++ rest) ≡ ok (i, rest))
var_int_round_trip b i rest h = (
  var_int i,
  write_var_int-var_int b i h,
  rw (length-var_int i) (var_int_len-length i h),
  read_var_int-var_int i rest h,
)

-- On an integer above 2 ^ 62 - 1, and on no other, `WriteVarInt` and `VarIntLen` panic.
pub var_int_panics :
    (b : List ℕ) (i : ℕ)
    → ((write_var_int b i ≡ err panic) ↔ (max_var_int8 < i))
      × ((var_int_len i ≡ err panic) ↔ (max_var_int8 < i))
unfolding write_var_int var_int_len
var_int_panics b i = ground arith
