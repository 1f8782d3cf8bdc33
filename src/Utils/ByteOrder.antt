-- ===== src/Utils/ByteOrder.antt =====
-- internal/utils/byteorder_big_endian.go: 16-bit and 32-bit words, most significant byte first.
use gt_bbr.Prelude.{ℕ, ◌+◌, ◌*◌, ◌/◌, ◌%◌, ◌^◌, ◌<◌, ◌≡◌, refl, List, [], ◌∷◌, ◌++◌, arith}
use gt_bbr.Prelude.Reader.{Result, ok, ◌>>=◌, read_byte}
use gt_bbr.Utils.VarInt.{u8}

abbrev pub u16 : ℕ → ℕ
u16 x = x % 2 ^ 16

abbrev pub u32 : ℕ → ℕ
u32 x = x % 2 ^ 32

pub read_uint16 : List ℕ → Result (ℕ × List ℕ)
read_uint16 src = do
  (b2, r1) ← read_byte src
  (b1, r2) ← read_byte r1
  ok (u16 (b1 + u16 (b2 * 2 ^ 8)), r2)

pub write_uint16 : List ℕ → ℕ → List ℕ
write_uint16 b i = b ++ (u8 (i / 2 ^ 8) ∷ u8 i ∷ [])

pub read_uint32 : List ℕ → Result (ℕ × List ℕ)
read_uint32 src = do
  (b4, r1) ← read_byte src
  (b3, r2) ← read_byte r1
  (b2, r3) ← read_byte r2
  (b1, r4) ← read_byte r3
  ok (u32 (b1 + u32 (b2 * 2 ^ 8) + u32 (b3 * 2 ^ 16) + u32 (b4 * 2 ^ 24)), r4)

pub write_uint32 : List ℕ → ℕ → List ℕ
write_uint32 b i = b ++ (u8 (i / 2 ^ 24) ∷ u8 (i / 2 ^ 16) ∷ u8 (i / 2 ^ 8) ∷ u8 i ∷ [])

-- The bytes of a 16-bit word.
abbrev pub uint16 : ℕ → List ℕ
uint16 i = u8 (i / 2 ^ 8) ∷ u8 i ∷ []

pub write_uint16-uint16 : (b : List ℕ) (i : ℕ) → write_uint16 b i ≡ b ++ uint16 i
unfolding write_uint16
write_uint16-uint16 b i = refl

pub read_uint16-uint16 :
    (i : ℕ) (rest : List ℕ) → i < 2 ^ 16 → read_uint16 (uint16 i ++ rest) ≡ ok (i, rest)
unfolding read_uint16
read_uint16-uint16 i rest h = ground arith

pub read_uint32-write_uint32 :
    (i : ℕ) (rest : List ℕ) → i < 2 ^ 32 → read_uint32 (write_uint32 [] i ++ rest) ≡ ok (i, rest)
unfolding read_uint32 write_uint32
read_uint32-write_uint32 i rest h = ground arith
