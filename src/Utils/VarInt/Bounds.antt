-- ===== src/Utils/VarInt/Bounds.antt =====
-- internal/utils/varint.go: `ReadVarInt` on any input, well formed or not.
use gt_bbr.Prelude.{
  ℕ, ◌+◌, ◌/◌, ◌%◌, ◌^◌, ◌≤◌, ◌<◌, ◌≡◌, refl, List, [], ◌∷◌, subst, ◌⊎◌, inl, inr, bit_and, arith,
  length, All, IsByte,
}
use gt_bbr.Prelude.Reader.{Result, ok, err, eof}
use gt_bbr.Utils.VarInt.{max_var_int8, read_var_int}
use gt_bbr.Utils.VarInt.RoundTrip.{first_byte, read1}

-- A successful read is of an integer of 62 bits, and takes between 1 and 8 bytes; the only error
-- is that the input ends.
abbrev Fits : List ℕ → Result (ℕ × List ℕ) → Type 0
Fits src (ok (i, rest)) =
    (i ≤ max_var_int8) × (length rest < length src) × (length src ≤ length rest + 8)
Fits src (err e) = e ≡ eof

module _ (b : ℕ) (hb : b < 256) where
  top_bits : (q : ℕ) → b / 64 ≡ q → (bit_and b 0xc0 / 2 ^ 6 ≡ q) × (bit_and b 0x3f ≡ b % 64)
  top_bits q e = first_byte b q (b % 64) hb (omega arith) (omega arith)

  Fits1 : (r : List ℕ) → b / 64 ≡ 0 → Fits (b ∷ r) (read_var_int (b ∷ r))
  Fits1 r q = rw (read1 b (b % 64) r (omega arith) (omega arith)) (omega arith)

  Fits2 : (r : List ℕ) → b / 64 ≡ 1 → All IsByte r → Fits (b ∷ r) (read_var_int (b ∷ r))
  unfolding read_var_int
  Fits2 [] q hs = rw ((top_bits 1 q).0)
  Fits2 (b2 ∷ r) q hs = rw ((top_bits 1 q).0, (top_bits 1 q).1) (omega arith)

  Fits4 : (r : List ℕ) → b / 64 ≡ 2 → All IsByte r → Fits (b ∷ r) (read_var_int (b ∷ r))
  unfolding read_var_int
  Fits4 [] q hs = rw ((top_bits 2 q).0)
  Fits4 (b2 ∷ []) q hs = rw ((top_bits 2 q).0)
  Fits4 (b2 ∷ b3 ∷ []) q hs = rw ((top_bits 2 q).0)
  Fits4 (b2 ∷ b3 ∷ b4 ∷ r) q hs = rw ((top_bits 2 q).0, (top_bits 2 q).1) (omega arith)

  Fits8 : (r : List ℕ) → b / 64 ≡ 3 → All IsByte r → Fits (b ∷ r) (read_var_int (b ∷ r))
  unfolding read_var_int
  Fits8 [] q hs = rw ((top_bits 3 q).0)
  Fits8 (b2 ∷ []) q hs = rw ((top_bits 3 q).0)
  Fits8 (b2 ∷ b3 ∷ []) q hs = rw ((top_bits 3 q).0)
  Fits8 (b2 ∷ b3 ∷ b4 ∷ []) q hs = rw ((top_bits 3 q).0)
  Fits8 (b2 ∷ b3 ∷ b4 ∷ b5 ∷ []) q hs = rw ((top_bits 3 q).0)
  Fits8 (b2 ∷ b3 ∷ b4 ∷ b5 ∷ b6 ∷ []) q hs = rw ((top_bits 3 q).0)
  Fits8 (b2 ∷ b3 ∷ b4 ∷ b5 ∷ b6 ∷ b7 ∷ []) q hs = rw ((top_bits 3 q).0)
  Fits8 (b2 ∷ b3 ∷ b4 ∷ b5 ∷ b6 ∷ b7 ∷ b8 ∷ r) q hs =
      rw ((top_bits 3 q).0, (top_bits 3 q).1) (omega arith)

quarter : (b : ℕ) → b < 256 → (b / 64 ≡ 0) ⊎ (b / 64 ≡ 1) ⊎ (b / 64 ≡ 2) ⊎ (b / 64 ≡ 3)
quarter b h = omega arith

read_var_int-Fits : (src : List ℕ) → All IsByte src → Fits src (read_var_int src)
read_var_int-Fits [] h = unfold read_var_int in refl
read_var_int-Fits (b ∷ r) (hb, hs) = elim (quarter b hb) [
  | inl q ↦ Fits1 b hb r q
  | inr (inl q) ↦ Fits2 b hb r q hs
  | inr (inr (inl q)) ↦ Fits4 b hb r q hs
  | inr (inr (inr q)) ↦ Fits8 b hb r q hs
]

-- On any bytes at all, a `ReadVarInt` that succeeds returns an integer below 2 ^ 62 and has taken
-- at least 1 and at most 8 bytes.
pub read_var_int_bounds :
    (src : List ℕ) (i : ℕ) (rest : List ℕ)
    → All IsByte src
    → read_var_int src ≡ ok (i, rest)
    → (i ≤ max_var_int8) × (length rest < length src) × (length src ≤ length rest + 8)
read_var_int_bounds src i rest hs e = subst (Fits src) e (read_var_int-Fits src hs)
