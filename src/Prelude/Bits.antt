-- ===== src/Prelude/Bits.antt =====
-- Masks on one byte in plain arithmetic. Each law is a table of at most 256 entries.
use Prim.Native.Nat.{ℕ, zero, suc, ◌+◌, ◌*◌, ◌/◌, ◌%◌, ◌<◌, bit_and, bit_or}
use mathlib.Core.Path.{◌≡◌, refl}
use mathlib.Core.Bool.{Bool, true, false}
use mathlib.Core.Logic.{ite}
use native.Mathlib.Decide.{ℕ_discrete}
use native.Mathlib.Omega.{arith}

module _ (f g : ℕ → ℕ) where
  agree : ℕ → Bool
  unfolding ℕ_discrete
  agree zero = true
  agree (suc n) = ite (ℕ_discrete (f n) (g n)) (agree n) false

  eq_of_agree : (n : ℕ) → agree n ≡ true → (b : ℕ) → b < n → f b ≡ g b
  unfolding agree
  eq_of_agree zero e b h = absurd (omega arith)
  eq_of_agree (suc n) e b h = ground (arith, eq_of_agree n (ground arith) b)

-- The two bits that hold the length of a variable-length integer, and the six below them.
pub and-c0 : (b : ℕ) → b < 256 → bit_and b 0xc0 ≡ b / 64 * 64
unfolding agree
and-c0 = eq_of_agree _ _ 256 refl

pub and-3f : (b : ℕ) → b < 256 → bit_and b 0x3f ≡ b % 64
unfolding agree
and-3f = eq_of_agree _ _ 256 refl

pub or-40 : (b : ℕ) → b < 64 → bit_or b 0x40 ≡ b + 0x40
unfolding agree
or-40 = eq_of_agree _ _ 64 refl

pub or-80 : (b : ℕ) → b < 64 → bit_or b 0x80 ≡ b + 0x80
unfolding agree
or-80 = eq_of_agree _ _ 64 refl

pub or-c0 : (b : ℕ) → b < 64 → bit_or b 0xc0 ≡ b + 0xc0
unfolding agree
or-c0 = eq_of_agree _ _ 64 refl
