-- ===== src/Prelude/Bits.antt =====
-- Masks on one byte as arithmetic: two functions on a small range are compared by evaluation.
use Prim.Native.Nat.{bit_and, bit_or}
use jocasta.Prelude.{
  ℕ, zero, suc, ◌+◌, ◌*◌, ◌/◌, ◌<◌, ◌≡◌, refl, Bool, true, false, ◌==◌, if◌then◌else◌, arith,
}

module _ (f g : ℕ → ℕ) where
  -- Whether the functions have the same value at each number below the bound.
  same_below : ℕ → Bool
  same_below zero = true
  same_below (suc k) = let rest = same_below k in if f k == g k then rest else false

  eq_of_same_below : (k : ℕ) → same_below k ≡ true → (b : ℕ) → b < k → f b ≡ g b
  unfolding same_below
  eq_of_same_below zero same b h = absurd (omega arith)
  eq_of_same_below (suc k) same b h = ground (arith, eq_of_same_below k (ground arith) b)

pub top_bit : (b : ℕ) → b < 256 → bit_and b 0x80 ≡ b / 128 * 128
unfolding same_below
top_bit = eq_of_same_below _ _ 256 refl

pub set_top_bit : (b : ℕ) → b < 128 → bit_or b 0x80 ≡ b + 128
unfolding same_below
set_top_bit = eq_of_same_below _ _ 128 refl
