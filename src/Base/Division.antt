-- ===== src/Base/Division.antt =====
-- How many blocks of a given length a piece has, and where they lie.
use Prim.Native.Nat.{ℕ, zero, suc, ◌+◌, ◌-◌, ◌*◌, ◌/◌, ◌≤◌, ◌<◌}
use native.Mathlib.Nat.{le-div_iff_mul-le, div-le_of_le-mul}
use native.Mathlib.Omega.{arith}

sum-le-mul : (a b : ℕ) → 0 < a → 0 < b → a + b - 1 ≤ b * a
sum-le-mul zero b p q = absurd (omega arith)
sum-le-mul (suc a) zero p q = absurd (omega arith)
sum-le-mul (suc a) (suc b) p q = omega arith

module _ (len block : ℕ) (pos : 0 < block) where
  -- At least one byte needs at least one block.
  pub ceil_pos : 0 < len → 0 < (len + block - 1) / block
  ceil_pos h = (le-div_iff_mul-le pos).1 (omega arith)

  -- Every block but the last is full, and the last has a byte.
  pub ceil_block_start : (i : ℕ) → i < (len + block - 1) / block → i * block < len
  ceil_block_start i h =
      omega (arith, (le-div_iff_mul-le {x = suc i} {y = len + block - 1} pos).0 h)

  -- The block that holds a byte of the piece is one of its blocks.
  pub ceil_block_of : (offset : ℕ) → offset < len → offset / block < (len + block - 1) / block
  ceil_block_of offset h =
      let base = (le-div_iff_mul-le {x = offset / block} {y = offset} pos).0 (omega arith) in
      (le-div_iff_mul-le {x = suc (offset / block)} pos).1 (omega (arith, base))

  pub ceil-le : 0 < len → (len + block - 1) / block ≤ len
  ceil-le h = div-le_of_le-mul block (sum-le-mul len block h pos)
