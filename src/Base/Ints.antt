-- ===== src/Base/Ints.antt =====
-- The signed integers that the program orders by: priorities.
use Prim.Native.Nat.{ℕ, suc, ◌+◌, ◌≤◌}
use mathlib.Core.Bool.{Bool}
use geo_nexus_sdk.Base.Tests.{leb, eqb}

-- `negsuc n` is -(n + 1).
pub data ℤ : Type 0 where
  pos : ℕ → ℤ
  negsuc : ℕ → ℤ

abbrev pub pos_part : ℤ → ℕ
pos_part (pos n) = n
pos_part (negsuc n) = 0

abbrev pub neg_part : ℤ → ℕ
neg_part (pos n) = 0
neg_part (negsuc n) = suc n

infix 50 ◌≤ℤ◌
abbrev pub ◌≤ℤ◌ : ℤ → ℤ → Type 0
a ≤ℤ b = pos_part a + neg_part b ≤ pos_part b + neg_part a

abbrev pub leb_int : ℤ → ℤ → Bool
leb_int a b = leb (pos_part a + neg_part b) (pos_part b + neg_part a)

abbrev pub eqb_int : ℤ → ℤ → Bool
eqb_int a b = eqb (pos_part a + neg_part b) (pos_part b + neg_part a)
