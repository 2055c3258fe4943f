-- ===== src/Prelude/Int.antt =====
-- Integers, their order, and their two's complement in `k` bytes.
use Prim.Native.Nat.{ℕ, suc, ◌-◌, ◌*◌, ◌^◌, ◌≤◌, ◌<◌}
use mathlib.Core.Path.{◌≡◌}
use mathlib.Core.Bool.{Bool, true, false}
use native.Mathlib.Omega.{arith}
use matternode.Prelude.Tests.{ltb, leb, ◌==◌, if◌then◌else◌}

-- `negsuc n` is -(n + 1).
pub data ℤ : Type 0 where
  pos : ℕ → ℤ
  negsuc : ℕ → ℤ

-- a <= b
abbrev pub leq : ℤ → ℤ → Bool
leq (pos a) (pos b) = leb a b
leq (pos a) (negsuc b) = false
leq (negsuc a) (pos b) = true
leq (negsuc a) (negsuc b) = leb b a

-- a === b
abbrev pub same : ℤ → ℤ → Bool
same (pos a) (pos b) = a == b
same (negsuc a) (negsuc b) = a == b
same _ _ = false

abbrev pub is_negative : ℤ → Bool
is_negative (pos n) = false
is_negative (negsuc n) = true

-- The word that a signed value of the width is written as, and the value of a word.
abbrev pub to_word : ℕ → ℤ → ℕ
to_word k (pos n) = n
to_word k (negsuc n) = 256 ^ k - suc n

abbrev pub of_word : ℕ → ℕ → ℤ
of_word k w = if ltb (2 * w) (256 ^ k) then pos w else negsuc (256 ^ k - suc w)

-- What `k` bytes hold.
abbrev pub FitsSigned : ℕ → ℤ → Type 0
FitsSigned k (pos n) = 2 * n < 256 ^ k
FitsSigned k (negsuc n) = 2 * suc n ≤ 256 ^ k

pub of_word-to_word : (k : ℕ) (z : ℤ) → FitsSigned k z → of_word k (to_word k z) ≡ z
of_word-to_word k (pos n) h = ground arith
of_word-to_word k (negsuc n) h = ground arith

pub to_word-lt : (k : ℕ) (z : ℤ) → FitsSigned k z → to_word k z < 256 ^ k
to_word-lt k (pos n) h = omega arith
to_word-lt k (negsuc n) h = omega arith
