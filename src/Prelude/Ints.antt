-- ===== src/Prelude/Ints.antt =====
-- Go's `int` as an integer. The program compares it with constants and with other `int`s.
use bladerunner.Prelude.Tests.{ltb, ◌==◌}
use Prim.Native.Nat.{ℕ, ◌≤◌}
use mathlib.Core.Path.{◌≡◌}
use mathlib.Core.Logic.{◌↔◌}
use mathlib.Core.Bool.{Bool, true, false}
use native.Mathlib.Omega.{arith}

-- `negsuc n` is -(n + 1).
pub data ℤ : Type 0 where
  pos : ℕ → ℤ
  negsuc : ℕ → ℤ

-- `z < n`
abbrev pub int_lt : ℤ → ℕ → Bool
int_lt (pos a) n = ltb a n
int_lt (negsuc a) n = true

-- `z > n`
abbrev pub int_gt : ℤ → ℕ → Bool
int_gt (pos a) n = ltb n a
int_gt (negsuc a) n = false

abbrev pub int_eq : ℤ → ℤ → Bool
int_eq (pos a) (pos b) = a == b
int_eq (negsuc a) (negsuc b) = a == b
int_eq _ _ = false

abbrev pub AtLeast : ℕ → ℤ → Type 0
AtLeast n (pos a) = n ≤ a
AtLeast n (negsuc a) = ⊥

abbrev pub AtMost : ℕ → ℤ → Type 0
AtMost n (pos a) = a ≤ n
AtMost n (negsuc a) = Unit

pub int_eq_iff : (a b : ℤ) → (int_eq a b ≡ true) ↔ (a ≡ b)
int_eq_iff (pos a) (pos b) = ground arith
int_eq_iff _ _ = ground arith

pub int_lt_iff : (z : ℤ) (n : ℕ) → (int_lt z n ≡ false) ↔ AtLeast n z
int_lt_iff (pos a) n = ground arith
int_lt_iff (negsuc a) n = ground arith

pub int_gt_iff : (z : ℤ) (n : ℕ) → (int_gt z n ≡ false) ↔ AtMost n z
int_gt_iff (pos a) n = ground arith
int_gt_iff (negsuc a) n = ground arith
