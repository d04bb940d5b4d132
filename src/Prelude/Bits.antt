-- ===== src/Prelude/Bits.antt =====
-- Go's `|` of words whose bits do not meet, and its `&` with a mask of low bits.
use Prim.Native.Nat.{
  ℕ, zero, suc, ◌+◌, ◌*◌, ◌/◌, ◌%◌, ◌^◌, ◌≤◌, ◌<◌, min, max, bit_and, bit_or, digits,
  bit_and-bitwise, bit_or-bitwise,
}
use mathlib.Core.Path.{◌≡◌, refl, ◌∙◌}
use native.Mathlib.Omega.{arith}

abbrev or_on : ℕ → ℕ → ℕ → ℕ
or_on n x f = digits (λ b. b) max n x f

or_on-zero : (n x : ℕ) → x ≤ n → or_on n x 0 ≡ x
or_on-zero zero zero h = refl
or_on-zero (suc n) zero h = refl
or_on-zero zero (suc x) h = absurd (omega arith)
or_on-zero (suc n) (suc x) h = omega (arith, or_on-zero n (suc x / 2) (omega arith))

double_power : (a k : ℕ) → a * 2 ^ suc k ≡ 2 * (a * 2 ^ k)
double_power a k = grind arith

or_on-disjoint : (k n x a f : ℕ) → x ≡ a * 2 ^ k → f < 2 ^ k → x ≤ n → or_on n x f ≡ x + f
or_on-disjoint zero n x a zero e l h = omega (arith, or_on-zero n x h)
or_on-disjoint zero n x a (suc f) e l h = absurd (omega arith)
or_on-disjoint (suc k) zero zero a f e l h = omega arith
or_on-disjoint (suc k) (suc n) zero a f e l h = omega arith
or_on-disjoint (suc k) zero (suc x) a f e l h = absurd (omega arith)
or_on-disjoint (suc k) (suc n) (suc x) a f e l h =
    let half : suc x / 2 ≡ a * 2 ^ k = omega (arith, double_power a k) in
    omega (
      arith,
      double_power a k,
      or_on-disjoint k n (suc x / 2) a (f / 2) half (omega (arith, double_power 1 k)) (omega arith),
    )

pub bit_or_disjoint : (k a f : ℕ) → f < 2 ^ k → bit_or (a * 2 ^ k) f ≡ a * 2 ^ k + f
bit_or_disjoint k a f h =
    bit_or-bitwise (a * 2 ^ k) f ∙ or_on-disjoint k (a * 2 ^ k) (a * 2 ^ k) a f refl h (omega arith)

abbrev and_on : ℕ → ℕ → ℕ → ℕ
and_on n x m = digits (λ b. zero) min n x m

and_on-zero : (n x : ℕ) → x ≤ n → and_on n x 0 ≡ 0
and_on-zero zero x h = refl
and_on-zero (suc n) zero h = refl
and_on-zero (suc n) (suc x) h = omega (arith, and_on-zero n (suc x / 2) (omega arith))

and_on-seven : (n x : ℕ) → x ≤ n → and_on n x 7 ≡ x % 8
and_on-seven zero x h = omega arith
and_on-seven (suc n) zero h = refl
and_on-seven (suc n) (suc x) h = omega (arith, and_on-three n (suc x / 2) (omega arith))
  where
    and_on-one : (n x : ℕ) → x ≤ n → and_on n x 1 ≡ x % 2
    and_on-one zero x h = omega arith
    and_on-one (suc n) zero h = refl
    and_on-one (suc n) (suc x) h = omega (arith, and_on-zero n (suc x / 2) (omega arith))

    and_on-three : (n x : ℕ) → x ≤ n → and_on n x 3 ≡ x % 4
    and_on-three zero x h = omega arith
    and_on-three (suc n) zero h = refl
    and_on-three (suc n) (suc x) h = omega (arith, and_on-one n (suc x / 2) (omega arith))

pub bit_and_seven : (x : ℕ) → bit_and x 7 ≡ x % 8
bit_and_seven x = bit_and-bitwise x 7 ∙ and_on-seven x x (omega arith)
