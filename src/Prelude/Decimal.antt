-- ===== src/Prelude/Decimal.antt =====
-- `fmt`'s %d, and strconv.Atoi, on a 64-bit `int`.
use bladerunner.Prelude.Tests.{ltb, leb, ◌==◌, if◌then◌else◌, Bool-cases}
use bladerunner.Prelude.Strings.{Text}
use bladerunner.Prelude.Ints.{ℤ, pos, negsuc}
use bladerunner.Prelude.Lists.{All}
use Prim.Native.Nat.{ℕ, zero, suc, ◌+◌, ◌-◌, ◌*◌, ◌/◌, ◌%◌, ◌^◌, ◌≤◌, ◌<◌}
use mathlib.Core.Path.{◌≡◌, refl, ap, ◌∙◌}
use mathlib.Core.Logic.{inl, inr}
use mathlib.Core.Bool.{Bool, true, false, ◌&&◌}
use mathlib.Core.Option.{Option, none, some}
use mathlib.Core.List.{[], ◌∷◌}
use native.Mathlib.Omega.{arith}

digits_onto : ℕ → ℕ → Text → Text
digits_onto zero n acc = acc
digits_onto (suc fuel) n acc =
    let rest = digits_onto fuel (n / 10) ((48 + n % 10) ∷ acc) in
    if ltb n 10 then (48 + n) ∷ acc else rest

unfoldable pub decimal : ℕ → Text
unfolding digits_onto
decimal n = digits_onto (suc n) n []

unfoldable pub itoa : ℤ → Text
unfolding decimal
itoa (pos n) = decimal n
itoa (negsuc n) = b'-' ∷ decimal (suc n)

-- `none` at a byte that is no digit
unfoldable pub parse_digits : ℕ → Text → Option ℕ
parse_digits acc [] = some acc
parse_digits acc (c ∷ s) =
    let rest = parse_digits (acc * 10 + (c - 48)) s in if leb 48 c && leb c 57 then rest else none

unfoldable pub parse_nat : Text → Option ℕ
unfolding parse_digits
parse_nat [] = none
parse_nat (c ∷ s) = parse_digits 0 (c ∷ s)

-- in the range of int64
unfoldable pub in_int64 : Bool → Option ℕ → Option ℤ
in_int64 negative none = none
in_int64 false (some n) = if ltb n (2 ^ 63) then some (pos n) else none
in_int64 true (some zero) = some (pos 0)
in_int64 true (some (suc n)) = if ltb n (2 ^ 63) then some (negsuc n) else none

unfoldable pub atoi : Text → Option ℤ
unfolding parse_nat in_int64
atoi [] = none
atoi (c ∷ s) =
    if c == b'-'
    then in_int64 true (parse_nat s)
    else if c == b'+'
    then in_int64 false (parse_nat s)
    else in_int64 false (parse_nat (c ∷ s))

abbrev pub IsDigit : ℕ → Type 0
IsDigit c = (48 ≤ c) × (c ≤ 57)

parse_digits-cons :
    (acc d : ℕ) (s : Text)
    → d < 10
    → parse_digits acc ((48 + d) ∷ s) ≡ parse_digits (acc * 10 + d) s
unfolding parse_digits
parse_digits-cons acc d s h = ground (arith, ap (λ (k : ℕ). parse_digits k s) (digit acc d))
  where
    digit : (a e : ℕ) → a * 10 + (48 + e - 48) ≡ a * 10 + e
    digit a e = omega arith

zero_digits : (n : ℕ) → 0 * 10 + n ≡ n
zero_digits n = omega arith

parse-digits_onto :
    (fuel n : ℕ) (acc : Text)
    → n < fuel
    → parse_digits 0 (digits_onto fuel n acc) ≡ parse_digits n acc
unfolding digits_onto
parse-digits_onto zero n acc h = absurd (omega arith)
parse-digits_onto (suc fuel) n acc h = elim (Bool-cases (ltb n 10)) [
  | inl small ↦ rw small (
      parse_digits-cons 0 n acc (ground arith) ∙ ap (λ (k : ℕ). parse_digits k acc) (zero_digits n))
  | inr large ↦ rw large (
      parse-digits_onto fuel (n / 10) _ (ground arith)
      ∙ parse_digits-cons (n / 10) (n % 10) acc (omega arith)
      ∙ ap (λ (k : ℕ). parse_digits k acc) (omega arith))
]

digits_onto-digits :
    (fuel n : ℕ) (acc : Text) → All IsDigit acc → All IsDigit (digits_onto fuel n acc)
unfolding digits_onto
digits_onto-digits zero n acc h = h
digits_onto-digits (suc fuel) n acc h = elim (Bool-cases (ltb n 10)) [
  | inl small ↦ rw small ((ground arith, ground arith), h)
  | inr large ↦ rw large (digits_onto-digits fuel (n / 10) _ ((omega arith, omega arith), h))
]

pub decimal-digits : (n : ℕ) → All IsDigit (decimal n)
unfolding decimal
decimal-digits n = digits_onto-digits (suc n) n [] tt

digits_onto-ne :
    (fuel n d : ℕ) (acc : Text) → (c : ℕ) × (s : Text) × (digits_onto fuel n (d ∷ acc) ≡ c ∷ s)
unfolding digits_onto
digits_onto-ne zero n d acc = (d, acc, refl)
digits_onto-ne (suc fuel) n d acc = elim (Bool-cases (ltb n 10)) [
  | inl small ↦ (48 + n, d ∷ acc, rw small)
  | inr large ↦ rw large (digits_onto-ne fuel (n / 10) (48 + n % 10) (d ∷ acc))
]

-- A printed number has a first digit.
pub decimal-cons : (n : ℕ) → (c : ℕ) × (s : Text) × (decimal n ≡ c ∷ s)
unfolding decimal digits_onto
decimal-cons n = elim (Bool-cases (ltb n 10)) [
  | inl small ↦ (48 + n, [], rw small)
  | inr large ↦ rw large (digits_onto-ne n (n / 10) (48 + n % 10) [])
]

pub parse-decimal : (n : ℕ) → parse_digits 0 (decimal n) ≡ some n
unfolding decimal
parse-decimal n = parse-digits_onto (suc n) n [] (omega arith) ∙ (unfold parse_digits in refl)

atoi_digits :
    (c : ℕ) (s : Text) (n : ℕ)
    → IsDigit c
    → parse_digits 0 (c ∷ s) ≡ some n
    → n < 2 ^ 63
    → atoi (c ∷ s) ≡ some (pos n)
unfolding atoi
atoi_digits c s n d p h =
    let minus : (c == b'-') ≡ false = ground arith in
    let plus : (c == b'+') ≡ false = ground arith in rw minus (rw plus (rw p (below n h)))
  where
    below : (n : ℕ) → n < 2 ^ 63 → (if ltb n (2 ^ 63) then some (pos n) else none) ≡ some (pos n)
    below n h = ground arith

-- What is printed is read back.
pub atoi-decimal : (n : ℕ) → n < 2 ^ 63 → atoi (decimal n) ≡ some (pos n)
atoi-decimal n h =
    let (c, s, e) = decimal-cons n in
    rw e (atoi_digits c s n (rw e at (decimal-digits n)).0 (rw e at (parse-decimal n)) h)
