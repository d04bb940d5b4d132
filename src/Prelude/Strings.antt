-- ===== src/Prelude/Strings.antt =====
-- Go strings as lists of bytes, with what the program uses of package `strings`. White space and
-- case are those of ASCII.
use Prim.Native.Char.{code}
use Prim.Native.String.{String}
use Prim.Native.Nat.{ℕ, ◌+◌}
use mathlib.Core.Path.{◌≡◌, refl, ◌∙◌, ap}
use mathlib.Core.Logic.{◌↔◌, ◌≢◌}
use mathlib.Core.Bool.{Bool, true, false, ◌&&◌, ◌||◌}
use mathlib.Core.Option.{Option, none, some}
use mathlib.Core.List.{List, [], ◌∷◌, ◌++◌, map, reverse}
use native.Mathlib.Omega.{arith}
use bladerunner.Prelude.Tests.{==_iff, leb, ◌==◌, if◌then◌else◌}

abbrev pub Text : Type 0
Text = List ℕ

-- The bytes of an ASCII literal.
abbrev pub codes : String → Text
codes String.[] = []
codes (String.◌∷◌ c s) = code c ∷ codes s

abbrev pub is_empty : Text → Bool
is_empty [] = true
is_empty (_ ∷ _) = false

unfoldable pub text_eq : Text → Text → Bool
text_eq [] [] = true
text_eq (x ∷ xs) (y ∷ ys) = x == y && text_eq xs ys
text_eq _ _ = false

pub text_eq_iff : (a b : Text) → (text_eq a b ≡ true) ↔ (a ≡ b)
unfolding text_eq
text_eq_iff (x ∷ a) (y ∷ b) = ground (arith, text_eq_iff a b)
text_eq_iff _ _ = ground arith

pub text_eq_refl : (a : Text) → text_eq a a ≡ true
text_eq_refl a = (text_eq_iff a a).1 refl

-- strings.CutPrefix
unfoldable pub cut_prefix : Text → Text → Option Text
cut_prefix s [] = some s
cut_prefix [] (_ ∷ _) = none
cut_prefix (x ∷ s) (y ∷ p) = if x == y then cut_prefix s p else none

unfoldable pub has_prefix : Text → Text → Bool
unfolding cut_prefix
has_prefix s p = elim (cut_prefix s p) [ none ↦ false | some _ ↦ true ]

unfoldable pub has_suffix : Text → Text → Bool
unfolding has_prefix
has_suffix s p = has_prefix (reverse s) (reverse p)

unfoldable pub contains : Text → Text → Bool
unfolding has_prefix
contains [] p = is_empty p
contains (c ∷ s) p = has_prefix (c ∷ s) p || contains s p

-- `unicode.IsSpace` on ASCII
abbrev pub is_space : ℕ → Bool
is_space c = c == b' ' || (leb 9 c && leb c 13)

unfoldable pub to_lower_byte : ℕ → ℕ
to_lower_byte c = if leb b'A' c && leb c b'Z' then c + 32 else c

unfoldable pub to_lower : Text → Text
unfolding to_lower_byte
to_lower = map to_lower_byte

-- strings.TrimLeftFunc
unfoldable pub trim_left : (ℕ → Bool) → Text → Text
trim_left f [] = []
trim_left f (c ∷ s) = let rest = trim_left f s in if f c then rest else c ∷ s

-- strings.TrimRightFunc
unfoldable pub trim_right : (ℕ → Bool) → Text → Text
unfolding trim_left
trim_right f s = reverse (trim_left f (reverse s))

unfoldable pub trim_space : Text → Text
unfolding trim_right
trim_space s = trim_right is_space (trim_left is_space s)

-- Where `b` first stands: what is before it and what is behind it.
unfoldable pub cut_byte : ℕ → Text → Option (Text × Text)
cut_byte b [] = none
cut_byte b (c ∷ s) =
    let rest = cut_byte b s in
    if c == b then some ([], s) else elim rest [ none ↦ none | some (u, v) ↦ some (c ∷ u, v) ]

-- strings.Split(s, "\n"), with the line that is being read, reversed
unfoldable pub lines_onto : Text → Text → List Text
lines_onto line [] = reverse line ∷ []
lines_onto line (c ∷ s) =
    let rest = lines_onto [] s in
    let more = lines_onto (c ∷ line) s in if c == 10 then reverse line ∷ rest else more

unfoldable pub split_lines : Text → List Text
unfolding lines_onto
split_lines = lines_onto []

pub text_eq_ne : (a b : Text) → text_eq a b ≡ false → a ≢ b
text_eq_ne a b h = ground (arith, text_eq_iff a b)

pub ne_text_eq : (a b : Text) → a ≢ b → text_eq a b ≡ false
ne_text_eq a b h = ground (arith, text_eq_iff a b)

-- What a prefix leaves.
pub cut_prefix-some : (s p : Text) {rest : Text} → cut_prefix s p ≡ some rest → s ≡ p ++ rest
unfolding cut_prefix
cut_prefix-some s [] h = ground arith
cut_prefix-some [] (y ∷ p) h = cc
cut_prefix-some (x ∷ s) (y ∷ p) {rest} h = go (x == y) refl h (λ k. cut_prefix-some s p k)
  where
    go :
        (t : Bool)
        → (x == y) ≡ t
        → (if t then cut_prefix s p else none) ≡ some rest
        → (cut_prefix s p ≡ some rest → s ≡ p ++ rest)
        → (x ∷ s) ≡ ((y ∷ p) ++ rest)
    go true e k ih = ap (λ c. c ∷ s) ((==_iff x y).0 e) ∙ ap (λ r. y ∷ r) (ih k)
    go false e k ih = cc

pub has_prefix-rest : (s p : Text) → has_prefix s p ≡ true → (rest : Text) × (s ≡ p ++ rest)
unfolding has_prefix
has_prefix-rest s p h = there (cut_prefix s p) refl h
  where
    there :
        (o : Option Text)
        → cut_prefix s p ≡ o
        → (elim o [ none ↦ false | some _ ↦ true ]) ≡ true
        → (rest : Text) × (s ≡ p ++ rest)
    there none e h = cc
    there (some rest) e h = (rest, cut_prefix-some s p e)
