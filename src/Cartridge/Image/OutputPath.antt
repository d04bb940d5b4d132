-- ===== src/Cartridge/Image/OutputPath.antt =====
-- Which path a created or conversion image is taken to have.
use bladerunner.Prelude.{
  All, Bool-cases, List, Option, Text, [], ap, has_suffix, inl, inr, none, refl, reverse, some,
  split_lines, to_lower, to_lower_byte, true, ◌++◌, ◌∙◌, ◌∷◌, ◌≡◌, ◌⊎◌,
}
use mathlib.Core.List.{reverse-append}
use bladerunner.Cartridge.Image.{
  created_path, or_next, first_created, with_extension, created_or, resolve_output_path,
}
use bladerunner.Cartridge.Image.CreatedPath.{
  Names, NamesNothing, Told, created_path-Told, has_prefix-append,
}

has_suffix-append : (s e : Text) → has_suffix (s ++ e) e ≡ true
unfolding has_suffix
has_suffix-append s e = (rw (reverse-append s e) (has_prefix-append (reverse e) (reverse s)))

to_lower-append : (s e : Text) → to_lower (s ++ e) ≡ to_lower s ++ to_lower e
unfolding to_lower
to_lower-append [] e = refl
to_lower-append (c ∷ s) e = ap (◌∷◌ (to_lower_byte c)) (to_lower-append s e)

added-suffix :
    (requested want : Text)
    → to_lower want ≡ want
    → has_suffix (to_lower (requested ++ want)) want ≡ true
added-suffix requested want low =
    ap (λ (s : Text). has_suffix s want)
      (to_lower-append requested want ∙ ap (◌++◌ (to_lower requested)) low)
    ∙ has_suffix-append (to_lower requested) want

with_extension-suffix :
    (requested want : Text)
    → to_lower want ≡ want
    → has_suffix (to_lower (with_extension requested want)) want ≡ true
unfolding with_extension
with_extension-suffix requested want low =
    elim (Bool-cases (has_suffix (to_lower requested) want)) [
      | inl has ↦ (rw has has)
      | inr lacks ↦ (rw lacks (added-suffix requested want low))
    ]

with_extension-kept :
    (requested want : Text)
    → (with_extension requested want ≡ requested)
      ⊎ (with_extension requested want ≡ requested ++ want)
unfolding with_extension
with_extension-kept requested want = elim (Bool-cases (has_suffix (to_lower requested) want)) [
  | inl has ↦ inl (rw has refl)
  | inr lacks ↦ inr (rw lacks refl)
]

-- The first of the lines that names a path names `p`.
abbrev pub FirstNamed : List Text → Text → Type 0
FirstNamed lines p =
    (before : List Text) × (line : Text) × (after : List Text) × (lines ≡ before ++ (line ∷ after))
    × All NamesNothing before
    × Names line p

Found : List Text → Option Text → Type 0
Found lines none = All NamesNothing lines
Found lines (some p) = FirstNamed lines p

Found-later :
    (line : Text) (lines : List Text) (o : Option Text)
    → NamesNothing line
    → Found lines o
    → Found (line ∷ lines) o
unfolding Found
Found-later line lines none h k = (h, k)
Found-later line lines (some p) h (before, found, after, e, all, named) =
    (line ∷ before, found, after, ap (◌∷◌ line) e, (h, all), named)

or_next-Found :
    (line : Text) (lines : List Text) (o next : Option Text)
    → Told line o
    → Found lines next
    → Found (line ∷ lines) (or_next o next)
unfolding Found Told or_next
or_next-Found line lines none next h k = Found-later line lines next h k
or_next-Found line lines (some p) next h k = ([], line, lines, refl, tt, h)

first_created-Found : (lines : List Text) → Found lines (first_created lines)
unfolding first_created Found
first_created-Found [] = tt
first_created-Found (line ∷ lines) =
    or_next-Found line lines (created_path line) (first_created lines) (created_path-Told line)
      (first_created-Found lines)

-- Where a path that hdiutil names is not taken, the requested one has the extension.
abbrev pub IsOutputPath : List Text → Text → Text → Text → Type 0
IsOutputPath lines requested want p =
    FirstNamed lines p
    ⊎ (All NamesNothing lines
        × ((p ≡ requested) ⊎ (p ≡ requested ++ want))
        × (has_suffix (to_lower p) want ≡ true))

created_or-IsOutputPath :
    (lines : List Text) (requested want : Text) (o : Option Text)
    → to_lower want ≡ want
    → Found lines o
    → IsOutputPath lines requested want (created_or requested want o)
unfolding created_or Found
created_or-IsOutputPath lines requested want none low h =
    inr (h, with_extension-kept requested want, with_extension-suffix requested want low)
created_or-IsOutputPath lines requested want (some p) low h = inl h

-- The path of an image, for an extension without capitals. If a line of hdiutil's output has a
-- `created:`, in any case of letters, with more than white space behind the first one, the path is
-- what stands there in the first such line, trimmed. If no line does, it is the requested path, with
-- the extension added or not, which ends in the extension up to case.
pub resolve_output_path-IsOutputPath :
    (stdout requested want : Text)
    → to_lower want ≡ want
    → IsOutputPath (split_lines stdout) requested want (resolve_output_path stdout requested want)
unfolding resolve_output_path
resolve_output_path-IsOutputPath stdout requested want low =
    created_or-IsOutputPath (split_lines stdout) requested want (first_created (split_lines stdout))
      low (first_created-Found (split_lines stdout))
