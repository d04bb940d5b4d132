-- ===== src/Boot/SlotName.antt =====
-- `slotNameFromURL` and `collapseDashes` (cmd/bladerunner/boot.go).
use bladerunner.Prelude.{
  Bool, Text, [], codes, cut_prefix, false, if◌then◌else◌, is_empty, length, map, none, refl,
  reverse, some, suc, to_lower, trim_left, trim_right, true, zero, ℕ, ◌&&◌, ◌==◌, ◌||◌, ◌∷◌, ◌≡◌,
}
use bladerunner.Disk.Name.{is_name_start}

-- What is behind the last slash, from the reversed text.
unfoldable pub take_base : Text → Text
take_base [] = []
take_base (c ∷ s) = let rest = c ∷ take_base s in if c == b'/' then [] else rest

-- path.Base
unfoldable pub path_base : Text → Text
unfolding take_base
path_base [] = codes "."
path_base (c ∷ s) =
    let trimmed = trim_left (λ b. b == b'/') (reverse (c ∷ s)) in
    if is_empty trimmed then codes "/" else reverse (take_base trimmed)

-- strings.TrimSuffix
unfoldable pub trim_suffix : Text → Text → Text
trim_suffix s suffix = elim (cut_prefix (reverse s) (reverse suffix)) [
  | none ↦ s
  | some rest ↦ reverse rest
]

unfoldable pub trim_extensions : Text → Text
unfolding trim_suffix
trim_extensions s =
    trim_suffix
      (trim_suffix (trim_suffix (trim_suffix s (codes ".qcow2")) (codes ".img")) (codes ".raw"))
      (codes ".disk")

-- The `switch` of the loop over the runes.
unfoldable pub sanitize_byte : ℕ → ℕ
sanitize_byte c = if is_name_start c then c else b'-'

-- strings.ReplaceAll(s, "--", "-")
unfoldable pub halve_dashes : Text → Text
halve_dashes [] = []
halve_dashes (c ∷ []) = c ∷ []
halve_dashes (c ∷ d ∷ s) = elim (c == b'-' && d == b'-') [
  | true ↦ b'-' ∷ halve_dashes s
  | false ↦ c ∷ halve_dashes (d ∷ s)
]

-- strings.Contains(s, "--")
unfoldable pub has_double_dash : Text → Bool
has_double_dash [] = false
has_double_dash (c ∷ []) = false
has_double_dash (c ∷ d ∷ s) = (c == b'-' && d == b'-') || has_double_dash (d ∷ s)

-- The loop, with fuel: each round shortens the text.
unfoldable pub collapse_dashes : ℕ → Text → Text
unfolding halve_dashes has_double_dash
collapse_dashes zero s = s
collapse_dashes (suc fuel) s = elim (has_double_dash s) [
  | true ↦ collapse_dashes fuel (halve_dashes s)
  | false ↦ s
]

abbrev pub is_dash : ℕ → Bool
is_dash c = c == b'-'

unfoldable pub slot_name_from_url : Text → Text
unfolding path_base trim_extensions sanitize_byte collapse_dashes is_name_start
slot_name_from_url rawurl =
    let b = map sanitize_byte (trim_extensions (to_lower (path_base rawurl))) in
    trim_right is_dash (trim_left is_dash (collapse_dashes (length b) b))

tests :
    (slot_name_from_url (codes "https://x.io/a/Debian_13--arm64.qcow2") ≡ codes "debian-13-arm64")
    × (slot_name_from_url (codes "https://x.io/---") ≡ [])
unfolding slot_name_from_url to_lower trim_left trim_right cut_prefix
tests = (refl, refl)
