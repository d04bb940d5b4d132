-- ===== src/Boot/Resolve.antt =====
-- A boot argument that is a URL always yields a manifest that can be booted, or no name at all.
use bladerunner.Prelude.{
  All, All-append, Bool, Option, Text, [], ap, arith, codes, contains, err, false, inl, inr, length,
  map, ok, refl, reverse, some, suc, text_eq_refl, to_lower, trim_left, trim_right, true, zero, ℕ,
  ◌++◌, ◌<◌, ◌∙◌, ◌∷◌, ◌≡◌, ◌≢◌, ◌≤◌, ◌⊎◌,
}
use mathlib.Core.List.{reverse-append}
use bladerunner.Disk.{Manifest, validate}
use bladerunner.Disk.Catalog.{Catalog}
use bladerunner.Disk.WellFormed.{per_arch, validate-IsWellFormed}
use bladerunner.Disk.Apply.{lookup_arch}
use bladerunner.Boot.{classify, url_target, synthesized, resolve_url, resolve, no_name_in_url}
use bladerunner.Disk.Name.{is_name_start}
use bladerunner.Disk.WellFormed.{IsAlnum, IsDiskName}
use bladerunner.Boot.SlotName.{
  sanitize_byte, halve_dashes, has_double_dash, collapse_dashes, is_dash, trim_extensions,
  path_base, slot_name_from_url,
}

-- Each round of the loop removes a byte.
length-halve_dashes : (s : Text) → length (halve_dashes s) ≤ length s
unfolding halve_dashes
length-halve_dashes [] = omega arith
length-halve_dashes (c ∷ []) = omega arith
length-halve_dashes (c ∷ d ∷ s) = ground (arith, length-halve_dashes s, length-halve_dashes (d ∷ s))

halve_dashes_shortens : (s : Text) → has_double_dash s ≡ true → length (halve_dashes s) < length s
unfolding halve_dashes has_double_dash
halve_dashes_shortens [] h = cc
halve_dashes_shortens (c ∷ []) h = cc
halve_dashes_shortens (c ∷ d ∷ s) h =
    ground (arith, length-halve_dashes s, halve_dashes_shortens (d ∷ s))

-- With the length of the text, or more, as fuel, no double dash is left.
pub collapse_dashes_done :
    (fuel : ℕ) (s : Text) → length s ≤ fuel → has_double_dash (collapse_dashes fuel s) ≡ false
unfolding collapse_dashes
collapse_dashes_done zero [] h = refl
collapse_dashes_done zero (c ∷ s) h = absurd (omega arith)
collapse_dashes_done (suc fuel) s h =
    ground (arith, halve_dashes_shortens s, collapse_dashes_done fuel (halve_dashes s))

-- Letters, digits and dashes.
abbrev NameBytes : Text → Type 0
NameBytes = All (λ c. IsAlnum c ⊎ (c ≡ 45))

sanitize_byte-name : (c : ℕ) → IsAlnum (sanitize_byte c) ⊎ (sanitize_byte c ≡ 45)
unfolding sanitize_byte is_name_start
sanitize_byte-name c = ground arith

map-sanitize_byte : (s : Text) → NameBytes (map sanitize_byte s)
map-sanitize_byte [] = tt
map-sanitize_byte (c ∷ s) = (sanitize_byte-name c, map-sanitize_byte s)

halve_dashes-names : (s : Text) → NameBytes s → NameBytes (halve_dashes s)
unfolding halve_dashes
halve_dashes-names [] h = tt
halve_dashes-names (c ∷ []) h = h
halve_dashes-names (c ∷ d ∷ s) h = ground (arith, halve_dashes-names s, halve_dashes-names (d ∷ s))

collapse_dashes-names : (fuel : ℕ) (s : Text) → NameBytes s → NameBytes (collapse_dashes fuel s)
unfolding collapse_dashes
collapse_dashes-names zero s h = h
collapse_dashes-names (suc fuel) s h =
    ground (arith, collapse_dashes-names fuel (halve_dashes s), halve_dashes-names s)

reverse-cons : (c : ℕ) (s : Text) → reverse (c ∷ s) ≡ reverse s ++ (c ∷ [])
reverse-cons c s = reverse-append (c ∷ []) s

reverse-names : (s : Text) → NameBytes s → NameBytes (reverse s)
reverse-names [] h = tt
reverse-names (c ∷ s) h =
    rw (reverse-cons c s)
      (All-append (λ b. IsAlnum b ⊎ (b ≡ 45)) (reverse s) (c ∷ []) (reverse-names s h.1) (h.0, tt))

trim_left-names : (f : ℕ → Bool) (s : Text) → NameBytes s → NameBytes (trim_left f s)
unfolding trim_left
trim_left-names f [] h = tt
trim_left-names f (c ∷ s) h = ground (arith, trim_left-names f s)

trim_right-names : (f : ℕ → Bool) (s : Text) → NameBytes s → NameBytes (trim_right f s)
unfolding trim_right
trim_right-names f s h = reverse-names _ (trim_left-names f (reverse s) (reverse-names s h))

trim_left_last :
    (f : ℕ → Bool) (s : Text) (c : ℕ)
    → f c ≡ false
    → trim_left f (s ++ (c ∷ [])) ≡ trim_left f s ++ (c ∷ [])
unfolding trim_left
trim_left_last f [] c h = rw h
trim_left_last f (b ∷ s) c h = ground (arith, trim_left_last f s c h)

-- Trimming on the right leaves a first byte that is to stay.
trim_right_head :
    (f : ℕ → Bool) (c : ℕ) (s : Text) → f c ≡ false → trim_right f (c ∷ s) ≡ c ∷ trim_right f s
unfolding trim_right
trim_right_head f c s h =
    ap (λ (t : Text). reverse (trim_left f t)) (reverse-cons c s)
    ∙ ap reverse (trim_left_last f (reverse s) c h)
    ∙ reverse-append (trim_left f (reverse s)) (c ∷ [])

abbrev StartsKept : Text → Type 0
StartsKept [] = Unit
StartsKept (c ∷ s) = is_dash c ≡ false

trim_left_starts : (s : Text) → StartsKept (trim_left is_dash s)
unfolding trim_left
trim_left_starts [] = tt
trim_left_starts (c ∷ s) = ground (arith, trim_left_starts s)

trimmed_name :
    (s : Text)
    → NameBytes s
    → StartsKept s
    → (trim_right is_dash s ≡ []) ⊎ IsDiskName (trim_right is_dash s)
trimmed_name [] h k = inl (unfold trim_right trim_left in refl)
trimmed_name (c ∷ s) h k =
    inr (rw (trim_right_head is_dash c s k) (ground arith, trim_right-names is_dash s h.1))

-- The name derived from a URL is empty or a legal disk name.
pub slot_name_from_url-IsDiskName :
    (u : Text) → (slot_name_from_url u ≡ []) ⊎ IsDiskName (slot_name_from_url u)
unfolding slot_name_from_url
slot_name_from_url-IsDiskName u =
    trimmed_name _
      (trim_left-names is_dash _
        (collapse_dashes-names _ _ (map-sanitize_byte (trim_extensions (to_lower (path_base u))))))
      (trim_left_starts _)

contains_ne_nil : (s : Text) → contains s (codes "://") ≡ true → s ≢ []
unfolding contains
contains_ne_nil s h = ground arith

url_target_ne_nil :
    (arg : Text) (file_exists : Text → Bool) → classify arg file_exists ≡ url_target → arg ≢ []
unfolding classify
url_target_ne_nil arg file_exists h = ground (arith, contains_ne_nil arg)

-- The one-off disk of a URL: it is valid, and its one image is that URL.
abbrev pub IsOneOff : Text → Text → Manifest → Type 0
IsOneOff goarch arg m =
    (validate m ≡ ok tt)
    × (lookup_arch goarch m.image.arches ≡ some (record { url = arg; sha256 = [] }))

synthesized-IsOneOff :
    (goarch name arg : Text)
    → IsDiskName name
    → arg ≢ []
    → IsOneOff goarch arg (synthesized goarch name arg)
unfolding synthesized
synthesized-IsOneOff goarch name arg n ne = (
  (validate-IsWellFormed _).1 (record {
    name = n;
    mode = inl refl;
    share = tt;
    source = per_arch refl refl (λ e. cc) ((ne, inl refl), tt);
  }),
  unfold lookup_arch in rw (text_eq_refl goarch),
)

-- The branch of `resolveBootManifest` for an invalid synthesized disk is never taken: a URL gives a
-- valid one-off disk for that URL, or the refusal that no name could be derived.
pub resolve_url_target :
    (goarch : Text) (load : Text → Option Manifest) (cat : Catalog) (arg : Text)
    (file_exists : Text → Bool)
    → classify arg file_exists ≡ url_target
    → (resolve goarch load cat url_target arg ≡ err (no_name_in_url arg))
      ⊎ ((m : Manifest) × (resolve goarch load cat url_target arg ≡ ok m) × IsOneOff goarch arg m)
unfolding resolve
resolve_url_target goarch load cat arg file_exists h = elim (slot_name_from_url-IsDiskName arg) [
  | inl e ↦ inl (rw e refl)
  | inr n ↦
      let m = synthesized goarch (slot_name_from_url arg) arg in
      let o =
        synthesized-IsOneOff goarch (slot_name_from_url arg) arg n
          (url_target_ne_nil arg file_exists h) in
      inr (m, named (slot_name_from_url arg) n o.0, o)
]
  where
    named :
        (name : Text)
        → IsDiskName name
        → validate (synthesized goarch name arg) ≡ ok tt
        → resolve_url goarch arg name ≡ ok (synthesized goarch name arg)
    named [] n v = absurd n
    named (c ∷ name) n v = rw v refl
