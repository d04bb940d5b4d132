-- ===== src/Disk/WellFormed.antt =====
-- What the checks of a manifest amount to (internal/disk/manifest.go).
use bladerunner.Prelude.{
  &&-eq-true, ==_iff, >>-eq-ok, All, Bool, Bool-cases, List, Option, Text, [], arith, codes,
  fail_if-eq-ok, false, has_prefix, inl, inr, is_empty, length, ltb, none, not, ok, refl, some,
  text_eq, text_eq_iff, true, ℕ, ◌&&◌, ◌==◌, ◌↔◌, ◌∷◌, ◌≡◌, ◌≢◌, ◌≤◌, ◌⊎◌,
}
use bladerunner.Disk.{
  Manifest, ImageSpec, ArchImage, ShareSpec, boot_mode_headless, boot_mode_gui, tag_stops,
  contains_any, validate_share, sources, validate_arches, validate_image, validate,
}
use bladerunner.Disk.Name.{
  is_name_start, is_name_byte, all_bytes, valid_name, is_hex_byte, valid_sha256,
}

-- Lowercase letters and digits.
abbrev pub IsAlnum : ℕ → Type 0
IsAlnum c = ((97 ≤ c) × (c ≤ 122)) ⊎ ((48 ≤ c) × (c ≤ 57))

-- A name is a letter or digit, followed by letters, digits and dashes.
abbrev pub IsDiskName : Text → Type 0
IsDiskName [] = ⊥
IsDiskName (c ∷ s) = IsAlnum c × All (λ d. IsAlnum d ⊎ (d ≡ 45)) s

abbrev pub IsHexDigit : ℕ → Type 0
IsHexDigit c = ((48 ≤ c) × (c ≤ 57)) ⊎ ((97 ≤ c) × (c ≤ 102))

abbrev pub IsSha256 : Text → Type 0
IsSha256 s = (length s ≡ 64) × All IsHexDigit s

is_name_start_iff : (c : ℕ) → (is_name_start c ≡ true) ↔ IsAlnum c
unfolding is_name_start
is_name_start_iff c = (λ h. ground arith, λ h. ground arith)

is_name_byte_iff : (c : ℕ) → (is_name_byte c ≡ true) ↔ (IsAlnum c ⊎ (c ≡ 45))
unfolding is_name_byte
is_name_byte_iff c = (λ h. ground arith, λ h. ground arith)

is_hex_byte_iff : (c : ℕ) → (is_hex_byte c ≡ true) ↔ IsHexDigit c
unfolding is_hex_byte
is_hex_byte_iff c = (λ h. ground arith, λ h. ground arith)

pub all_bytes_iff :
    (p : ℕ → Bool) (P : ℕ → Type 0)
    → ((c : ℕ) → (p c ≡ true) ↔ P c)
    → (s : Text) → (all_bytes p s ≡ true) ↔ All P s
unfolding all_bytes
all_bytes_iff p P e [] = (λ h. tt, λ h. refl)
all_bytes_iff p P e (c ∷ s) = (
  λ h. let (a, b) = &&-eq-true (p c) (all_bytes p s) h in ((e c).0 a, (all_bytes_iff p P e s).0 b),
  λ h. rw ((e c).1 h.0) ((all_bytes_iff p P e s).1 h.1),
)

-- `ValidName` decides the language of names.
pub valid_name_iff : (s : Text) → (valid_name s ≡ true) ↔ IsDiskName s
unfolding valid_name
valid_name_iff [] = (λ h. cc, λ h. absurd h)
valid_name_iff (c ∷ s) = (
  λ h.
      let (a, b) = &&-eq-true (is_name_start c) (all_bytes is_name_byte s) h in
      ((is_name_start_iff c).0 a, (all_bytes_iff is_name_byte _ is_name_byte_iff s).0 b),
  λ h. rw ((is_name_start_iff c).1 h.0) ((all_bytes_iff is_name_byte _ is_name_byte_iff s).1 h.1),
)

pub valid_sha256_iff : (s : Text) → (valid_sha256 s ≡ true) ↔ IsSha256 s
unfolding valid_sha256
valid_sha256_iff s = (
  λ h.
      let (a, b) = &&-eq-true (length s == 64) (all_bytes is_hex_byte s) h in
      ((==_iff _ _).0 a, (all_bytes_iff is_hex_byte IsHexDigit is_hex_byte_iff s).0 b),
  λ h. rw ((==_iff _ _).1 h.0) ((all_bytes_iff is_hex_byte IsHexDigit is_hex_byte_iff s).1 h.1),
)

-- An artifact has a URL, and no digest or a SHA-256 digest.
abbrev pub IsArtifact : Text × ArchImage → Type 0
IsArtifact (arch, a) = (a.url ≢ []) × ((a.sha256 ≡ []) ⊎ IsSha256 a.sha256)

-- Exactly one image source.
pub data Source (i : ImageSpec) : Type 0 where
  hosted : i.hosted ≡ true → i.path ≡ [] → i.arches ≡ [] → Source i
  local_path : i.hosted ≡ false → i.path ≢ [] → i.arches ≡ [] → Source i
  per_arch : i.hosted ≡ false → i.path ≡ [] → i.arches ≢ [] → All IsArtifact i.arches → Source i

abbrev pub ShareIsSound : Option ShareSpec → Type 0
ShareIsSound none = Unit
ShareIsSound (some s) =
    ((s.guest_path ≡ []) ⊎ (has_prefix s.guest_path (codes "/") ≡ true))
    × ((s.tag ≡ []) ⊎ (contains_any s.tag tag_stops ≡ false))

pub record IsWellFormed (m : Manifest) : Type 0 where
  pub name : IsDiskName m.name
  pub mode : (m.boot.mode ≡ boot_mode_headless) ⊎ (m.boot.mode ≡ boot_mode_gui)
  pub share : ShareIsSound m.share
  pub source : Source m.image

IsArtifact-sound :
    (k : Text) (a : ArchImage)
    → is_empty a.url ≡ false
    → (not (is_empty a.sha256) && not (valid_sha256 a.sha256)) ≡ false
    → IsArtifact (k, a)
IsArtifact-sound k a h g = (
  ground arith,
  elim (Bool-cases (valid_sha256 a.sha256)) [
    | inl v ↦ inr ((valid_sha256_iff a.sha256).0 v)
    | inr v ↦ inl (ground arith)
  ],
)

validate_arches_sound : (l : List (Text × ArchImage)) → validate_arches l ≡ ok tt → All IsArtifact l
unfolding validate_arches
validate_arches_sound [] h = tt
validate_arches_sound ((k, a) ∷ l) h =
    let (u, h₁) = fail_if-eq-ok (is_empty a.url) _ _ h in
    let (s, h₂) = fail_if-eq-ok (not (is_empty a.sha256) && not (valid_sha256 a.sha256)) _ _ h₁ in
    (IsArtifact-sound k a u s, validate_arches_sound l h₂)

one-Source :
    (i : ImageSpec)
    → (sources i == 0) ≡ false
    → ltb 1 (sources i) ≡ false
    → All IsArtifact i.arches
    → Source i
unfolding sources
one-Source i h g a = grind (arith, hosted, local_path, per_arch)

Source-counts : (i : ImageSpec) → Source i → (sources i ≡ 1) × All IsArtifact i.arches
unfolding sources
Source-counts i (hosted h p a) = (ground arith, rw a tt)
Source-counts i (local_path h p a) = (ground arith, rw a tt)
Source-counts i (per_arch h p a l) = (ground arith, l)

validate_arches_complete :
    (l : List (Text × ArchImage)) → All IsArtifact l → validate_arches l ≡ ok tt
unfolding validate_arches
validate_arches_complete [] h = refl
validate_arches_complete ((k, a) ∷ l) (h, t) =
    ground (arith, valid_sha256_iff a.sha256, validate_arches_complete l t)

validate_image_iff : (i : ImageSpec) → (validate_image i ≡ ok tt) ↔ Source i
unfolding validate_image
validate_image_iff i = (
  λ h.
      let (z, h₁) = fail_if-eq-ok (sources i == 0) _ _ h in
      let (o, h₂) = fail_if-eq-ok (ltb 1 (sources i)) _ _ h₁ in
      one-Source i z o (validate_arches_sound i.arches h₂),
  λ s. let (n, l) = Source-counts i s in rw n (validate_arches_complete i.arches l),
)

validate_share_iff : (s : Option ShareSpec) → (validate_share s ≡ ok tt) ↔ ShareIsSound s
unfolding validate_share
validate_share_iff none = (λ h. tt, λ h. refl)
validate_share_iff (some s) = (λ h. ground arith, λ h. ground arith)

abbrev KnownMode : Text → Type 0
KnownMode t = (t ≡ boot_mode_headless) ⊎ (t ≡ boot_mode_gui)

KnownMode-iff :
    (t : Text)
    → ((not (text_eq t boot_mode_headless) && not (text_eq t boot_mode_gui)) ≡ false) ↔ KnownMode t
KnownMode-iff t = (
  λ h. ground (arith, text_eq_iff t boot_mode_headless, text_eq_iff t boot_mode_gui),
  λ h. ground (arith, text_eq_iff t boot_mode_headless, text_eq_iff t boot_mode_gui),
)

validate_sound : (m : Manifest) → validate m ≡ ok tt → IsWellFormed m
unfolding validate
validate_sound m h =
    let (e, h₁) = fail_if-eq-ok (is_empty m.name) _ _ h in
    let (n, h₂) = fail_if-eq-ok (not (valid_name m.name)) _ _ h₁ in
    let (b, h₃) = fail_if-eq-ok _ _ _ h₂ in
    let (s, h₄) = >>-eq-ok (validate_share m.share) _ h₃ in
    record {
      name = (valid_name_iff m.name).0 (ground arith);
      mode = (KnownMode-iff m.boot.mode).0 b;
      share = (validate_share_iff m.share).0 s;
      source = (validate_image_iff m.image).0 h₄;
    }

name_ne_nil : (t : Text) → IsDiskName t → is_empty t ≡ false
name_ne_nil [] h = absurd h
name_ne_nil (c ∷ t) h = refl

validate_complete : (m : Manifest) → IsWellFormed m → validate m ≡ ok tt
unfolding validate
validate_complete m w = rw (name_ne_nil m.name w.name) (
    rw ((valid_name_iff m.name).1 w.name) (
      rw ((KnownMode-iff m.boot.mode).1 w.mode)
        (rw ((validate_share_iff m.share).1 w.share) ((validate_image_iff m.image).1 w.source))))

-- `Validate` accepts exactly the manifests with a legal name and mode, a sound share, and one image
-- source whose artifacts are well formed.
pub validate-IsWellFormed : (m : Manifest) → (validate m ≡ ok tt) ↔ IsWellFormed m
validate-IsWellFormed m = (validate_sound m, validate_complete m)
