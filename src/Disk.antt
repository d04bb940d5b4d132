-- ===== src/Disk.antt =====
-- internal/disk/manifest.go: disk manifests and their checks. A Go map is an association list with
-- distinct keys; `range` over a map visits it in an unspecified order, here the list's.
pub mod Name
pub mod WellFormed
pub mod Apply
pub mod Catalog
pub mod Tests
use bladerunner.Prelude.{
  &&-eq-true, ==_iff, ==_refl, >>-eq-ok, >>=-eq-ok, All, All-append, AtLeast, AtMost, Bool,
  Bool-cases, Check, List, Option, Option-cases, Result, String, Text, [], ap, append-nil,
  append_assoc, arith, codes, contains, cut_byte, cut_prefix, drop, drop-length-append, err,
  fail_if, fail_if-eq-ok, false, fun_ext, get_elem?, has_prefix, has_suffix, if◌then◌else◌, inl,
  inr, int_eq, int_eq_iff, int_gt, int_gt_iff, int_lt, int_lt_iff, is_empty, is_ok, is_space, leb,
  length, length-append, length-drop, length-take, ltb, map, map_err, min, negsuc, none, not, ok,
  pos, refl, replicate, reverse, some, subst, suc, sym, take, take-length-append, text_eq,
  text_eq_iff, text_eq_refl, to_lower, to_lower_byte, trim_left, trim_right, trim_space, true, zero,
  ||-eq-false, ℕ, ℤ, ◌%◌, ◌&&◌, ◌*◌, ◌++◌, ◌+◌, ◌-◌, ◌/◌, ◌<◌, ◌==◌, ◌>>=◌, ◌>>◌, ◌^◌, ◌||◌, ◌↔◌,
  ◌∙◌, ◌∷◌, ◌≡◌, ◌≢◌, ◌≤◌, ◌⊎◌,
}
use bladerunner.Disk.Name.{valid_name, valid_sha256}

abbrev pub boot_mode_headless : Text
boot_mode_headless = codes "headless"

abbrev pub boot_mode_gui : Text
boot_mode_gui = codes "gui"

pub record ArchImage : Type 0 where
  pub url : Text
  pub sha256 : Text

pub record ImageSpec : Type 0 where
  pub arches : List (Text × ArchImage)
  pub path : Text
  pub hosted : Bool

pub record VmSpec : Type 0 where
  pub cpus : ℕ
  pub memory_gib : ℕ
  pub disk_size_gib : ℤ

pub record BootSpec : Type 0 where
  pub mode : Text
  pub autologin : Bool

pub record ShareSpec : Type 0 where
  pub tag : Text
  pub read_only : Bool
  pub guest_path : Text

pub record Manifest : Type 0 where
  pub name : Text
  pub description : Text
  pub version : Text
  pub image : ImageSpec
  pub vm : VmSpec
  pub boot : BootSpec
  pub share : Option ShareSpec

pub data DiskError : Type 0 where
  name_required no_image_source many_image_sources : DiskError
  bad_name bad_boot_mode bad_guest_path bad_share_tag : Text → DiskError
  no_arch_url bad_arch_sha256 : Text → DiskError
  -- of ApplyTo
  no_image_for_arch unresolved_host_url : Text → DiskError
  no_resolvable_source : DiskError

-- strings.ContainsAny
unfoldable pub contains_any : Text → Text → Bool
unfolding contains
contains_any [] chars = false
contains_any (c ∷ s) chars = contains chars (c ∷ []) || contains_any s chars

-- `" \t/"`
abbrev pub tag_stops : Text
tag_stops = b' ' ∷ b'\t' ∷ b'/' ∷ []

unfoldable pub validate_share : Option ShareSpec → Check DiskError
unfolding contains_any
validate_share none = ok tt
validate_share (some s) = do
  fail_if (not (is_empty s.guest_path) && not (has_prefix s.guest_path (codes "/")))
      (bad_guest_path s.guest_path)
  fail_if (not (is_empty s.tag) && contains_any s.tag tag_stops) (bad_share_tag s.tag)

abbrev count_source : Bool → ℕ
count_source b = if b then 1 else 0

unfoldable pub sources : ImageSpec → ℕ
sources i =
    count_source i.hosted
    + count_source (not (is_empty i.path))
    + count_source (ltb 0 (length i.arches))

-- The loop over `i.Arches`.
unfoldable pub validate_arches : List (Text × ArchImage) → Check DiskError
validate_arches [] = ok tt
validate_arches ((arch, a) ∷ rest) = do
  fail_if (is_empty a.url) (no_arch_url arch)
  fail_if (not (is_empty a.sha256) && not (valid_sha256 a.sha256)) (bad_arch_sha256 arch)
  validate_arches rest

unfoldable pub validate_image : ImageSpec → Check DiskError
unfolding sources validate_arches
validate_image i = do
  fail_if (sources i == 0) no_image_source
  fail_if (ltb 1 (sources i)) many_image_sources
  validate_arches i.arches

unfoldable pub validate : Manifest → Check DiskError
validate m = do
  fail_if (is_empty m.name) name_required
  fail_if (not (valid_name m.name)) (bad_name m.name)
  fail_if (not (text_eq m.boot.mode boot_mode_headless) && not (text_eq m.boot.mode boot_mode_gui))
      (bad_boot_mode m.boot.mode)
  validate_share m.share
  validate_image m.image
