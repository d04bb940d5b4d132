-- ===== src/Disk/Apply.antt =====
-- `(*Manifest).ApplyTo` (internal/disk/apply.go): a manifest laid over a configuration as defaults.
pub mod Outcome
pub mod Runnable
use bladerunner.Prelude.{
  &&-eq-true, ==_iff, ==_refl, >>-eq-ok, >>=-eq-ok, All, All-append, AtLeast, AtMost, Bool,
  Bool-cases, Check, List, Option, Option-cases, Result, String, Text, [], ap, append-nil,
  append_assoc, arith, codes, contains, cut_byte, cut_prefix, drop, drop-length-append, err,
  fail_if, fail_if-eq-ok, false, fun_ext, get_elem?, has_prefix, has_suffix, if◌then◌else◌, inl,
  inr, int_eq, int_eq_iff, int_gt, int_gt_iff, int_lt, int_lt_iff, is_empty, is_ok, is_space, leb,
  length, length-append, length-drop, length-take, ltb, map, map_err, min, negsuc, none, not, ok,
  pos, refl, replicate, reverse, some, subst, suc, sym, take, take-length-append, text_eq,
  text_eq_iff, text_eq_refl, to_lower, to_lower_byte, trim_left, trim_right, trim_space, true, zero,
  ||-eq-false, ℕ, ℤ, ◌%◌, ◌&&◌, ◌*◌, ◌++◌, ◌+◌, ◌-◌, ◌/◌, ◌<◌, ◌==◌, ◌>>=◌, ◌>>◌, ◌^◌, ◌||◌, ◌↔◌,
  ◌∙◌, ◌∷◌, ◌≡◌, ◌≢◌, ◌≤◌, ◌⊎◌,
}
use bladerunner.Config.{Config, ConfigError}
use bladerunner.Config.Image.{hosted_guest_image_url}
use bladerunner.Disk.{
  Manifest, ImageSpec, ArchImage, VmSpec, DiskError, no_image_for_arch, unresolved_host_url,
  no_resolvable_source, boot_mode_gui,
}

unfoldable pub lookup_arch : Text → List (Text × ArchImage) → Option ArchImage
lookup_arch k [] = none
lookup_arch k ((j, a) ∷ rest) = if text_eq j k then some a else lookup_arch k rest

unfoldable pub use_arch : Text → Option ArchImage → Config → Result DiskError Config
use_arch goarch none cfg = err (no_image_for_arch goarch)
use_arch goarch (some a) cfg = ok (record cfg {
  use_hosted_guest_image = false;
  base_image_url = a.url;
  base_image_path = [];
  base_image_sha512 = [];
  base_image_expected_sha256 = a.sha256;
})

unfoldable pub use_hosted : Text → Result ConfigError Text → Config → Result DiskError Config
use_hosted goarch (err _) cfg = err (unresolved_host_url goarch)
use_hosted goarch (ok url) cfg = ok (record cfg {
  use_hosted_guest_image = true;
  base_image_url = url;
  base_image_path = [];
  base_image_sha512 = [];
  base_image_expected_sha256 = [];
})

-- The `switch` on the image source.
unfoldable pub apply_image : Text → ImageSpec → Config → Result DiskError Config
unfolding use_hosted use_arch lookup_arch
apply_image goarch i cfg =
    if i.hosted
    then use_hosted goarch (hosted_guest_image_url goarch) cfg
    else if not (is_empty i.path)
    then ok (record cfg { base_image_path = i.path })
    else if ltb 0 (length i.arches)
    then use_arch goarch (lookup_arch goarch i.arches) cfg
    else err no_resolvable_source

-- Sizes that are not 0, and the boot mode.
unfoldable pub apply_sizes : VmSpec → Text → Config → Config
apply_sizes vm mode cfg = record cfg {
  cpus = if ltb 0 vm.cpus then vm.cpus else cfg.cpus;
  memory_gib = if ltb 0 vm.memory_gib then vm.memory_gib else cfg.memory_gib;
  disk_size_gib = if int_gt vm.disk_size_gib 0 then vm.disk_size_gib else cfg.disk_size_gib;
  gui = text_eq mode boot_mode_gui;
}

-- `runtime.GOARCH` is the first argument.
abbrev pub effective_arch : Text → Config → Text
effective_arch goarch cfg = if is_empty cfg.arch then goarch else cfg.arch

unfoldable pub apply_to : Text → Manifest → Config → Result DiskError Config
apply_to goarch m cfg = do
  imaged ← apply_image (effective_arch goarch cfg) m.image cfg
  ok (apply_sizes m.vm m.boot.mode imaged)
