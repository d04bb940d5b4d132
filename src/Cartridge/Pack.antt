-- ===== src/Cartridge/Pack.antt =====
-- What a disk becomes as a cartridge, and a configuration inside one (cmd/bladerunner/cartridge.go).
pub mod Valid
use bladerunner.Prelude.{
  &&-eq-true, ==_iff, ==_refl, >>-eq-ok, >>=-eq-ok, All, All-append, AtLeast, AtMost, Bool,
  Bool-cases, Check, IsDigit, List, Option, Option-cases, Result, String, Text, [], ap, append-nil,
  append_assoc, arith, atoi, atoi-decimal, codes, contains, cut_byte, cut_prefix, decimal,
  decimal-cons, decimal-digits, drop, drop-length-append, err, fail_if, fail_if-eq-ok, false,
  fun_ext, get_elem?, has_prefix, has_suffix, if◌then◌else◌, in_int64, inl, inr, int_eq, int_eq_iff,
  int_gt, int_gt_iff, int_lt, int_lt_iff, is_empty, is_ok, is_ok_unit, is_space, itoa, leb, length,
  length-append, length-drop, length-take, ltb, map, map_err, min, ne_text_eq, negsuc, none, not,
  ok, ok-injective, parse_digits, parse_nat, pos, refl, replicate, reverse, some, subst, suc, sym,
  take, take-length-append, text_eq, text_eq_iff, text_eq_ne, text_eq_refl, to_lower, to_lower_byte,
  trim_left, trim_right, trim_space, true, zero, ||-eq-false, ℕ, ℤ, ◌%◌, ◌&&◌, ◌*◌, ◌++◌, ◌+◌, ◌-◌,
  ◌/◌, ◌<◌, ◌==◌, ◌>>=◌, ◌>>◌, ◌^◌, ◌||◌, ◌↔◌, ◌∙◌, ◌∷◌, ◌≡◌, ◌≢◌, ◌≤◌, ◌⊎◌,
}
use bladerunner.Prelude.FilePath.{join, base, ext}
use bladerunner.Boot.SlotName.{trim_suffix}
use bladerunner.Config.{Config}
use bladerunner.Config.Default.{Env, default_state_dir}
use bladerunner.Disk.{Manifest, ImageSpec, ShareSpec}
use bladerunner.Cartridge.{size_gib, sparse_ext, dmg_ext}

abbrev pub manifest_file : Text
manifest_file = codes "disk.json"

abbrev pub root_img : Text
root_img = codes "root.img"

abbrev pub default_share_tag : Text
default_share_tag = codes "bladerunner-share"

abbrev pub default_share_guest_path : Text
default_share_guest_path = codes "/mnt/share"

unfoldable pub pack_size_gib : ℤ → ℤ → ℤ
unfolding size_gib
pack_size_gib flag_size disk_gib = if int_gt flag_size 0 then flag_size else size_gib disk_gib

-- `cwd` is what os.Getwd gives.
unfoldable pub pack_out_path : Option Text → Text → Text → Option Text
unfolding join
pack_out_path cwd (c ∷ flag_out) name = some (c ∷ flag_out)
pack_out_path none [] name = none
pack_out_path (some dir) [] name = some (join (dir ∷ (name ++ sparse_ext) ∷ []))

unfoldable pub trim_cartridge_ext : Text → Text
unfolding trim_suffix has_suffix
trim_cartridge_ext p =
    if has_suffix p sparse_ext then trim_suffix p sparse_ext else trim_suffix p dmg_ext

unfoldable pub cartridge_name_from_path : Text → Text
unfolding trim_cartridge_ext base
cartridge_name_from_path p = trim_cartridge_ext (base p)

unfoldable pub cartridge_mountpoint : Env → Text → Text
unfolding default_state_dir join
cartridge_mountpoint env name = join (default_state_dir env ∷ codes "mnt" ∷ name ∷ [])

abbrev share_or_default : Option ShareSpec → ShareSpec
share_or_default (some s) = s
share_or_default none = record {
  tag = default_share_tag;
  read_only = false;
  guest_path = default_share_guest_path;
}

-- cartridgeManifest, on values: the copy that Manifest.Clone makes shares nothing.
unfoldable pub cartridge_manifest : Manifest → Text → Manifest
cartridge_manifest m name = record m {
  name = name;
  image = record { arches = []; path = root_img; hosted = false };
  share = some (share_or_default m.share);
}

abbrev or_default : Text → Text → Text
or_default s default = if is_empty s then default else s

abbrev share_tag_of : Option ShareSpec → Text
share_tag_of none = default_share_tag
share_tag_of (some s) = or_default s.tag default_share_tag

abbrev share_guest_path_of : Option ShareSpec → Text
share_guest_path_of none = default_share_guest_path
share_guest_path_of (some s) = or_default s.guest_path default_share_guest_path

unfoldable pub manifest_share_tag : Manifest → Text
manifest_share_tag m = share_tag_of m.share

unfoldable pub manifest_share_guest_path : Manifest → Text
manifest_share_guest_path m = share_guest_path_of m.share

-- `bootCartridge`, where a cartridge is booted
pub record BootCartridge : Type 0 where
  pub mountpoint : Text
  pub manifest : Manifest
  pub name : Text
  pub working_copy : Text

-- applyBootCartridge, with a mountpoint that is not empty
unfoldable pub root_inside : BootCartridge → Config → Config
unfolding join manifest_share_tag manifest_share_guest_path
root_inside b cfg =
    let state = join (b.mountpoint ∷ codes "state" ∷ []) in
    record cfg {
      base_image_path = join (b.mountpoint ∷ root_img ∷ []);
      base_image_url = [];
      base_image_sha512 = [];
      base_image_expected_sha256 = [];
      disk_path = join (b.mountpoint ∷ root_img ∷ []);
      efi_vars_path = join (state ∷ codes "efi-vars.bin" ∷ []);
      cloud_init_dir = join (state ∷ codes "cloud-init" ∷ []);
      share_dir = join (b.mountpoint ∷ codes "share" ∷ []);
      share_tag = manifest_share_tag b.manifest;
      share_guest_path = manifest_share_guest_path b.manifest;
    }

unfoldable pub apply_boot_cartridge : BootCartridge → Config → Config
unfolding root_inside
apply_boot_cartridge b cfg = if is_empty b.mountpoint then cfg else root_inside b cfg
