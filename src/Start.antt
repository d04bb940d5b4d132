-- ===== src/Start.antt =====
-- The configuration that `br start` boots with (runStart of cmd/bladerunner/start.go): the defaults,
-- the user's settings, the disk manifest, the flags and the cartridge, one laid over the other, and
-- the parts of an eject request.
pub mod Override
pub mod Ready
pub mod Configured
pub mod Tests
use bladerunner.Prelude.{
  &&-eq-true, ==_iff, ==_refl, >>-eq-ok, >>=-eq-ok, All, All-append, AtLeast, AtMost, Bool,
  Bool-cases, Check, IsDigit, List, Option, Option-cases, Result, String, Text, [], ap, append-nil,
  append_assoc, arith, atoi, atoi-decimal, codes, contains, cut_byte, cut_prefix, decimal,
  decimal-cons, decimal-digits, drop, drop-length-append, err, fail_if, fail_if-eq-ok, false,
  fun_ext, get_elem?, has_prefix, has_suffix, if◌then◌else◌, in_int64, inl, inr, int_eq, int_eq_iff,
  int_gt, int_gt_iff, int_lt, int_lt_iff, is_empty, is_ok, is_ok_unit, is_space, itoa, leb, length,
  length-append, length-drop, length-take, ltb, map, map_err, min, ne_text_eq, negsuc, none, not,
  ok, ok-injective, parse_digits, parse_nat, pos, refl, replicate, reverse, some, subst, suc, sym,
  take, take-length-append, text_eq, text_eq_iff, text_eq_ne, text_eq_refl, to_lower, to_lower_byte,
  trim_left, trim_right, trim_space, true, zero, ||-eq-false, ℕ, ℤ, ◌%◌, ◌&&◌, ◌*◌, ◌++◌, ◌+◌, ◌-◌,
  ◌/◌, ◌<◌, ◌==◌, ◌>>=◌, ◌>>◌, ◌^◌, ◌||◌, ◌↔◌, ◌∙◌, ◌∷◌, ◌≡◌, ◌≢◌, ◌≤◌, ◌⊎◌,
}
use bladerunner.Config.{Config, ConfigError}
use bladerunner.Config.Default.{Env, default, set_ssh_keys, force_hosted_image, force_debian_image}
use bladerunner.Config.Image.{hosted_guest_image_url, use_debian_image}
use bladerunner.Config.Validate
use bladerunner.Config.Settings.{Settings, default_settings, on_ok}
use bladerunner.Config.Settings
use bladerunner.Config.Settings.File.{Json, SettingsFile, load_settings}
use bladerunner.Disk.{Manifest, DiskError}
use bladerunner.Disk.Apply
use bladerunner.Cartridge.Pack.{BootCartridge, apply_boot_cartridge}

-- `startFlags`; restoreFrom does not touch the configuration.
pub record Flags : Type 0 where
  pub cpus : ℕ
  pub memory : ℕ
  pub disk : ℤ
  pub gui : Bool
  pub state_dir : Text
  pub image_url : Text
  pub image_path : Text
  pub hosted_image : Bool
  pub debian_image : Bool
  pub timeout : ℤ
  pub no_nested : Bool

-- Which flags of the sizes and modes are applied.
pub record Changed : Type 0 where
  pub cpus : Bool
  pub memory : Bool
  pub disk : Bool
  pub gui : Bool
  pub timeout : Bool
  pub no_nested : Bool
  pub image_url : Bool
  pub image_path : Bool

unfoldable pub force_hosted : Env → Flags → Bool
unfolding force_hosted_image
force_hosted env f = f.hosted_image || force_hosted_image env

unfoldable pub force_debian : Env → Flags → Bool
unfolding force_debian_image
force_debian env f = f.debian_image || force_debian_image env

pub data StartError : Type 0 where
  both_forced : StartError
  url_conflict path_conflict : Bool → StartError
  config_failed : ConfigError → StartError
  manifest_failed : DiskError → StartError
  invalid_config : ConfigError → StartError

-- validateImageOverrideFlags
unfoldable pub validate_image_override_flags : Env → Flags → Check StartError
unfolding force_hosted force_debian
validate_image_override_flags env f =
    let h = force_hosted env f in
    let d = force_debian env f in
    if h && d
    then err both_forced
    else if not h && not d
    then ok tt
    else if not (is_empty f.image_url)
    then err (url_conflict d)
    else if not (is_empty f.image_path)
    then err (path_conflict d)
    else ok tt

-- The flags of sizes and modes
unfoldable pub override_fields : Flags → Changed → Bool → Config → Config
override_fields f changed driven cfg = record cfg {
  cpus = if driven || changed.cpus then f.cpus else cfg.cpus;
  memory_gib = if driven || changed.memory then f.memory else cfg.memory_gib;
  disk_size_gib = if driven || changed.disk then f.disk else cfg.disk_size_gib;
  gui = if driven || changed.gui then f.gui else cfg.gui;
  wait_for_incus = if driven || changed.timeout then f.timeout else cfg.wait_for_incus;
  nested_virt_disabled =
      if driven || changed.no_nested then f.no_nested else cfg.nested_virt_disabled;
}

unfoldable pub override_url : Flags → Changed → Bool → Config → Config
override_url f changed driven cfg =
    if not (is_empty f.image_url) && (driven || changed.image_url)
    then record cfg { base_image_url = f.image_url; base_image_sha512 = [] }
    else cfg

unfoldable pub override_path : Flags → Changed → Bool → Config → Config
override_path f changed driven cfg =
    if not (is_empty f.image_path) && (driven || changed.image_path)
    then record cfg { base_image_path = f.image_path }
    else cfg

unfoldable pub override_hosted : Bool → Config → Config
override_hosted forced cfg =
    if forced
    then record cfg {
      base_image_url = on_ok (hosted_guest_image_url cfg.arch) cfg.base_image_url;
      base_image_sha512 = [];
      base_image_expected_sha256 = [];
      base_image_path = [];
      use_hosted_guest_image = true;
    }
    else cfg

unfoldable pub override_debian : Bool → Config → Config
override_debian forced cfg = if forced then on_ok (use_debian_image cfg) cfg else cfg

-- applyFlagOverrides
unfoldable pub apply_flag_overrides : Env → Flags → Changed → Bool → Config → Config
unfolding override_fields override_url override_path override_hosted override_debian force_hosted
    force_debian
apply_flag_overrides env f changed driven cfg = override_debian (force_debian env f) (
    override_hosted (force_hosted env f) (
      override_path f changed driven
        (override_url f changed driven (override_fields f changed driven cfg))))

-- applyBootManifest
unfoldable pub apply_boot_manifest : Text → Option Manifest → Config → Result StartError Config
unfolding Apply.apply_to
apply_boot_manifest goarch none cfg = ok cfg
apply_boot_manifest goarch (some m) cfg = map_err manifest_failed (Apply.apply_to goarch m cfg)

abbrev pub is_driven : Option Manifest → BootCartridge → Bool
is_driven none b = not (is_empty b.mountpoint)
is_driven (some _) b = true

-- What the start is given: the settings file under the default state directory, `bootManifest`, `bootCartridge`
-- (its mountpoint empty where there is none), and the keys of EnsureKeyPair.
pub record Inputs : Type 0 where
  pub env : Env
  pub goarch : Text
  pub flags : Flags
  pub changed : Changed
  pub json : Json
  pub settings_file : SettingsFile
  pub manifest : Option Manifest
  pub cartridge : BootCartridge
  pub public_key : Text
  pub private_key_path : Text

-- The steps of runStart from the settings to the keys
unfoldable pub overlay_config : Inputs → Config → Result StartError Config
unfolding Settings.apply_to default_settings load_settings apply_boot_manifest apply_flag_overrides
    apply_boot_cartridge set_ssh_keys
overlay_config i cfg = do
  imaged ←
      apply_boot_manifest i.goarch i.manifest
        (Settings.apply_to (on_ok (load_settings i.json i.settings_file) default_settings) cfg)
  ok (
      set_ssh_keys
        (apply_boot_cartridge i.cartridge
          (apply_flag_overrides i.env i.flags i.changed (is_driven i.manifest i.cartridge) imaged))
        i.public_key i.private_key_path)

-- runStart, from the flags to NewRunner, where nothing else fails
unfoldable pub start_config : Inputs → Result StartError Config
unfolding validate_image_override_flags default overlay_config Validate.validate
start_config i = do
  validate_image_override_flags i.env i.flags
  cfg ← map_err config_failed (default i.env i.goarch i.flags.state_dir)
  final ← overlay_config i cfg
  map_err invalid_config (Validate.validate final)
  ok final

-- ejectTimeoutFromArgs, in seconds
abbrev pub default_eject_timeout : ℕ
default_eject_timeout = 60

unfoldable pub positive_or_default : Option ℤ → ℕ
positive_or_default (some (pos (suc n))) = suc n
positive_or_default _ = default_eject_timeout

unfoldable pub eject_timeout_from_args : Option Text → ℕ
unfolding positive_or_default atoi
eject_timeout_from_args none = default_eject_timeout
eject_timeout_from_args (some v) = positive_or_default (atoi v)

unfoldable pub eject_force_from_args : Option Text → Bool
unfolding text_eq
eject_force_from_args none = false
eject_force_from_args (some v) = text_eq v (codes "force")
