-- ===== src/Config/Settings.antt =====
-- internal/config/settings.go: the persisted user settings, their checks, and their overlay on a
-- configuration.
pub mod Overlay
pub mod File
use bladerunner.Prelude.{
  &&-eq-true, ==_iff, ==_refl, >>-eq-ok, >>=-eq-ok, All, All-append, AtLeast, AtMost, Bool,
  Bool-cases, Check, List, Option, Option-cases, Result, String, Text, [], ap, append-nil,
  append_assoc, arith, codes, contains, cut_byte, cut_prefix, drop, drop-length-append, err,
  fail_if, fail_if-eq-ok, false, fun_ext, get_elem?, has_prefix, has_suffix, if◌then◌else◌, inl,
  inr, int_eq, int_eq_iff, int_gt, int_gt_iff, int_lt, int_lt_iff, is_empty, is_ok, is_space, leb,
  length, length-append, length-drop, length-take, ltb, map, map_err, min, negsuc, none, not, ok,
  pos, refl, replicate, reverse, some, subst, suc, sym, take, take-length-append, text_eq,
  text_eq_iff, text_eq_refl, to_lower, to_lower_byte, trim_left, trim_right, trim_space, true, zero,
  ||-eq-false, ℕ, ℤ, ◌%◌, ◌&&◌, ◌*◌, ◌++◌, ◌+◌, ◌-◌, ◌/◌, ◌<◌, ◌==◌, ◌>>=◌, ◌>>◌, ◌^◌, ◌||◌, ◌↔◌,
  ◌∙◌, ◌∷◌, ◌≡◌, ◌≢◌, ◌≤◌, ◌⊎◌,
}
use bladerunner.Config.{
  Config, network_mode_shared, network_mode_bridged, default_bridge_interface, default_cpus,
  default_memory_gib, default_disk_size_gib, default_timeout, min_disk_size_gib, second,
}
use bladerunner.Config.Image.{resolve_base_image_url, use_debian_image}

-- The named string types of the source (`StartPolicy`, `NetSetting`, …) are texts: any text may be
-- read from the file, and `Valid` picks the closed values.
abbrev pub start_manual : Text
start_manual = codes "manual"

abbrev pub start_on_launch : Text
start_on_launch = codes "on-launch"

abbrev pub start_on_first_action : Text
start_on_first_action = codes "on-first-action"

unfoldable pub start_policy_valid : Text → Bool
start_policy_valid p =
    text_eq p start_manual || text_eq p start_on_launch || text_eq p start_on_first_action

unfoldable pub net_setting_valid : Text → Bool
net_setting_valid n = text_eq n network_mode_shared || text_eq n network_mode_bridged

abbrev pub nested_auto : Text
nested_auto = codes "auto"

abbrev pub nested_disabled : Text
nested_disabled = codes "disabled"

unfoldable pub nested_virt_valid : Text → Bool
nested_virt_valid n = text_eq n nested_auto || text_eq n nested_disabled

-- `ImageKind`: the four tags, or whatever else the file holds.
pub data ImageKind : Type 0 where
  hosted debian custom_url local_path : ImageKind
  unknown : Text → ImageKind

pub record ImageSource : Type 0 where
  pub kind : ImageKind
  pub url : Text
  pub path : Text

unfoldable pub kind_valid : ImageKind → Text → Text → Bool
kind_valid hosted url path = is_empty url && is_empty path
kind_valid debian url path = is_empty url && is_empty path
kind_valid custom_url url path = not (is_empty url) && is_empty path
kind_valid local_path url path = not (is_empty path) && is_empty url
kind_valid (unknown _) url path = false

unfoldable pub image_source_valid : ImageSource → Bool
unfolding kind_valid
image_source_valid s = kind_valid s.kind s.url s.path

pub record Settings : Type 0 where
  pub schema_version : ℤ
  pub start_policy : Text
  pub cpus : ℕ
  pub memory_gib : ℕ
  pub disk_size_gib : ℤ
  pub network_mode : Text
  pub bridge_interface : Text
  pub image : ImageSource
  pub nested_virt : Text
  pub wait_for_incus : ℤ
  pub show_console : Bool

abbrev pub settings_schema_version : ℤ
settings_schema_version = pos 1

unfoldable pub default_settings : Settings
default_settings = record {
  schema_version = settings_schema_version;
  start_policy = start_manual;
  cpus = default_cpus;
  memory_gib = default_memory_gib;
  disk_size_gib = pos default_disk_size_gib;
  network_mode = network_mode_shared;
  bridge_interface = default_bridge_interface;
  image = record { kind = hosted; url = []; path = [] };
  nested_virt = nested_auto;
  wait_for_incus = pos default_timeout;
  show_console = false;
}

pub data SettingsError : Type 0 where
  bad_start_policy bad_network_mode bad_nested_virt : Text → SettingsError
  bad_image_source : ImageSource → SettingsError
  no_bridge too_few_cpus memory_too_small disk_too_small wait_too_short : SettingsError

-- Settings.Validate
unfoldable pub validate_settings : Settings → Check SettingsError
validate_settings s = do
  fail_if (not (start_policy_valid s.start_policy)) (bad_start_policy s.start_policy)
  fail_if (not (net_setting_valid s.network_mode)) (bad_network_mode s.network_mode)
  fail_if (text_eq s.network_mode network_mode_bridged && is_empty s.bridge_interface) no_bridge
  fail_if (not (nested_virt_valid s.nested_virt)) (bad_nested_virt s.nested_virt)
  fail_if (not (image_source_valid s.image)) (bad_image_source s.image)
  fail_if (ltb s.cpus 1) too_few_cpus
  fail_if (ltb s.memory_gib 2) memory_too_small
  fail_if (int_lt s.disk_size_gib min_disk_size_gib) disk_too_small
  fail_if (int_lt s.wait_for_incus second) wait_too_short

-- `if url, err := ResolveBaseImageURL(cfg.Arch, true); err == nil { cfg.BaseImageURL = url }`
abbrev pub on_ok {ℓ} : {E A : Type ℓ} → Result E A → A → A
on_ok (ok a) old = a
on_ok (err _) old = old

-- The `switch` of `Settings.ApplyTo`. `_ = UseDebianImage(cfg)` drops the error, which comes before
-- any write.
unfoldable pub apply_image : ImageKind → ImageSource → Config → Config
apply_image hosted s cfg = record cfg {
  use_hosted_guest_image = true;
  base_image_path = [];
  base_image_url = on_ok (resolve_base_image_url cfg.arch true) cfg.base_image_url;
  base_image_sha512 = [];
}
apply_image debian s cfg = on_ok (use_debian_image cfg) cfg
apply_image custom_url s cfg = record cfg {
  use_hosted_guest_image = false;
  base_image_url = s.url;
  base_image_sha512 = [];
  base_image_path = [];
}
apply_image local_path s cfg = record cfg {
  use_hosted_guest_image = false;
  base_image_path = s.path;
}
apply_image (unknown _) s cfg = cfg

-- The assignments of `Settings.ApplyTo` above the `switch`.
unfoldable pub apply_fields : Settings → Config → Config
apply_fields s cfg = record cfg {
  cpus = s.cpus;
  memory_gib = s.memory_gib;
  disk_size_gib = s.disk_size_gib;
  network_mode = s.network_mode;
  bridge_interface =
      if text_eq s.network_mode network_mode_bridged
      then s.bridge_interface
      else cfg.bridge_interface;
  nested_virt_disabled = text_eq s.nested_virt nested_disabled;
  wait_for_incus = s.wait_for_incus;
  gui = s.show_console;
}

-- Settings.ApplyTo, on a configuration that is not nil
unfoldable pub apply_to : Settings → Config → Config
apply_to s cfg = apply_image s.image.kind s.image (apply_fields s cfg)
