-- ===== src/Config/Tests.antt =====
-- Concrete configurations and settings, and the theorems at them.
use bladerunner.Prelude.{
  [], codes, contains, cut_prefix, false, has_prefix, none, ok, refl, some, text_eq, true, ◌++◌,
  ◌↔◌, ◌∷◌, ◌≡◌,
}
use bladerunner.Prelude.FilePath.{join}
use bladerunner.Config.{Config, arch_arm64}
use bladerunner.Config.Image.{
  hosted_url_for, hosted_guest_image_url, resolve_base_image_url, is_supported_arch,
}
use bladerunner.Config.Default.{Env, default_at, default, set_ssh_keys}
use bladerunner.Config.Validate.{
  validate, validate_required_fields, validate_modes, validate_ports, validate_sizes,
}
use bladerunner.Config.Validate.Runnable.{IsRunnable, validate-IsRunnable}
use bladerunner.Config.Settings.{
  Settings, debian, default_settings, validate_settings, apply_to, start_policy_valid,
  net_setting_valid, nested_virt_valid, image_source_valid,
}
use bladerunner.Config.Settings.File.{
  SaveDir, present, Json, Calls, missing, with_schema, load_settings, save_settings,
}
use bladerunner.Config.Settings.File.RoundTrip.{
  load_settings-valid, save_settings-IsAtomic, IsAtomic,
}
use bladerunner.Config.Settings.Overlay.{validate-apply_to}

abbrev pub sample_env : Env
sample_env = record { getenv = λ _. []; home = some (codes "/home/u") }

abbrev pub arm_config : Config
arm_config = default_at sample_env arch_arm64 (codes "/vm") (hosted_url_for arch_arm64)

abbrev pub sample_config : Config
sample_config = set_ssh_keys arm_config (codes "ssh-ed25519 AAAA") (codes "/vm/key")

abbrev sample_settings : Settings
sample_settings = record default_settings { image = record { kind = debian; url = []; path = [] } }

pub sample_config-ok : validate sample_config ≡ ok tt
unfolding validate validate_required_fields validate_modes validate_ports validate_sizes
    set_ssh_keys default_at contains has_prefix cut_prefix text_eq join
sample_config-ok = refl

sample_settings-ok : validate_settings sample_settings ≡ ok tt
unfolding validate_settings default_settings start_policy_valid net_setting_valid nested_virt_valid
    image_source_valid text_eq
sample_settings-ok = refl

arm-is_supported_arch : is_supported_arch sample_config.arch ≡ true
unfolding set_ssh_keys default_at text_eq
arm-is_supported_arch = refl

arm_config-default : default sample_env arch_arm64 (codes "/vm") ≡ ok arm_config
unfolding default resolve_base_image_url hosted_guest_image_url text_eq
arm_config-default = refl

validate-IsRunnable_example : (validate sample_config ≡ ok tt) ↔ IsRunnable sample_config
validate-IsRunnable_example = validate-IsRunnable sample_config

validate-apply_to_example : validate (apply_to sample_settings sample_config) ≡ ok tt
validate-apply_to_example =
    validate-apply_to sample_settings sample_config arm-is_supported_arch sample_settings-ok
      sample_config-ok

-- A codec that knows one document.
abbrev sample_json : Json
sample_json = record {
  marshal = λ _. some (codes "{}");
  unmarshal = λ _ _. some (with_schema sample_settings);
}

abbrev no_rename : Calls
no_rename = record {
  mkdir = true;
  create = true;
  write = true;
  left = [];
  sync = true;
  close = true;
  rename = false;
  remove = true;
}

abbrev no_settings : SaveDir
no_settings = record { file = missing; temp = none }

-- A save that works replaces the file.
saved_file :
    (save_settings sample_json (record no_rename { rename = true }) sample_settings no_settings).now
    ≡ record { file = present (codes "{}" ++ (10 ∷ [])); temp = none }
unfolding save_settings start_policy_valid text_eq default_settings net_setting_valid
    nested_virt_valid image_source_valid
saved_file = refl

-- A write that stops in the middle, and a temporary file that stays
stopped_write :
    (save_settings sample_json
      (record no_rename { write = false; left = codes "{"; remove = false })
      sample_settings
      no_settings).now
    ≡ record { file = missing; temp = some (codes "{") }
unfolding save_settings start_policy_valid text_eq default_settings net_setting_valid
    nested_virt_valid image_source_valid
stopped_write = refl

default_settings-loaded : load_settings sample_json missing ≡ ok default_settings
unfolding load_settings
default_settings-loaded = refl

load_settings-valid_example : validate_settings default_settings ≡ ok tt
load_settings-valid_example = load_settings-valid sample_json missing default_settings-loaded

save_settings-IsAtomic_example :
    IsAtomic sample_json
      (record no_rename { rename = true })
      sample_settings
      no_settings
      (save_settings sample_json (record no_rename { rename = true }) sample_settings no_settings)
save_settings-IsAtomic_example =
    save_settings-IsAtomic sample_json (record no_rename { rename = true }) sample_settings
      no_settings refl
