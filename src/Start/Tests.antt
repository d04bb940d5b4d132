-- ===== src/Start/Tests.antt =====
-- Starts from the defaults, and the theorem at one.
use bladerunner.Prelude.{
  [], arith, codes, contains, false, has_prefix, inr, none, pos, refl, some, text_eq, to_lower,
  trim_space, true, ◌≡◌,
}
use bladerunner.Config.{arch_arm64}
use bladerunner.Config.Default.{default_at, env_truthy}
use bladerunner.Config.Tests.{sample_env, arm_config}
use bladerunner.Config.Settings.File.{Json, missing}
use bladerunner.Disk.Tests.{desktop, desktop-ok, desktop-FitsSizes}
use bladerunner.Start.{Flags, Changed, Inputs, apply_flag_overrides, eject_timeout_from_args}
use bladerunner.Start.Ready.{FitsFlags}
use bladerunner.Start.Configured.{StartsValid, start_config-valid}

abbrev flags : Flags
flags = record {
  cpus = 4;
  memory = 8;
  disk = pos 64;
  gui = false;
  state_dir = codes "/state/disks/desktop";
  image_url = codes "https://host/mine.qcow2";
  image_path = [];
  hosted_image = false;
  debian_image = false;
  timeout = pos 600_000_000_000;
  no_nested = false;
}

abbrev only_url : Changed
only_url = record {
  cpus = false;
  memory = false;
  disk = false;
  gui = false;
  timeout = false;
  no_nested = false;
  image_url = true;
  image_path = false;
}

-- An image of the user's own, with the hosted image still selected.
image_url-still_hosted :
    ((apply_flag_overrides sample_env flags only_url false arm_config).base_image_url
      ≡ codes "https://host/mine.qcow2")
    × ((apply_flag_overrides sample_env flags only_url false arm_config).use_hosted_guest_image
        ≡ true)
unfolding apply_flag_overrides env_truthy default_at text_eq to_lower trim_space
image_url-still_hosted = (refl, refl)

eject_timeouts :
    (eject_timeout_from_args none ≡ 60)
    × (eject_timeout_from_args (some (codes "5")) ≡ 5)
    × (eject_timeout_from_args (some (codes "-5")) ≡ 60)
unfolding eject_timeout_from_args
eject_timeouts = (refl, refl, refl)

abbrev nothing : Json
nothing = record { marshal = λ _. none; unmarshal = λ _ _. none }

abbrev inputs : Inputs
inputs = record {
  env = sample_env;
  goarch = arch_arm64;
  flags = flags;
  changed = only_url;
  json = nothing;
  settings_file = missing;
  manifest = some desktop;
  cartridge = record { mountpoint = []; manifest = desktop; name = []; working_copy = [] };
  public_key = codes "ssh-ed25519 AAAA";
  private_key_path = codes "/vm/key";
}

flags-FitsFlags : FitsFlags flags only_url true
flags-FitsFlags = record {
  cpus = inr (omega arith);
  memory = inr (omega arith);
  disk = inr (omega arith);
  wait = inr (omega arith);
}

start_config-valid_example : StartsValid inputs
unfolding text_eq contains has_prefix
start_config-valid_example =
    start_config-valid inputs refl refl (desktop-ok, desktop-FitsSizes) flags-FitsFlags
