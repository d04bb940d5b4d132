-- ===== src/Config/Default.antt =====
-- `Default` and the directories that it takes from the environment (internal/config/config.go).
use bladerunner.Prelude.{
  Bool, Option, Result, Text, [], codes, false, if◌then◌else◌, is_empty, none, not, ok, pos, some,
  text_eq, to_lower, trim_space, true, ◌++◌, ◌>>=◌, ◌||◌, ◌∷◌,
}
use bladerunner.Prelude.FilePath.{join}
use bladerunner.Config.{
  Config, ConfigError, app_name, network_mode_shared, default_bridge_interface, default_cpus,
  default_memory_gib, default_disk_size_gib, default_timeout,
}
use bladerunner.Config.Image.{resolve_base_image_url}

-- os.Getenv and os.UserHomeDir (`none` is its error)
pub record Env : Type 0 where
  pub getenv : Text → Text
  pub home : Option Text

unfoldable pub state_dir_under : Option Text → Text
state_dir_under none = join (codes "." ∷ codes ".local" ∷ codes "state" ∷ app_name ∷ [])
state_dir_under (some home) = join (home ∷ codes ".local" ∷ codes "state" ∷ app_name ∷ [])

-- DefaultStateDir
unfoldable pub default_state_dir : Env → Text
unfolding state_dir_under
default_state_dir env =
    let d = env.getenv (codes "BLADERUNNER_STATE_DIR") in
    let xdg = env.getenv (codes "XDG_STATE_HOME") in
    if not (is_empty d)
    then d
    else if not (is_empty xdg)
    then join (xdg ∷ app_name ∷ [])
    else state_dir_under env.home

unfoldable pub identity_dir_under : Option Text → Text
identity_dir_under none = join (codes "." ∷ codes ".config" ∷ app_name ∷ codes "identities" ∷ [])
identity_dir_under (some home) = join (home ∷ codes ".config" ∷ app_name ∷ codes "identities" ∷ [])

-- DefaultIdentityDir
unfoldable pub default_identity_dir : Env → Text
unfolding identity_dir_under
default_identity_dir env =
    let xdg = env.getenv (codes "XDG_CONFIG_HOME") in
    if not (is_empty xdg)
    then join (xdg ∷ app_name ∷ codes "identities" ∷ [])
    else identity_dir_under env.home

-- ImageCacheDir and ImageCachePath
unfoldable pub image_cache_dir : Env → Text
image_cache_dir env = join (default_state_dir env ∷ codes "cache" ∷ codes "images" ∷ [])

unfoldable pub image_cache_path : Env → Text → Text
image_cache_path env sha256hex = join (image_cache_dir env ∷ (sha256hex ++ codes ".raw") ∷ [])

-- envTruthy
unfoldable pub env_truthy : Env → Text → Bool
env_truthy env name =
    let v = to_lower (trim_space (env.getenv name)) in
    text_eq v (codes "1")
    || text_eq v (codes "true")
    || text_eq v (codes "yes")
    || text_eq v (codes "on")

unfoldable pub force_hosted_image : Env → Bool
unfolding env_truthy
force_hosted_image env = env_truthy env (codes "BLADERUNNER_FORCE_HOSTED_IMAGE")

unfoldable pub force_debian_image : Env → Bool
unfolding env_truthy
force_debian_image env = env_truthy env (codes "BLADERUNNER_FORCE_DEBIAN_IMAGE")

-- The literal of `Default`, for the resolved base directory and image URL. `goarch` is
-- `runtime.GOARCH`; `useHosted` is the constant true of the source.
unfoldable pub default_at : Env → Text → Text → Text → Config
default_at env goarch base_dir image_url = record {
  name = app_name;
  hostname = app_name;
  state_dir = base_dir;
  vm_dir = base_dir;
  disk_path = join (base_dir ∷ codes "disk.raw" ∷ []);
  saved_state_path = join (base_dir ∷ codes "saved-state.bin" ∷ []);
  disk_size_gib = pos default_disk_size_gib;
  base_image_url = image_url;
  base_image_sha512 = [];
  base_image_expected_sha256 = [];
  base_image_path = [];
  machine_id_path = join (base_dir ∷ codes "machine-id.bin" ∷ []);
  efi_vars_path = join (base_dir ∷ codes "efi-vars.bin" ∷ []);
  cloud_init_iso = join (base_dir ∷ codes "cloud-init.iso" ∷ []);
  cloud_init_dir = join (base_dir ∷ codes "cloud-init" ∷ []);
  console_log_path = join (base_dir ∷ codes "console.log" ∷ []);
  log_path = join (base_dir ∷ codes "bladerunner.log" ∷ []);
  report_path = join (base_dir ∷ codes "startup-report.json" ∷ []);
  metadata_path = join (base_dir ∷ codes "runtime-metadata.json" ∷ []);
  ssh_user = app_name;
  ssh_public_key = [];
  ssh_private_key_path = [];
  ssh_config_path = [];
  client_cert_path = join (base_dir ∷ codes "client.crt" ∷ []);
  client_key_path = join (base_dir ∷ codes "client.key" ∷ []);
  local_ssh_port = pos 6022;
  local_api_port = pos 18443;
  local_web_port = pos 18444;
  local_oidc_port = pos 15556;
  vsock_ssh_port = 10022;
  vsock_api_port = 18443;
  vsock_oidc_port = 18556;
  local_ntp_port = pos 15557;
  vsock_ntp_port = 18557;
  oidc_issuer_url = codes "http://127.0.0.1:15556";
  oidc_client_id = codes "bladerunner";
  oidc_audience = codes "bladerunner";
  oidc_state_dir = join (base_dir ∷ codes "oidc" ∷ []);
  identity_dir = default_identity_dir env;
  network_mode = network_mode_shared;
  bridge_interface = default_bridge_interface;
  gui = false;
  use_hosted_guest_image = true;
  cpus = default_cpus;
  memory_gib = default_memory_gib;
  arch = goarch;
  wait_for_incus = pos default_timeout;
  dashboard_path = codes "/ui/";
  nested_virt_disabled = false;
  nested_virt = [];
  share_dir = [];
  share_tag = [];
  share_guest_path = [];
}

-- Default
unfoldable pub default : Env → Text → Text → Result ConfigError Config
unfolding default_at
default env goarch base_dir =
    let dir = if is_empty base_dir then default_state_dir env else base_dir in
    do url ← resolve_base_image_url goarch true; ok (default_at env goarch dir url)

-- SetSSHKeys
unfoldable pub set_ssh_keys : Config → Text → Text → Config
set_ssh_keys c public_key private_key_path = record c {
  ssh_public_key = if is_empty c.ssh_public_key then public_key else c.ssh_public_key;
  ssh_private_key_path =
      if is_empty c.ssh_private_key_path then private_key_path else c.ssh_private_key_path;
}
