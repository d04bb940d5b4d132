-- ===== src/Config.antt =====
-- internal/config/config.go: the run configuration, its checks, and the choice of a base image.
-- `fmt.Errorf` messages are the constructors of `ConfigError`; Go strings are byte lists.
pub mod Image
pub mod Default
pub mod Settings
pub mod Validate
pub mod Tests
use bladerunner.Prelude.{ℕ, ℤ, Bool, Text, codes}

-- Durations are nanoseconds (int64), `uint` and `uint64` are numbers.
pub record Config : Type 0 where
  pub name : Text
  pub hostname : Text
  pub state_dir : Text
  pub vm_dir : Text
  pub disk_path : Text
  pub saved_state_path : Text
  pub disk_size_gib : ℤ
  pub base_image_url : Text
  pub base_image_sha512 : Text
  pub base_image_expected_sha256 : Text
  pub base_image_path : Text
  pub machine_id_path : Text
  pub efi_vars_path : Text
  pub cloud_init_iso : Text
  pub cloud_init_dir : Text
  pub console_log_path : Text
  pub log_path : Text
  pub report_path : Text
  pub metadata_path : Text
  pub ssh_user : Text
  pub ssh_public_key : Text
  pub ssh_private_key_path : Text
  pub ssh_config_path : Text
  pub client_cert_path : Text
  pub client_key_path : Text
  pub local_ssh_port : ℤ
  pub local_api_port : ℤ
  pub local_web_port : ℤ
  pub local_oidc_port : ℤ
  pub vsock_ssh_port : ℕ  -- uint32
  pub vsock_api_port : ℕ  -- uint32
  pub vsock_oidc_port : ℕ  -- uint32
  pub local_ntp_port : ℤ
  pub vsock_ntp_port : ℕ  -- uint32
  pub oidc_issuer_url : Text
  pub oidc_client_id : Text
  pub oidc_audience : Text
  pub oidc_state_dir : Text
  pub identity_dir : Text
  pub network_mode : Text
  pub bridge_interface : Text
  pub gui : Bool
  pub use_hosted_guest_image : Bool
  pub cpus : ℕ
  pub memory_gib : ℕ
  pub arch : Text
  pub wait_for_incus : ℤ
  pub dashboard_path : Text
  pub nested_virt_disabled : Bool
  pub nested_virt : Text
  pub share_dir : Text
  pub share_tag : Text
  pub share_guest_path : Text

pub data ConfigError : Type 0 where
  name_required hostname_required vm_dir_required log_path_required : ConfigError
  ssh_user_required ssh_key_required ssh_key_not_valid : ConfigError
  invalid_network_mode unsupported_arch : Text → ConfigError
  ssh_port_range api_port_range oidc_port_range ntp_port_range : ConfigError
  ssh_and_api_ports_equal vsock_ssh_and_api_ports_equal vsock_ntp_port_taken : ConfigError
  disk_too_small too_few_cpus memory_too_small no_base_image wait_too_short no_share_tag :
      ConfigError

-- NetworkModeShared and NetworkModeBridged
abbrev pub network_mode_shared : Text
network_mode_shared = codes "shared"

abbrev pub network_mode_bridged : Text
network_mode_bridged = codes "bridged"

abbrev pub default_bridge_interface : Text
default_bridge_interface = codes "en0"

abbrev pub default_cpus : ℕ
default_cpus = 4

abbrev pub default_memory_gib : ℕ
default_memory_gib = 8

abbrev pub default_disk_size_gib : ℕ
default_disk_size_gib = 64

-- time.Second, in nanoseconds
abbrev pub second : ℕ
second = 1_000_000_000

-- DefaultTimeout: ten minutes
abbrev pub default_timeout : ℕ
default_timeout = 600_000_000_000

abbrev pub min_disk_size_gib : ℕ
min_disk_size_gib = 16

abbrev pub arch_arm64 : Text
arch_arm64 = codes "arm64"

abbrev pub arch_amd64 : Text
arch_amd64 = codes "amd64"

abbrev pub app_name : Text
app_name = codes "bladerunner"
