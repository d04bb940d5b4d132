-- ===== src/Config/Validate.antt =====
-- `(*Config).Validate` and its helpers (internal/config/config.go).
pub mod Runnable
use bladerunner.Prelude.{
  Bool, not, ◌&&◌, ◌||◌, Check, ◌>>◌, fail_if, ℤ, pos, int_lt, int_gt, int_eq, ltb, ◌==◌, codes,
  is_empty, contains, text_eq,
}
use bladerunner.Config.{
  Config, ConfigError, name_required, hostname_required, vm_dir_required, log_path_required,
  ssh_user_required, ssh_key_required, ssh_key_not_valid, invalid_network_mode, ssh_port_range,
  api_port_range, oidc_port_range, ntp_port_range, ssh_and_api_ports_equal,
  vsock_ssh_and_api_ports_equal, vsock_ntp_port_taken, disk_too_small, too_few_cpus,
  memory_too_small, no_base_image, wait_too_short, no_share_tag, network_mode_shared,
  network_mode_bridged, min_disk_size_gib, second,
}

unfoldable pub validate_required_fields : Config → Check ConfigError
validate_required_fields c = do
  fail_if (is_empty c.name) name_required
  fail_if (is_empty c.hostname) hostname_required
  fail_if (is_empty c.vm_dir) vm_dir_required
  fail_if (is_empty c.log_path) log_path_required
  fail_if (is_empty c.ssh_user) ssh_user_required
  fail_if (is_empty c.ssh_public_key) ssh_key_required
  fail_if (not (contains c.ssh_public_key (codes "ssh-"))) ssh_key_not_valid

unfoldable pub validate_modes : Config → Check ConfigError
validate_modes c =
    fail_if
      (not (text_eq c.network_mode network_mode_shared)
        && not (text_eq c.network_mode network_mode_bridged))
      (invalid_network_mode c.network_mode)

-- outside 1-65535
unfoldable pub out_of_range : ℤ → Bool
out_of_range p = int_lt p 1 || int_gt p 65535

unfoldable pub validate_ports : Config → Check ConfigError
unfolding out_of_range
validate_ports c = do
  fail_if (out_of_range c.local_ssh_port) ssh_port_range
  fail_if (out_of_range c.local_api_port) api_port_range
  fail_if (not (int_eq c.local_oidc_port (pos 0)) && out_of_range c.local_oidc_port) oidc_port_range
  fail_if (not (int_eq c.local_ntp_port (pos 0)) && out_of_range c.local_ntp_port) ntp_port_range
  fail_if (int_eq c.local_ssh_port c.local_api_port) ssh_and_api_ports_equal
  fail_if (c.vsock_ssh_port == c.vsock_api_port) vsock_ssh_and_api_ports_equal
  fail_if
      (not (c.vsock_ntp_port == 0)
        && (c.vsock_ntp_port == c.vsock_ssh_port
            || c.vsock_ntp_port == c.vsock_api_port
            || c.vsock_ntp_port == c.vsock_oidc_port))
      vsock_ntp_port_taken

unfoldable pub validate_sizes : Config → Check ConfigError
validate_sizes c = do
  fail_if (int_lt c.disk_size_gib min_disk_size_gib) disk_too_small
  fail_if (ltb c.cpus 1) too_few_cpus
  fail_if (ltb c.memory_gib 2) memory_too_small
  fail_if (is_empty c.base_image_path && is_empty c.base_image_url) no_base_image
  fail_if (int_lt c.wait_for_incus second) wait_too_short
  fail_if (not (is_empty c.share_dir) && is_empty c.share_tag) no_share_tag

unfoldable pub validate : Config → Check ConfigError
validate c = do validate_required_fields c; validate_modes c; validate_ports c; validate_sizes c
