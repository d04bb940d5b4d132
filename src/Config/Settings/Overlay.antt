-- ===== src/Config/Settings/Overlay.antt =====
-- What valid settings do to a configuration.
use bladerunner.Prelude.{
  >>=-eq-ok, AtLeast, Text, [], arith, false, if◌then◌else◌, inl, inr, int_lt_iff, is_empty, ok,
  refl, text_eq, text_eq_iff, true, ◌≡◌, ◌≢◌, ◌≤◌, ◌⊎◌,
}
use bladerunner.Config.{
  Config, network_mode_shared, network_mode_bridged, min_disk_size_gib, second,
}
use bladerunner.Config.Image.{
  is_supported_arch, hosted_url_for, debian_url_for, debian_trixie_url, debian_trixie_sha512,
  hosted_guest_image_url, resolve_base_image_url, use_debian_image,
}
use bladerunner.Config.Default.{Env, default, default_at, default_state_dir}
use bladerunner.Config.Validate.{validate}
use bladerunner.Config.Validate.Runnable.{IsRunnable, IsRunnable-image, validate-IsRunnable}
use bladerunner.Config.Settings.{
  Settings, ImageSource, ImageKind, hosted, debian, custom_url, local_path, unknown, kind_valid,
  image_source_valid, net_setting_valid, validate_settings, default_settings, apply_image,
  apply_fields, apply_to,
}

-- The settings that pass, field by field.
record IsUsable (s : Settings) : Type 0 where
  mode : (s.network_mode ≡ network_mode_shared) ⊎ (s.network_mode ≡ network_mode_bridged)
  image : kind_valid s.image.kind s.image.url s.image.path ≡ true
  cpus : 1 ≤ s.cpus
  memory : 2 ≤ s.memory_gib
  disk_size : AtLeast min_disk_size_gib s.disk_size_gib
  wait : AtLeast second s.wait_for_incus

net_setting_mode :
    (n : Text) → net_setting_valid n ≡ true → (n ≡ network_mode_shared) ⊎ (n ≡ network_mode_bridged)
unfolding net_setting_valid
net_setting_mode n h =
    ground (arith, text_eq_iff n network_mode_shared, text_eq_iff n network_mode_bridged)

validate_settings_sound : (s : Settings) → validate_settings s ≡ ok tt → IsUsable s
unfolding validate_settings image_source_valid
validate_settings_sound s h = ground (
  arith,
  net_setting_mode s.network_mode,
  int_lt_iff s.disk_size_gib min_disk_size_gib,
  int_lt_iff s.wait_for_incus second,
)

supported-url :
    (a : Text)
    → is_supported_arch a ≡ true
    → (u : Text) × (hosted_guest_image_url a ≡ ok u) × (u ≢ [])
unfolding hosted_guest_image_url
supported-url a h = (hosted_url_for a, rw h, λ e. cc)

supported-debian :
    (a : Text) → is_supported_arch a ≡ true → (u : Text) × (debian_trixie_url a ≡ ok u) × (u ≢ [])
unfolding debian_trixie_url
supported-debian a h = (debian_url_for a, rw h, λ e. cc)

-- The image fields `c` that a choice of source leaves of the configuration `old`
abbrev pub ImageAgrees : ImageKind → ImageSource → Config → Config → Type 0
ImageAgrees hosted s old c =
    (c.use_hosted_guest_image ≡ true)
    × (hosted_guest_image_url old.arch ≡ ok c.base_image_url)
    × (c.base_image_sha512 ≡ [])
    × (c.base_image_path ≡ [])
    × (c.base_image_expected_sha256 ≡ old.base_image_expected_sha256)
ImageAgrees debian s old c =
    (c.use_hosted_guest_image ≡ false)
    × (debian_trixie_url old.arch ≡ ok c.base_image_url)
    × (c.base_image_sha512 ≡ debian_trixie_sha512 old.arch)
    × (c.base_image_path ≡ [])
    × (c.base_image_expected_sha256 ≡ [])
ImageAgrees custom_url s old c =
    (c.use_hosted_guest_image ≡ false)
    × (c.base_image_url ≡ s.url)
    × (s.url ≢ [])
    × (c.base_image_sha512 ≡ [])
    × (c.base_image_path ≡ [])
    × (c.base_image_expected_sha256 ≡ old.base_image_expected_sha256)
ImageAgrees local_path s old c =
    (c.use_hosted_guest_image ≡ false)
    × (c.base_image_path ≡ s.path)
    × (s.path ≢ [])
    × (c.base_image_url ≡ old.base_image_url)
    × (c.base_image_sha512 ≡ old.base_image_sha512)
    × (c.base_image_expected_sha256 ≡ old.base_image_expected_sha256)
ImageAgrees (unknown _) s old c = ⊥

apply_fields-IsRunnable :
    (s : Settings) (c : Config) → IsUsable s → IsRunnable c → IsRunnable (apply_fields s c)
unfolding apply_fields
apply_fields-IsRunnable s c u r = record {
  name = r.name;
  hostname = r.hostname;
  vm_dir = r.vm_dir;
  log_path = r.log_path;
  ssh_user = r.ssh_user;
  ssh_key = r.ssh_key;
  network_mode = u.mode;
  ssh_port = r.ssh_port;
  api_port = r.api_port;
  oidc_port = r.oidc_port;
  ntp_port = r.ntp_port;
  local_ports = r.local_ports;
  vsock_ports = r.vsock_ports;
  vsock_ntp = r.vsock_ntp;
  disk_size = u.disk_size;
  cpus = u.cpus;
  memory = u.memory;
  base_image = r.base_image;
  wait = u.wait;
  share = r.share;
}

apply_image-IsRunnable :
    (k : ImageKind) (s : ImageSource) (c : Config)
    → is_supported_arch c.arch ≡ true
    → kind_valid k s.url s.path ≡ true
    → IsRunnable c
    → IsRunnable (apply_image k s c)
unfolding apply_image kind_valid use_debian_image resolve_base_image_url
apply_image-IsRunnable hosted s c a v r =
    let (u, e, ne) = supported-url c.arch a in
    rw e (IsRunnable-image c u [] c.base_image_expected_sha256 [] true r (inr ne))
apply_image-IsRunnable debian s c a v r =
    let (u, e, ne) = supported-debian c.arch a in
    rw (e, use_debian_image)
      (IsRunnable-image c u (debian_trixie_sha512 c.arch) [] [] false r (inr ne))
apply_image-IsRunnable custom_url s c a v r =
    IsRunnable-image c s.url [] c.base_image_expected_sha256 [] false r (inr (ground arith))
apply_image-IsRunnable local_path s c a v r =
    IsRunnable-image c c.base_image_url c.base_image_sha512 c.base_image_expected_sha256 s.path
      false r (inl (ground arith))
apply_image-IsRunnable (unknown t) s c a v r = cc

-- Settings that `Validate` accepts, laid over a configuration that `Validate` accepts, give one
-- that `Validate` accepts, on an architecture that has images.
pub validate-apply_to :
    (s : Settings) (c : Config)
    → is_supported_arch c.arch ≡ true
    → validate_settings s ≡ ok tt
    → validate c ≡ ok tt
    → validate (apply_to s c) ≡ ok tt
unfolding apply_to
validate-apply_to s c a v r =
    let u = validate_settings_sound s v in
    (validate-IsRunnable _).1 (
      apply_image-IsRunnable s.image.kind s.image (apply_fields s c) (unfold apply_fields in a)
        u.image (apply_fields-IsRunnable s c u ((validate-IsRunnable c).0 r)))

default_at_fixed :
    (env : Env) (goarch dir url : Text)
    → resolve_base_image_url goarch true ≡ ok url
    → apply_to default_settings (default_at env goarch dir url) ≡ default_at env goarch dir url
unfolding apply_to apply_fields apply_image default_settings default_at text_eq
default_at_fixed env goarch dir url e = rw e refl

-- The built-in settings change nothing in the built-in configuration.
pub apply_to-default :
    (env : Env) (goarch base_dir : Text) {c : Config}
    → default env goarch base_dir ≡ ok c
    → apply_to default_settings c ≡ c
unfolding default
apply_to-default env goarch base_dir h =
    let dir = if is_empty base_dir then default_state_dir env else base_dir in
    let (url, e, h') = >>=-eq-ok (resolve_base_image_url goarch true) _ h in
    let same : default_at env goarch dir url ≡ _ = cc in
    rw same at (default_at_fixed env goarch dir url e)
