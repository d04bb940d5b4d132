-- ===== src/Start/Ready.antt =====
-- The flags and the cartridge keep a configuration ready to run.
use bladerunner.Prelude.{
  AtLeast, Bool, Bool-cases, Result, Text, [], ap, arith, false, if◌then◌else◌, inl, inr, is_empty,
  not, refl, subst, sym, true, ℕ, ◌&&◌, ◌||◌, ◌∙◌, ◌≡◌, ◌≢◌, ◌≤◌, ◌⊎◌,
}
use bladerunner.Config.{Config, ConfigError, second, min_disk_size_gib}
use bladerunner.Config.Default.{Env, set_ssh_keys}
use bladerunner.Config.Image.{is_supported_arch, hosted_guest_image_url, hosted_url_for}
use bladerunner.Config.Validate.Runnable.{IsRunnable, IsRunnable-image}
use bladerunner.Config.Settings.{on_ok}
use bladerunner.Cartridge.Pack.{BootCartridge, root_inside, apply_boot_cartridge}
use bladerunner.Cartridge.Pack.Valid.{root_inside-IsRunnable}
use bladerunner.Start.{
  Flags, Changed, override_fields, override_url, override_path, override_hosted, override_debian,
  apply_flag_overrides, force_hosted, force_debian,
}
use bladerunner.Start.Override.{use_debian-supported, IsReady, with_keys}

-- Each size or wait that the flags set is large enough.
pub record FitsFlags (f : Flags) (changed : Changed) (driven : Bool) : Type 0 where
  pub cpus : ((driven || changed.cpus) ≡ false) ⊎ (1 ≤ f.cpus)
  pub memory : ((driven || changed.memory) ≡ false) ⊎ (2 ≤ f.memory)
  pub disk : ((driven || changed.disk) ≡ false) ⊎ AtLeast min_disk_size_gib f.disk
  pub wait : ((driven || changed.timeout) ≡ false) ⊎ AtLeast second f.timeout

kept_or_set :
    {A : Type 0} (P : A → Type 0) (set : Bool) (new old : A)
    → (set ≡ false) ⊎ P new
    → P old
    → P (if set then new else old)
kept_or_set P true new old (inl h) k = cc
kept_or_set P true new old (inr h) k = h
kept_or_set P false new old h k = k

fields-IsRunnable :
    (f : Flags) (changed : Changed) (driven : Bool) (c : Config)
    → FitsFlags f changed driven
    → IsRunnable c
    → IsRunnable (override_fields f changed driven c)
unfolding override_fields
fields-IsRunnable f changed driven c fits r = record {
  name = r.name;
  hostname = r.hostname;
  vm_dir = r.vm_dir;
  log_path = r.log_path;
  ssh_user = r.ssh_user;
  ssh_key = r.ssh_key;
  network_mode = r.network_mode;
  ssh_port = r.ssh_port;
  api_port = r.api_port;
  oidc_port = r.oidc_port;
  ntp_port = r.ntp_port;
  local_ports = r.local_ports;
  vsock_ports = r.vsock_ports;
  vsock_ntp = r.vsock_ntp;
  disk_size =
      kept_or_set (AtLeast min_disk_size_gib) (driven || changed.disk) f.disk c.disk_size_gib
        fits.disk r.disk_size;
  cpus = kept_or_set (λ (n : ℕ). 1 ≤ n) (driven || changed.cpus) f.cpus c.cpus fits.cpus r.cpus;
  memory =
      kept_or_set (λ (n : ℕ). 2 ≤ n) (driven || changed.memory) f.memory c.memory_gib fits.memory
        r.memory;
  base_image = r.base_image;
  wait =
      kept_or_set (AtLeast second) (driven || changed.timeout) f.timeout c.wait_for_incus fits.wait
        r.wait;
  share = r.share;
}

url-IsRunnable :
    (f : Flags) (changed : Changed) (driven : Bool) (c : Config)
    → IsRunnable c
    → IsRunnable (override_url f changed driven c)
unfolding override_url
url-IsRunnable f changed driven c r =
    elim (Bool-cases (not (is_empty f.image_url) && (driven || changed.image_url))) [
      | inl set ↦
          (rw set (
            IsRunnable-image c f.image_url [] c.base_image_expected_sha256 c.base_image_path
              c.use_hosted_guest_image r (inr (ground arith))))
      | inr kept ↦ (rw kept r)
    ]

path-IsRunnable :
    (f : Flags) (changed : Changed) (driven : Bool) (c : Config)
    → IsRunnable c
    → IsRunnable (override_path f changed driven c)
unfolding override_path
path-IsRunnable f changed driven c r =
    elim (Bool-cases (not (is_empty f.image_path) && (driven || changed.image_path))) [
      | inl set ↦
          (rw set (
            IsRunnable-image c c.base_image_url c.base_image_sha512 c.base_image_expected_sha256
              f.image_path c.use_hosted_guest_image r (inl (ground arith))))
      | inr kept ↦ (rw kept r)
    ]

hosted-supported :
    (c : Config)
    → is_supported_arch c.arch ≡ true
    → on_ok (hosted_guest_image_url c.arch) c.base_image_url ≡ hosted_url_for c.arch
unfolding hosted_guest_image_url
hosted-supported c a = rw a refl

hosted-IsRunnable :
    (forced : Bool) (c : Config)
    → is_supported_arch c.arch ≡ true
    → IsRunnable c
    → IsRunnable (override_hosted forced c)
unfolding override_hosted
hosted-IsRunnable false c a r = r
hosted-IsRunnable true c a r =
    IsRunnable-image c _ [] [] [] true r
      (inr (subst (λ (u : Text). u ≢ []) (sym (hosted-supported c a)) (λ e. cc)))

debian-IsRunnable :
    (forced : Bool) (c : Config)
    → is_supported_arch c.arch ≡ true
    → IsRunnable c
    → IsRunnable (override_debian forced c)
unfolding override_debian
debian-IsRunnable false c a r = r
debian-IsRunnable true c a r =
    subst (λ (x : Result ConfigError Config). IsRunnable (on_ok x c))
      (sym (use_debian-supported c a)) (IsRunnable-image c _ _ [] [] false r (inr (λ e. cc)))

module _ (public_key private_key : Text) where
  step-IsReady :
      (step : Config → Config) (c : Config)
      → with_keys public_key private_key (step c) ≡ step (with_keys public_key private_key c)
      → (step c).arch ≡ c.arch
      → IsRunnable (step (with_keys public_key private_key c))
      → is_supported_arch c.arch ≡ true
      → IsReady public_key private_key (step c)
  step-IsReady step c commute same r a =
      (subst IsRunnable (sym commute) r, ap is_supported_arch same ∙ a)

  fields-IsReady :
      (f : Flags) (changed : Changed) (driven : Bool) (c : Config)
      → FitsFlags f changed driven
      → IsReady public_key private_key c
      → IsReady public_key private_key (override_fields f changed driven c)
  unfolding override_fields set_ssh_keys
  fields-IsReady f changed driven c fits (r, a) =
      step-IsReady (override_fields f changed driven) c refl refl
        (fields-IsRunnable f changed driven (with_keys public_key private_key c) fits r) a

  url-IsReady :
      (f : Flags) (changed : Changed) (driven : Bool) (c : Config)
      → IsReady public_key private_key c
      → IsReady public_key private_key (override_url f changed driven c)
  unfolding override_url set_ssh_keys
  url-IsReady f changed driven c (r, a) =
      let runs = url-IsRunnable f changed driven (with_keys public_key private_key c) r in
      elim (Bool-cases (not (is_empty f.image_url) && (driven || changed.image_url))) [
        | inl set ↦
            step-IsReady (override_url f changed driven) c (rw set refl) (rw set refl) runs a
        | inr kept ↦
            step-IsReady (override_url f changed driven) c (rw kept refl) (rw kept refl) runs a
      ]

  path-IsReady :
      (f : Flags) (changed : Changed) (driven : Bool) (c : Config)
      → IsReady public_key private_key c
      → IsReady public_key private_key (override_path f changed driven c)
  unfolding override_path set_ssh_keys
  path-IsReady f changed driven c (r, a) =
      let runs = path-IsRunnable f changed driven (with_keys public_key private_key c) r in
      elim (Bool-cases (not (is_empty f.image_path) && (driven || changed.image_path))) [
        | inl set ↦
            step-IsReady (override_path f changed driven) c (rw set refl) (rw set refl) runs a
        | inr kept ↦
            step-IsReady (override_path f changed driven) c (rw kept refl) (rw kept refl) runs a
      ]

  hosted-IsReady :
      (forced : Bool) (c : Config)
      → IsReady public_key private_key c
      → IsReady public_key private_key (override_hosted forced c)
  unfolding override_hosted set_ssh_keys
  hosted-IsReady false c h = h
  hosted-IsReady true c (r, a) =
      step-IsReady (override_hosted true) c refl refl
        (hosted-IsRunnable true (with_keys public_key private_key c) a r) a

  debian-IsReady :
      (forced : Bool) (c : Config)
      → IsReady public_key private_key c
      → IsReady public_key private_key (override_debian forced c)
  unfolding override_debian set_ssh_keys
  debian-IsReady false c h = h
  debian-IsReady true c (r, a) =
      let k = with_keys public_key private_key c in
      let here = ap (λ (x : Result ConfigError Config). on_ok x c) (use_debian-supported c a) in
      let there = ap (λ (x : Result ConfigError Config). on_ok x k) (use_debian-supported k a) in
      step-IsReady (override_debian true) c (ap (with_keys public_key private_key) here ∙ sym there)
        (ap (λ (x : Config). x.arch) here) (debian-IsRunnable true k a r) a

  pub flags-IsReady :
      (env : Env) (f : Flags) (changed : Changed) (driven : Bool) (c : Config)
      → FitsFlags f changed driven
      → IsReady public_key private_key c
      → IsReady public_key private_key (apply_flag_overrides env f changed driven c)
  unfolding apply_flag_overrides
  flags-IsReady env f changed driven c fits h = debian-IsReady (force_debian env f) _ (
      hosted-IsReady (force_hosted env f) _ (
        path-IsReady f changed driven _
          (url-IsReady f changed driven _ (fields-IsReady f changed driven c fits h))))

  pub cartridge-IsReady :
      (b : BootCartridge) (c : Config)
      → IsReady public_key private_key c
      → IsReady public_key private_key (apply_boot_cartridge b c)
  unfolding apply_boot_cartridge root_inside set_ssh_keys
  cartridge-IsReady b c (r, a) = elim (Bool-cases (is_empty b.mountpoint)) [
    | inl absent ↦ (rw absent (r, a))
    | inr there ↦
        (rw there
          (root_inside-IsRunnable b (with_keys public_key private_key c) r (ground arith), a))
  ]
