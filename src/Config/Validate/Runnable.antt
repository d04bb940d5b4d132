-- ===== src/Config/Validate/Runnable.antt =====
-- A declarative reading of the checks of `Validate`.
use bladerunner.Prelude.{
  >>-eq-ok, AtLeast, AtMost, Bool, Text, [], arith, codes, contains, false, int_eq_iff, negsuc, ok,
  pos, text_eq_iff, true, ℕ, ℤ, ◌↔◌, ◌≡◌, ◌≢◌, ◌≤◌, ◌⊎◌,
}
use bladerunner.Config.{
  Config, network_mode_shared, network_mode_bridged, min_disk_size_gib, second,
}
use bladerunner.Config.Validate.{
  validate_required_fields, validate_modes, validate_ports, validate_sizes, validate, out_of_range,
}

abbrev pub InRange : ℤ → Type 0
InRange p = AtLeast 1 p × AtMost 65535 p

-- What the runner needs of a configuration, without reference to the order of the checks.
pub record IsRunnable (c : Config) : Type 0 where
  pub name : c.name ≢ []
  pub hostname : c.hostname ≢ []
  pub vm_dir : c.vm_dir ≢ []
  pub log_path : c.log_path ≢ []
  pub ssh_user : c.ssh_user ≢ []
  pub ssh_key : contains c.ssh_public_key (codes "ssh-") ≡ true
  pub network_mode :
      (c.network_mode ≡ network_mode_shared) ⊎ (c.network_mode ≡ network_mode_bridged)
  pub ssh_port : InRange c.local_ssh_port
  pub api_port : InRange c.local_api_port
  pub oidc_port : (c.local_oidc_port ≡ pos 0) ⊎ InRange c.local_oidc_port
  pub ntp_port : (c.local_ntp_port ≡ pos 0) ⊎ InRange c.local_ntp_port
  pub local_ports : c.local_ssh_port ≢ c.local_api_port
  pub vsock_ports : c.vsock_ssh_port ≢ c.vsock_api_port
  pub vsock_ntp :
      c.vsock_ntp_port ≢ 0
      → (c.vsock_ntp_port ≢ c.vsock_ssh_port)
        × (c.vsock_ntp_port ≢ c.vsock_api_port)
        × (c.vsock_ntp_port ≢ c.vsock_oidc_port)
  pub disk_size : AtLeast min_disk_size_gib c.disk_size_gib
  pub cpus : 1 ≤ c.cpus
  pub memory : 2 ≤ c.memory_gib
  pub base_image : (c.base_image_path ≢ []) ⊎ (c.base_image_url ≢ [])
  pub wait : AtLeast second c.wait_for_incus
  pub share : c.share_dir ≢ [] → c.share_tag ≢ []

Required : Config → Type 0
Required c =
    (c.name ≢ [])
    × (c.hostname ≢ [])
    × (c.vm_dir ≢ [])
    × (c.log_path ≢ [])
    × (c.ssh_user ≢ [])
    × (contains c.ssh_public_key (codes "ssh-") ≡ true)

Required-fields_ok : (c : Config) → validate_required_fields c ≡ ok tt → Required c
unfolding validate_required_fields Required
Required-fields_ok c h = ground arith

ssh_key_ne_nil : (t : Text) → contains t (codes "ssh-") ≡ true → t ≢ []
unfolding contains
ssh_key_ne_nil t h = ground arith

ok-Required_fields : (c : Config) → Required c → validate_required_fields c ≡ ok tt
unfolding validate_required_fields Required
ok-Required_fields c h = ground (arith, ssh_key_ne_nil c.ssh_public_key)

abbrev KnownMode : Config → Type 0
KnownMode c = (c.network_mode ≡ network_mode_shared) ⊎ (c.network_mode ≡ network_mode_bridged)

validate_modes_iff : (c : Config) → (validate_modes c ≡ ok tt) ↔ KnownMode c
unfolding validate_modes
validate_modes_iff c = (
  λ h. ground (
    arith,
    text_eq_iff c.network_mode network_mode_shared,
    text_eq_iff c.network_mode network_mode_bridged,
  ),
  λ h. ground (
    arith,
    text_eq_iff c.network_mode network_mode_shared,
    text_eq_iff c.network_mode network_mode_bridged,
  ),
)

abbrev NtpPortFree : Config → Type 0
NtpPortFree c =
    c.vsock_ntp_port ≢ 0
    → (c.vsock_ntp_port ≢ c.vsock_ssh_port)
      × (c.vsock_ntp_port ≢ c.vsock_api_port)
      × (c.vsock_ntp_port ≢ c.vsock_oidc_port)

Ports : Config → Type 0
Ports c =
    InRange c.local_ssh_port
    × InRange c.local_api_port
    × ((c.local_oidc_port ≡ pos 0) ⊎ InRange c.local_oidc_port)
    × ((c.local_ntp_port ≡ pos 0) ⊎ InRange c.local_ntp_port)
    × (c.local_ssh_port ≢ c.local_api_port)
    × (c.vsock_ssh_port ≢ c.vsock_api_port)
    × NtpPortFree c

InRange-iff : (p : ℤ) → (out_of_range p ≡ false) ↔ InRange p
unfolding out_of_range
InRange-iff (pos n) = (λ h. ground arith, λ h. ground arith)
InRange-iff (negsuc n) = (λ h. cc, λ h. absurd h.0)

Ports-ok : (c : Config) → validate_ports c ≡ ok tt → Ports c
unfolding validate_ports Ports
Ports-ok c h = ground (
  arith,
  InRange-iff c.local_ssh_port,
  InRange-iff c.local_api_port,
  InRange-iff c.local_oidc_port,
  InRange-iff c.local_ntp_port,
  int_eq_iff c.local_oidc_port (pos 0),
  int_eq_iff c.local_ntp_port (pos 0),
  int_eq_iff c.local_ssh_port c.local_api_port,
)

ok-Ports : (c : Config) → Ports c → validate_ports c ≡ ok tt
unfolding validate_ports Ports
ok-Ports c h = ground (
  arith,
  InRange-iff c.local_ssh_port,
  InRange-iff c.local_api_port,
  InRange-iff c.local_oidc_port,
  InRange-iff c.local_ntp_port,
  int_eq_iff c.local_oidc_port (pos 0),
  int_eq_iff c.local_ntp_port (pos 0),
  int_eq_iff c.local_ssh_port c.local_api_port,
)

Sizes : Config → Type 0
Sizes c =
    AtLeast min_disk_size_gib c.disk_size_gib
    × (1 ≤ c.cpus)
    × (2 ≤ c.memory_gib)
    × ((c.base_image_path ≢ []) ⊎ (c.base_image_url ≢ []))
    × AtLeast second c.wait_for_incus
    × (c.share_dir ≢ [] → c.share_tag ≢ [])

Sizes-ok : (c : Config) → validate_sizes c ≡ ok tt → Sizes c
unfolding validate_sizes Sizes
Sizes-ok c h = ground arith

ok-Sizes : (c : Config) → Sizes c → validate_sizes c ≡ ok tt
unfolding validate_sizes Sizes
ok-Sizes c h = ground arith

IsRunnable-of : (c : Config) → Required c → KnownMode c → Ports c → Sizes c → IsRunnable c
unfolding Required Ports Sizes
IsRunnable-of c r m p z = record {
  name = r.0;
  hostname = r.1;
  vm_dir = r.2;
  log_path = r.3;
  ssh_user = r.4;
  ssh_key = r.5;
  network_mode = m;
  ssh_port = p.0;
  api_port = p.1;
  oidc_port = p.2;
  ntp_port = p.3;
  local_ports = p.4;
  vsock_ports = p.5;
  vsock_ntp = p.6;
  disk_size = z.0;
  cpus = z.1;
  memory = z.2;
  base_image = z.3;
  wait = z.4;
  share = z.5;
}

validate_sound : (c : Config) → validate c ≡ ok tt → IsRunnable c
unfolding validate
validate_sound c h =
    let (r, h₁) = >>-eq-ok (validate_required_fields c) _ h in
    let (m, h₂) = >>-eq-ok (validate_modes c) _ h₁ in
    let (p, z) = >>-eq-ok (validate_ports c) _ h₂ in
    IsRunnable-of c (Required-fields_ok c r) ((validate_modes_iff c).0 m) (Ports-ok c p)
      (Sizes-ok c z)

validate_complete : (c : Config) → IsRunnable c → validate c ≡ ok tt
unfolding validate Required Ports Sizes
validate_complete c v =
    rw (ok-Required_fields c (v.name, v.hostname, v.vm_dir, v.log_path, v.ssh_user, v.ssh_key)) (
      rw ((validate_modes_iff c).1 v.network_mode) (
        rw
          (ok-Ports c (
            v.ssh_port, v.api_port, v.oidc_port, v.ntp_port, v.local_ports, v.vsock_ports,
            v.vsock_ntp,
          ))
          (ok-Sizes c (v.disk_size, v.cpus, v.memory, v.base_image, v.wait, v.share))))

-- `Validate` returns no error exactly for the runnable configurations.
pub validate-IsRunnable : (c : Config) → (validate c ≡ ok tt) ↔ IsRunnable c
validate-IsRunnable c = (validate_sound c, validate_complete c)

-- Other image fields, some image still named, leave a configuration runnable.
pub IsRunnable-image :
    (c : Config) (url sha512 sha256 path : Text) (prebaked : Bool)
    → IsRunnable c
    → (path ≢ []) ⊎ (url ≢ [])
    → IsRunnable (record c {
      base_image_url = url;
      base_image_sha512 = sha512;
      base_image_expected_sha256 = sha256;
      base_image_path = path;
      use_hosted_guest_image = prebaked;
    })
IsRunnable-image c url sha512 sha256 path prebaked r h = record {
  name = r.name;
  hostname = r.hostname;
  vm_dir = r.vm_dir;
  log_path = r.log_path;
  ssh_user = r.ssh_user;
  ssh_key = r.ssh_key;
  network_mode = r.network_mode;
  ssh_port = r.ssh_port;
  api_port = r.api_port;
  oidc_port = r.oidc_port;
  ntp_port = r.ntp_port;
  local_ports = r.local_ports;
  vsock_ports = r.vsock_ports;
  vsock_ntp = r.vsock_ntp;
  disk_size = r.disk_size;
  cpus = r.cpus;
  memory = r.memory;
  base_image = h;
  wait = r.wait;
  share = r.share;
}

-- Other sizes, large enough, leave a configuration runnable.
pub IsRunnable-sizes :
    (c : Config) (disk : ℤ) (cores memory : ℕ) (window : Bool)
    → IsRunnable c
    → AtLeast min_disk_size_gib disk
    → 1 ≤ cores
    → 2 ≤ memory
    → IsRunnable
        (record c { disk_size_gib = disk; gui = window; cpus = cores; memory_gib = memory })
IsRunnable-sizes c disk cores memory window r d n m = record {
  name = r.name;
  hostname = r.hostname;
  vm_dir = r.vm_dir;
  log_path = r.log_path;
  ssh_user = r.ssh_user;
  ssh_key = r.ssh_key;
  network_mode = r.network_mode;
  ssh_port = r.ssh_port;
  api_port = r.api_port;
  oidc_port = r.oidc_port;
  ntp_port = r.ntp_port;
  local_ports = r.local_ports;
  vsock_ports = r.vsock_ports;
  vsock_ntp = r.vsock_ntp;
  disk_size = d;
  cpus = n;
  memory = m;
  base_image = r.base_image;
  wait = r.wait;
  share = r.share;
}
