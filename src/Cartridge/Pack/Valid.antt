-- ===== src/Cartridge/Pack/Valid.antt =====
-- A packed disk can be booted.
use bladerunner.Prelude.{
  Option, Text, [], arith, has_prefix, inl, inr, none, ok, refl, some, subst, sym, true, ◌∷◌, ◌≡◌,
  ◌≢◌,
}
use bladerunner.Prelude.FilePath.{join}
use bladerunner.Prelude.FilePath.Nonempty.{join-ne-nil}
use bladerunner.Config.{Config}
use bladerunner.Config.Validate
use bladerunner.Config.Validate.Runnable.{IsRunnable, validate-IsRunnable}
use bladerunner.Disk.{Manifest, ShareSpec, contains_any, validate}
use bladerunner.Disk.Name.{valid_name}
use bladerunner.Disk.WellFormed.{
  IsWellFormed, ShareIsSound, local_path, validate-IsWellFormed, valid_name_iff,
}
use bladerunner.Cartridge.Pack.{
  cartridge_manifest, share_or_default, manifest_share_tag, manifest_share_guest_path, share_tag_of,
  share_guest_path_of, BootCartridge, root_inside, apply_boot_cartridge, root_img, or_default,
}

share_or_default-ShareIsSound :
    (s : Option ShareSpec) → ShareIsSound s → ShareIsSound (some (share_or_default s))
unfolding has_prefix contains_any
share_or_default-ShareIsSound none h = (inr refl, inr refl)
share_or_default-ShareIsSound (some s) h = h

cartridge_manifest-IsWellFormed :
    (m : Manifest) (name : Text)
    → IsWellFormed m
    → valid_name name ≡ true
    → IsWellFormed (cartridge_manifest m name)
unfolding cartridge_manifest
cartridge_manifest-IsWellFormed m name w h = record {
  name = (valid_name_iff name).0 h;
  mode = w.mode;
  share = share_or_default-ShareIsSound m.share w.share;
  source = local_path refl (λ e. cc) refl;
}

or_default-ne-nil : (s default : Text) → default ≢ [] → or_default s default ≢ []
or_default-ne-nil [] default h = h
or_default-ne-nil (c ∷ s) default h = λ e. cc

share_tag-ne-nil : (m : Manifest) → manifest_share_tag m ≢ []
unfolding manifest_share_tag
share_tag-ne-nil m = go m.share
  where
    go : (s : Option ShareSpec) → share_tag_of s ≢ []
    go none = λ e. cc
    go (some s) = or_default-ne-nil s.tag _ (λ e. cc)

pub root_inside-IsRunnable :
    (b : BootCartridge) (cfg : Config)
    → IsRunnable cfg
    → b.mountpoint ≢ []
    → IsRunnable (root_inside b cfg)
unfolding root_inside
root_inside-IsRunnable b cfg r h = record {
  name = r.name;
  hostname = r.hostname;
  vm_dir = r.vm_dir;
  log_path = r.log_path;
  ssh_user = r.ssh_user;
  ssh_key = r.ssh_key;
  network_mode = r.network_mode;
  ssh_port = r.ssh_port;
  api_port = r.api_port;
  oidc_port = r.oidc_port;
  ntp_port = r.ntp_port;
  local_ports = r.local_ports;
  vsock_ports = r.vsock_ports;
  vsock_ntp = r.vsock_ntp;
  disk_size = r.disk_size;
  cpus = r.cpus;
  memory = r.memory;
  base_image = inl (join-ne-nil b.mountpoint (root_img ∷ []) h);
  wait = r.wait;
  share = λ _. share_tag-ne-nil b.manifest;
}

apply-eq-root_inside :
    (b : BootCartridge) (cfg : Config)
    → b.mountpoint ≢ []
    → apply_boot_cartridge b cfg ≡ root_inside b cfg
unfolding apply_boot_cartridge
apply-eq-root_inside b cfg h = ground arith

share_tag_of-packed :
    (s : Option ShareSpec) → share_tag_of (some (share_or_default s)) ≡ share_tag_of s
share_tag_of-packed none = refl
share_tag_of-packed (some s) = refl

share_guest_path_of-packed :
    (s : Option ShareSpec) → share_guest_path_of (some (share_or_default s)) ≡ share_guest_path_of s
share_guest_path_of-packed none = refl
share_guest_path_of-packed (some s) = refl

-- What a boot of a packed disk finds: the manifest in the cartridge validates, the configuration
-- is rooted in the mountpoint, and it has the share of the disk.
abbrev pub Boots : Manifest → BootCartridge → Config → Type 0
Boots m b c =
    (validate b.manifest ≡ ok tt)
    × (Validate.validate c ≡ ok tt)
    × (c.base_image_path ≡ join (b.mountpoint ∷ root_img ∷ []))
    × (c.disk_path ≡ c.base_image_path)
    × (c.share_tag ≡ manifest_share_tag m)
    × (c.share_guest_path ≡ manifest_share_guest_path m)

-- A boot of the disk packed under a name, from a mountpoint
abbrev pub booted : Manifest → Text → Text → Text → BootCartridge
booted m name mountpoint copy = record {
  mountpoint = mountpoint;
  manifest = cartridge_manifest m name;
  name = name;
  working_copy = copy;
}

root_inside-Boots :
    (m : Manifest) (name mountpoint copy : Text) (cfg : Config)
    → IsWellFormed m
    → valid_name name ≡ true
    → IsRunnable cfg
    → mountpoint ≢ []
    → Boots m (booted m name mountpoint copy) (root_inside (booted m name mountpoint copy) cfg)
unfolding root_inside cartridge_manifest manifest_share_tag manifest_share_guest_path
root_inside-Boots m name mountpoint copy cfg w legal r h = (
  (validate-IsWellFormed (cartridge_manifest m name)).1
      (cartridge_manifest-IsWellFormed m name w legal),
  (validate-IsRunnable _).1 (root_inside-IsRunnable (booted m name mountpoint copy) cfg r h),
  refl,
  refl,
  share_tag_of-packed m.share,
  share_guest_path_of-packed m.share,
)

-- A disk whose manifest validates, packed under a legal name, can be booted: the manifest in the
-- cartridge validates, and a configuration that validates, rooted in a mountpoint that is not
-- empty, still validates; its base image and its disk are the root.img there, and its share has
-- the tag and the guest path of the disk's manifest, or the defaults.
pub apply_boot_cartridge-Boots :
    (m : Manifest) (name mountpoint copy : Text) (cfg : Config)
    → validate m ≡ ok tt
    → valid_name name ≡ true
    → Validate.validate cfg ≡ ok tt
    → mountpoint ≢ []
    → Boots m
        (booted m name mountpoint copy)
        (apply_boot_cartridge (booted m name mountpoint copy) cfg)
apply_boot_cartridge-Boots m name mountpoint copy cfg valid legal runs h =
    let b = booted m name mountpoint copy in
    subst (Boots m b) (sym (apply-eq-root_inside b cfg h)) (
      root_inside-Boots m name mountpoint copy cfg ((validate-IsWellFormed m).0 valid) legal
        ((validate-IsRunnable cfg).0 runs) h)
