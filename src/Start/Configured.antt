-- ===== src/Start/Configured.antt =====
-- A start gives a configuration that can be run, or says why not.
use bladerunner.Prelude.{
  Bool-cases, Check, Option, Result, Text, [], arith, codes, contains, err, if◌then◌else◌, inl, inr,
  is_empty, map_err, none, not, ok, refl, some, true, ◌∷◌, ◌≡◌, ◌≢◌, ◌⊎◌,
}
use bladerunner.Prelude.FilePath.Nonempty.{join-ne-nil}
use bladerunner.Prelude.FilePath.{join}
use bladerunner.Config.{Config, app_name}
use bladerunner.Config.Default.{
  Env, default, default_at, default_state_dir, state_dir_under, set_ssh_keys,
}
use bladerunner.Config.Image.{
  is_supported_arch, hosted_guest_image_url, hosted_url_for, resolve_base_image_url,
}
use bladerunner.Config.Validate
use bladerunner.Config.Validate.Runnable.{validate-IsRunnable}
use bladerunner.Config.Settings.{Settings, on_ok, default_settings}
use bladerunner.Config.Settings
use bladerunner.Config.Settings.File.{Json, SettingsFile, FileError, load_settings}
use bladerunner.Config.Settings.File.RoundTrip.{load_settings-valid, default_settings-ok}
use bladerunner.Disk.{Manifest, DiskError}
use bladerunner.Disk
use bladerunner.Disk.Apply
use bladerunner.Disk.Apply.Runnable.{FitsSizes}
use bladerunner.Cartridge.Pack.{apply_boot_cartridge}
use bladerunner.Start.{
  apply_flag_overrides, StartError, manifest_failed, validate_image_override_flags,
  apply_boot_manifest, is_driven, Inputs, overlay_config, start_config,
}
use bladerunner.Start.Override.{IsReady, with_keys, settings-IsReady, manifest-IsReady}
use bladerunner.Start.Ready.{FitsFlags, flags-IsReady, cartridge-IsReady}

state_dir_under-ne-nil : (home : Option Text) → state_dir_under home ≢ []
unfolding state_dir_under join
state_dir_under-ne-nil none =
    join-ne-nil (codes ".") (codes ".local" ∷ codes "state" ∷ app_name ∷ []) (λ e. cc)
state_dir_under-ne-nil (some []) =
    join-ne-nil (codes ".local") (codes "state" ∷ app_name ∷ []) (λ e. cc)
state_dir_under-ne-nil (some (c ∷ home)) =
    join-ne-nil (c ∷ home) (codes ".local" ∷ codes "state" ∷ app_name ∷ []) (λ e. cc)

default_state_dir-ne-nil : (env : Env) → default_state_dir env ≢ []
unfolding default_state_dir
default_state_dir-ne-nil env =
    elim (Bool-cases (not (is_empty (env.getenv (codes "BLADERUNNER_STATE_DIR"))))) [
      | inl set ↦ (rw set (ground arith))
      | inr unset ↦ elim (Bool-cases (not (is_empty (env.getenv (codes "XDG_STATE_HOME"))))) [
        | inl xdg ↦
            (rw unset (rw xdg (join-ne-nil (env.getenv (codes "XDG_STATE_HOME")) _ (ground arith))))
        | inr home ↦ (rw unset (rw home (state_dir_under-ne-nil env.home)))
      ]
    ]

default_at-IsReady :
    (env : Env) (goarch dir url public_key private_key : Text)
    → dir ≢ []
    → url ≢ []
    → is_supported_arch goarch ≡ true
    → contains public_key (codes "ssh-") ≡ true
    → IsReady public_key private_key (default_at env goarch dir url)
unfolding default_at set_ssh_keys
default_at-IsReady env goarch dir url public_key private_key d u a k = (
  record {
    name = λ e. cc;
    hostname = λ e. cc;
    vm_dir = d;
    log_path = join-ne-nil dir _ d;
    ssh_user = λ e. cc;
    ssh_key = k;
    network_mode = inl refl;
    ssh_port = (omega arith, omega arith);
    api_port = (omega arith, omega arith);
    oidc_port = inr (omega arith, omega arith);
    ntp_port = inr (omega arith, omega arith);
    local_ports = ground arith;
    vsock_ports = ground arith;
    vsock_ntp = λ e. ground arith;
    disk_size = omega arith;
    cpus = omega arith;
    memory = omega arith;
    base_image = inr u;
    wait = omega arith;
    share = λ e. absurd (e refl);
  },
  a,
)

resolve-supported :
    (goarch : Text)
    → is_supported_arch goarch ≡ true
    → resolve_base_image_url goarch true ≡ ok (hosted_url_for goarch)
unfolding resolve_base_image_url hosted_guest_image_url
resolve-supported goarch a = rw a refl

dir_of : Env → Text → Text
dir_of env dir = if is_empty dir then default_state_dir env else dir

dir_of-ne-nil : (env : Env) (dir : Text) → dir_of env dir ≢ []
unfolding dir_of
dir_of-ne-nil env [] = default_state_dir-ne-nil env
dir_of-ne-nil env (c ∷ dir) = λ e. cc

default-IsReady :
    (env : Env) (goarch dir public_key private_key : Text)
    → is_supported_arch goarch ≡ true
    → contains public_key (codes "ssh-") ≡ true
    → (c : Config) × (default env goarch dir ≡ ok c) × IsReady public_key private_key c
unfolding default dir_of
default-IsReady env goarch dir public_key private_key a k = (
  default_at env goarch (dir_of env dir) (hosted_url_for goarch),
  (rw (resolve-supported goarch a) refl),
  default_at-IsReady env goarch (dir_of env dir) (hosted_url_for goarch) public_key private_key
      (dir_of-ne-nil env dir) (λ e. cc) a k,
)

loaded-valid :
    (json : Json) (file : SettingsFile) (r : Result FileError Settings)
    → load_settings json file ≡ r
    → Settings.validate_settings (on_ok r default_settings) ≡ ok tt
loaded-valid json file (ok s) h = load_settings-valid json file h
loaded-valid json file (err e) h = default_settings-ok

-- A disk manifest that is laid over a start: none, or one that validates, with sizes that fit.
abbrev pub FitsManifest : Option Manifest → Type 0
FitsManifest none = Unit
FitsManifest (some m) = (Disk.validate m ≡ ok tt) × FitsSizes m.vm

-- The settings that a start takes: those of the file, or the built-in ones where it has none that
-- can be read
abbrev settings_of : Inputs → Settings
settings_of i = on_ok (load_settings i.json i.settings_file) default_settings

-- ApplyTo fails for the manifest, on the default configuration with the settings laid over it.
abbrev pub ManifestFails : Inputs → Option Manifest → Config → StartError → Type 0
ManifestFails i none cfg e = ⊥
ManifestFails i (some m) cfg e =
    (d : DiskError) × (Apply.apply_to i.goarch m (Settings.apply_to (settings_of i) cfg) ≡ err d)
    × (e ≡ manifest_failed d)

manifest-cases :
    (i : Inputs) (o : Option Manifest) (cfg : Config)
    → FitsManifest o
    → IsReady i.public_key i.private_key_path (Settings.apply_to (settings_of i) cfg)
    → ((e : StartError) × ManifestFails i o cfg e
        × (apply_boot_manifest i.goarch o (Settings.apply_to (settings_of i) cfg) ≡ err e))
      ⊎ ((d : Config) × (apply_boot_manifest i.goarch o (Settings.apply_to (settings_of i) cfg)
            ≡ ok d)
          × IsReady i.public_key i.private_key_path d)
unfolding apply_boot_manifest
manifest-cases i none cfg fits r = inr (Settings.apply_to (settings_of i) cfg, refl, r)
manifest-cases i (some m) cfg fits r =
    go (Apply.apply_to i.goarch m (Settings.apply_to (settings_of i) cfg)) refl
  where
    go :
        (x : Result DiskError Config)
        → Apply.apply_to i.goarch m (Settings.apply_to (settings_of i) cfg) ≡ x
        → ((e : StartError) × ManifestFails i (some m) cfg e × (map_err manifest_failed x ≡ err e))
          ⊎ ((d : Config) × (map_err manifest_failed x ≡ ok d)
              × IsReady i.public_key i.private_key_path d)
    go (ok d) h = inr (
      d,
      refl,
      manifest-IsReady i.public_key i.private_key_path i.goarch m
          (Settings.apply_to (settings_of i) cfg) fits.0 fits.1 h r,
    )
    go (err e) h = inl (manifest_failed e, (e, h, refl), refl)

-- What overlay_config gives of a ready configuration
abbrev Overlays : Inputs → Config → Type 0
Overlays i cfg =
    ((e : StartError) × ManifestFails i i.manifest cfg e × (overlay_config i cfg ≡ err e))
    ⊎ ((c : Config) × (overlay_config i cfg ≡ ok c) × (Validate.validate c ≡ ok tt))

overlay_config-valid :
    (i : Inputs) (cfg : Config)
    → FitsManifest i.manifest
    → FitsFlags i.flags i.changed (is_driven i.manifest i.cartridge)
    → IsReady i.public_key i.private_key_path cfg
    → Overlays i cfg
unfolding overlay_config
overlay_config-valid i cfg fits flags r =
    let s = on_ok (load_settings i.json i.settings_file) default_settings in
    let ready =
      settings-IsReady i.public_key i.private_key_path s cfg
        (loaded-valid i.json i.settings_file (load_settings i.json i.settings_file) refl) r in
    elim (manifest-cases i i.manifest cfg fits ready) [
      | inl (e, fails, h) ↦ inl (e, fails, (rw h refl))
      | inr (d, h, imaged) ↦
          (let set =
              flags-IsReady i.public_key i.private_key_path i.env i.flags i.changed
                (is_driven i.manifest i.cartridge) d flags imaged in
            let flagged =
              apply_flag_overrides i.env i.flags i.changed (is_driven i.manifest i.cartridge) d in
            let rooted =
              cartridge-IsReady i.public_key i.private_key_path i.cartridge flagged set in
            let final =
              with_keys i.public_key i.private_key_path
                (apply_boot_cartridge i.cartridge flagged) in
            inr (final, (rw h refl), (validate-IsRunnable final).1 rooted.0))
    ]

abbrev pub StartsValid : Inputs → Type 0
StartsValid i =
    ((e : StartError) × (validate_image_override_flags i.env i.flags ≡ err e)
      × (start_config i ≡ err e))
    ⊎ ((cfg : Config) × (e : StartError) × (default i.env i.goarch i.flags.state_dir ≡ ok cfg)
        × ManifestFails i i.manifest cfg e
        × (start_config i ≡ err e))
    ⊎ ((c : Config) × (start_config i ≡ ok c) × (Validate.validate c ≡ ok tt))

-- A start on an architecture that has images, with an SSH key, a manifest that validates and fits,
-- or none, flags that are large enough where they apply, and any settings file, ends in one of
-- three ways: the image flags contradict each other and it says so; ApplyTo of the manifest
-- fails on the default configuration with the settings laid over it, and the start reports that
-- failure; or it gives a configuration that validates. No other check on the way fails.
pub start_config-valid :
    (i : Inputs)
    → is_supported_arch i.goarch ≡ true
    → contains i.public_key (codes "ssh-") ≡ true
    → FitsManifest i.manifest
    → FitsFlags i.flags i.changed (is_driven i.manifest i.cartridge)
    → StartsValid i
unfolding start_config
start_config-valid i a k fits flags = go (validate_image_override_flags i.env i.flags) refl
  where
    go : (x : Check StartError) → validate_image_override_flags i.env i.flags ≡ x → StartsValid i
    go (err e) h = inl (e, h, (rw h refl))
    go (ok _) h =
        let (cfg, there, ready) =
          default-IsReady i.env i.goarch i.flags.state_dir i.public_key i.private_key_path a k in
        elim (overlay_config-valid i cfg fits flags ready) [
          | inl (e, fails, o) ↦ inr (inl (cfg, e, there, fails, (rw h (rw there (rw o refl)))))
          | inr (c, o, v) ↦ inr (inr (c, (rw h (rw there (rw o (rw v refl)))), v))
        ]
