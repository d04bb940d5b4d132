-- ===== src/Start/Override.antt =====
-- The overlays of a start keep a configuration runnable, with the keys that are set last.
use bladerunner.Prelude.{
  >>=-eq-ok, Bool-cases, Option, Result, Text, [], ap, err, false, inl, inr, is_empty, length, ltb,
  none, not, ok, ok-injective, refl, some, subst, sym, true, ◌∙◌, ◌≡◌,
}
use bladerunner.Config.{Config, ConfigError}
use bladerunner.Config.Default.{set_ssh_keys}
use bladerunner.Config.Image.{
  is_supported_arch, hosted_guest_image_url, use_debian_image, debian_trixie_url, debian_url_for,
  debian_trixie_sha512,
}
use bladerunner.Config.Validate.Runnable.{IsRunnable, validate-IsRunnable}
use bladerunner.Config.Validate
use bladerunner.Config.Settings.{
  Settings, ImageKind, hosted, debian, custom_url, local_path, unknown, ImageSource, on_ok,
  apply_image, apply_fields,
}
use bladerunner.Config.Settings
use bladerunner.Config.Settings.Overlay.{validate-apply_to}
use bladerunner.Disk.{Manifest, ImageSpec, ArchImage, DiskError}
use bladerunner.Disk
use bladerunner.Disk.Apply
use bladerunner.Disk.Apply.Runnable.{FitsSizes, validate-apply_manifest}

abbrev pub debian_config : Config → Config
debian_config c = record c {
  base_image_url = debian_url_for c.arch;
  base_image_sha512 = debian_trixie_sha512 c.arch;
  base_image_expected_sha256 = [];
  base_image_path = [];
  use_hosted_guest_image = false;
}

pub use_debian-supported :
    (c : Config) → is_supported_arch c.arch ≡ true → use_debian_image c ≡ ok (debian_config c)
unfolding use_debian_image debian_trixie_url
use_debian-supported c a = rw a refl

module _ (public_key private_key : Text) where
  abbrev pub with_keys : Config → Config
  with_keys c = set_ssh_keys c public_key private_key

  -- The configuration, with the keys, can be run, on an architecture that has images.
  abbrev pub IsReady : Config → Type 0
  IsReady c = IsRunnable (with_keys c) × (is_supported_arch c.arch ≡ true)

  with_keys-fields :
      (s : Settings) (c : Config) → with_keys (apply_fields s c) ≡ apply_fields s (with_keys c)
  unfolding set_ssh_keys apply_fields
  with_keys-fields s c = refl

  with_keys-image :
      (k : ImageKind) (s : ImageSource) (c : Config)
      → is_supported_arch c.arch ≡ true
      → with_keys (apply_image k s c) ≡ apply_image k s (with_keys c)
  unfolding set_ssh_keys apply_image
  with_keys-image hosted s c a = refl
  with_keys-image debian s c a =
      ap (λ (r : Result ConfigError Config). with_keys (on_ok r c)) (use_debian-supported c a)
      ∙ sym (
          ap (λ (r : Result ConfigError Config). on_ok r (with_keys c))
            (use_debian-supported (with_keys c) a))
  with_keys-image custom_url s c a = refl
  with_keys-image local_path s c a = refl
  with_keys-image (unknown t) s c a = refl

  image-arch :
      (k : ImageKind) (s : ImageSource) (c : Config)
      → is_supported_arch c.arch ≡ true
      → (apply_image k s c).arch ≡ c.arch
  unfolding apply_image
  image-arch hosted s c a = refl
  image-arch debian s c a =
      ap (λ (r : Result ConfigError Config). (on_ok r c).arch) (use_debian-supported c a)
  image-arch custom_url s c a = refl
  image-arch local_path s c a = refl
  image-arch (unknown t) s c a = refl

  pub settings-IsReady :
      (s : Settings) (c : Config)
      → Settings.validate_settings s ≡ ok tt
      → IsReady c
      → IsReady (Settings.apply_to s c)
  unfolding Settings.apply_to apply_fields set_ssh_keys
  settings-IsReady s c v (r, a) =
      let fields = apply_fields s c in
      let commute = with_keys-image s.image.kind s.image fields a in
      let runs : Validate.validate (Settings.apply_to s (with_keys c)) ≡ ok tt =
        validate-apply_to s (with_keys c) a v ((validate-IsRunnable (with_keys c)).1 r) in
      (
        subst IsRunnable (sym commute) ((validate-IsRunnable _).0 runs),
        ap is_supported_arch (image-arch s.image.kind s.image fields a) ∙ a,
      )

  keyed_result : Result DiskError Config → Result DiskError Config
  keyed_result (ok c) = ok (with_keys c)
  keyed_result (err e) = err e

  with_keys-hosted :
      (arch : Text) (url : Result ConfigError Text) (c : Config)
      → Apply.use_hosted arch url (with_keys c) ≡ keyed_result (Apply.use_hosted arch url c)
  unfolding keyed_result Apply.use_hosted set_ssh_keys
  with_keys-hosted arch (ok url) c = refl
  with_keys-hosted arch (err e) c = refl

  with_keys-arch :
      (arch : Text) (o : Option ArchImage) (c : Config)
      → Apply.use_arch arch o (with_keys c) ≡ keyed_result (Apply.use_arch arch o c)
  unfolding keyed_result Apply.use_arch set_ssh_keys
  with_keys-arch arch none c = refl
  with_keys-arch arch (some a) c = refl

  with_keys-source :
      (arch : Text) (i : ImageSpec) (c : Config)
      → Apply.apply_image arch i (with_keys c) ≡ keyed_result (Apply.apply_image arch i c)
  unfolding keyed_result Apply.apply_image set_ssh_keys
  with_keys-source arch i c = elim (Bool-cases i.hosted) [
    | inl h ↦ (rw h (with_keys-hosted arch (hosted_guest_image_url arch) c))
    | inr h ↦ elim (Bool-cases (not (is_empty i.path))) [
      | inl p ↦ (rw h (rw p refl))
      | inr p ↦ elim (Bool-cases (ltb 0 (length i.arches))) [
        | inl l ↦ (rw h (rw p (rw l (with_keys-arch arch (Apply.lookup_arch arch i.arches) c))))
        | inr l ↦ (rw h (rw p (rw l refl)))
      ]
    ]
  ]

  with_keys-manifest :
      (goarch : Text) (m : Manifest) (c : Config) {d : Config}
      → Apply.apply_to goarch m c ≡ ok d
      → Apply.apply_to goarch m (with_keys c) ≡ ok (with_keys d)
  unfolding Apply.apply_to Apply.apply_sizes set_ssh_keys keyed_result
  with_keys-manifest goarch m c {d} h =
      let arch = Apply.effective_arch goarch c in
      let (imaged, e₁, e₂) = >>=-eq-ok (Apply.apply_image arch m.image c) _ h in
      let there : Apply.apply_image arch m.image (with_keys c) ≡ ok (with_keys imaged) =
        with_keys-source arch m.image c ∙ ap keyed_result e₁ in
      (rw there (ap keyed_result e₂))

  use_hosted-kept :
      (arch : Text) (url : Result ConfigError Text) (c : Config) {d : Config}
      → Apply.use_hosted arch url c ≡ ok d
      → d.arch ≡ c.arch
  unfolding Apply.use_hosted
  use_hosted-kept arch (ok url) c h = sym (ap (λ (x : Config). x.arch) (ok-injective h))
  use_hosted-kept arch (err e) c h = cc

  use_arch-kept :
      (arch : Text) (o : Option ArchImage) (c : Config) {d : Config}
      → Apply.use_arch arch o c ≡ ok d
      → d.arch ≡ c.arch
  unfolding Apply.use_arch
  use_arch-kept arch none c h = cc
  use_arch-kept arch (some a) c h = sym (ap (λ (x : Config). x.arch) (ok-injective h))

  source-arch :
      (arch : Text) (i : ImageSpec) (c : Config) {d : Config}
      → Apply.apply_image arch i c ≡ ok d
      → d.arch ≡ c.arch
  unfolding Apply.apply_image
  source-arch arch i c h = elim (Bool-cases i.hosted) [
    | inl e ↦ use_hosted-kept arch (hosted_guest_image_url arch) c (rw e at h)
    | inr e ↦ elim (Bool-cases (not (is_empty i.path))) [
      | inl p ↦
          let k = rw e at h in
          let l = rw p at k in sym (ap (λ (x : Config). x.arch) (ok-injective l))
      | inr p ↦ elim (Bool-cases (ltb 0 (length i.arches))) [
        | inl l ↦
            let k = rw e at h in
            let n = rw p at k in use_arch-kept arch (Apply.lookup_arch arch i.arches) c (rw l at n)
        | inr l ↦ let k = rw e at h in let n = rw p at k in let o = rw l at n in cc
      ]
    ]
  ]

  pub manifest-IsReady :
      (goarch : Text) (m : Manifest) (c : Config) {d : Config}
      → Disk.validate m ≡ ok tt
      → FitsSizes m.vm
      → Apply.apply_to goarch m c ≡ ok d
      → IsReady c
      → IsReady d
  unfolding Apply.apply_to Apply.apply_sizes
  manifest-IsReady goarch m c {d} v fits h (r, a) =
      let runs : Validate.validate (with_keys d) ≡ ok tt =
        validate-apply_manifest goarch m (with_keys c) v fits
          ((validate-IsRunnable (with_keys c)).1 r) (with_keys-manifest goarch m c h) in
      let arch = Apply.effective_arch goarch c in
      let (imaged, e₁, e₂) = >>=-eq-ok (Apply.apply_image arch m.image c) _ h in
      let kept : d.arch ≡ c.arch =
        sym (ap (λ (x : Config). x.arch) (ok-injective e₂)) ∙ source-arch arch m.image c e₁ in
      ((validate-IsRunnable (with_keys d)).0 runs, ap is_supported_arch kept ∙ a)
