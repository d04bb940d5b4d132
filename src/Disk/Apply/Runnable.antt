-- ===== src/Disk/Apply/Runnable.antt =====
-- When the configuration that `ApplyTo` gives can be run.
use bladerunner.Prelude.{
  >>=-eq-ok, All, AtLeast, Bool-cases, List, Option, Result, Text, [], arith, false, if◌then◌else◌,
  inl, inr, int_gt, negsuc, none, ok, pos, refl, some, subst, sym, true, ℕ, ℤ, ◌∙◌, ◌≡◌, ◌≤◌, ◌⊎◌,
}
use bladerunner.Config.{Config, min_disk_size_gib}
use bladerunner.Config.Validate.{validate as validate_config}
use bladerunner.Config.Validate.Runnable.{
  IsRunnable, IsRunnable-image, IsRunnable-sizes, validate-IsRunnable,
}
use bladerunner.Disk.{DiskError, Manifest, VmSpec, ImageSpec, ArchImage, validate}
use bladerunner.Disk.WellFormed.{
  Source, hosted, local_path, per_arch, IsArtifact, validate-IsWellFormed,
}
use bladerunner.Disk.Apply.Outcome.{
  apply_image-hosted, apply_image-path, apply_image-arches, lookup_arch-IsArtifact,
}
use bladerunner.Disk.Apply.{
  effective_arch, apply_image, apply_sizes, apply_to, use_hosted, use_arch, lookup_arch,
}
use bladerunner.Config.Image.{is_supported_arch, hosted_guest_image_url, hosted_url_for}

-- A size is left to the default, or is large enough.
abbrev pub SizeFits : ℕ → ℤ → Type 0
SizeFits n (pos a) = (a ≡ 0) ⊎ (n ≤ a)
SizeFits n (negsuc a) = Unit

pub record FitsSizes (vm : VmSpec) : Type 0 where
  pub memory : SizeFits 2 (pos vm.memory_gib)
  pub disk : SizeFits min_disk_size_gib vm.disk_size_gib

disk-SizeFits :
    (z old : ℤ) → SizeFits 16 z → AtLeast 16 old → AtLeast 16 (if int_gt z 0 then z else old)
disk-SizeFits (pos a) old h k = ground arith
disk-SizeFits (negsuc a) old h k = k

abbrev release : Config → Text → Config
release c url = record c {
  use_hosted_guest_image = true;
  base_image_url = url;
  base_image_path = [];
  base_image_sha512 = [];
  base_image_expected_sha256 = [];
}

release_eq :
    (c : Config) (url : Text) {d : Config}
    → ◌≡◌ {A = Result DiskError Config} (ok (release c url)) (ok d)
    → release c url ≡ d
release_eq c url h = cc

use_hosted-IsRunnable :
    (arch : Text) (c : Config) {d : Config}
    → use_hosted arch (hosted_guest_image_url arch) c ≡ ok d
    → IsRunnable c
    → IsRunnable d
unfolding use_hosted hosted_guest_image_url
use_hosted-IsRunnable arch c {d} e r = elim (Bool-cases (is_supported_arch arch)) [
  | inl s ↦
      let q = rw s at e in
      subst IsRunnable (release_eq c (hosted_url_for arch) q)
        (IsRunnable-image c (hosted_url_for arch) [] [] [] true r (inr (λ z. cc)))
  | inr u ↦ absurd (let q = rw u at e in cc)
]

use_arch-IsRunnable :
    (arch : Text) (l : List (Text × ArchImage)) (c : Config) (o : Option ArchImage) {d : Config}
    → lookup_arch arch l ≡ o
    → All IsArtifact l
    → use_arch arch o c ≡ ok d
    → IsRunnable c
    → IsRunnable d
unfolding use_arch
use_arch-IsRunnable arch l c none f h e r = cc
use_arch-IsRunnable arch l c (some a) {d} f h e r =
    let p : record c {
      use_hosted_guest_image = false;
      base_image_url = a.url;
      base_image_path = [];
      base_image_sha512 = [];
      base_image_expected_sha256 = a.sha256;
    }
        ≡ d =
      cc in
    subst IsRunnable p
      (IsRunnable-image c a.url [] a.sha256 [] false r (inr (lookup_arch-IsArtifact arch l h f).0))

apply_image-IsRunnable :
    (arch : Text) (i : ImageSpec) (c : Config) {d : Config}
    → Source i
    → apply_image arch i c ≡ ok d
    → IsRunnable c
    → IsRunnable d
apply_image-IsRunnable arch i c (hosted h p a) e r =
    use_hosted-IsRunnable arch c (sym (apply_image-hosted arch i c h) ∙ e) r
apply_image-IsRunnable arch i c {d} (local_path h p a) e r =
    let q : ok (record c { base_image_path = i.path }) ≡ ok d =
      sym (apply_image-path arch i c h p) ∙ e in
    let q' : record c { base_image_path = i.path } ≡ d = cc in
    subst IsRunnable q' (
      IsRunnable-image c c.base_image_url c.base_image_sha512 c.base_image_expected_sha256 i.path
        c.use_hosted_guest_image r (inl p))
apply_image-IsRunnable arch i c (per_arch h p a l) e r =
    use_arch-IsRunnable arch i.arches c (lookup_arch arch i.arches) refl l
      (sym (apply_image-arches arch i c h p a) ∙ e) r

apply_sizes-IsRunnable :
    (vm : VmSpec) (mode : Text) (c : Config)
    → FitsSizes vm
    → IsRunnable c
    → IsRunnable (apply_sizes vm mode c)
unfolding apply_sizes
apply_sizes-IsRunnable vm mode c f r =
    IsRunnable-sizes c _ _ _ _ r (disk-SizeFits vm.disk_size_gib c.disk_size_gib f.disk r.disk_size)
      (let n = r.cpus in ground arith) (let n = r.memory in let k = f.memory in ground arith)

-- A manifest that `Validate` accepts, with sizes left to the defaults or large enough, takes a
-- runnable configuration to a runnable one wherever `ApplyTo` succeeds.
pub validate-apply_manifest :
    (goarch : Text) (m : Manifest) (c : Config) {d : Config}
    → validate m ≡ ok tt
    → FitsSizes m.vm
    → validate_config c ≡ ok tt
    → apply_to goarch m c ≡ ok d
    → validate_config d ≡ ok tt
unfolding apply_to
validate-apply_manifest goarch m c {d} v f w e =
    let arch = effective_arch goarch c in
    let (imaged, e₁, e₂) = >>=-eq-ok (apply_image arch m.image c) _ e in
    let p : apply_sizes m.vm m.boot.mode imaged ≡ d = cc in
    (validate-IsRunnable d).1 (
      subst IsRunnable p (
        apply_sizes-IsRunnable m.vm m.boot.mode imaged f (
          apply_image-IsRunnable arch m.image c ((validate-IsWellFormed m).0 v).source e₁
            ((validate-IsRunnable c).0 w))))
