-- ===== src/Disk/Apply/Outcome.antt =====
-- Where the image and the sizes of a configuration come from after `ApplyTo`.
use bladerunner.Prelude.{
  All, Bool-cases, List, Option, Result, Text, [], arith, err, false, inl, inr, none, ok, refl,
  some, subst, text_eq, true, ◌>>=◌, ◌∷◌, ◌≡◌, ◌≢◌,
}
use bladerunner.Config.{Config}
use bladerunner.Config.Image.{is_supported_arch, hosted_guest_image_url}
use bladerunner.Disk.{
  Manifest, ImageSpec, ArchImage, DiskError, no_image_for_arch, unresolved_host_url, validate,
}
use bladerunner.Disk.WellFormed.{
  IsArtifact, Source, hosted, local_path, per_arch, validate-IsWellFormed,
}
use bladerunner.Disk.Apply.{
  lookup_arch, use_arch, use_hosted, apply_image, apply_sizes, effective_arch, apply_to,
}

-- The image of `d` is the manifest's: the release image with sidecar verification, the local file,
-- or the artifact listed for the architecture with its own digest.
pub data ImageFrom (i : ImageSpec) (arch : Text) (d : Config) : Type 0 where
  from_release :
      i.hosted ≡ true
      → d.use_hosted_guest_image ≡ true
      → hosted_guest_image_url arch ≡ ok d.base_image_url
      → d.base_image_path ≡ []
      → d.base_image_sha512 ≡ []
      → d.base_image_expected_sha256 ≡ []
      → ImageFrom i arch d
  from_file : i.path ≢ [] → d.base_image_path ≡ i.path → ImageFrom i arch d
  from_artifact :
      {a : ArchImage}
      → lookup_arch arch i.arches ≡ some a
      → IsArtifact (arch, a)
      → d.use_hosted_guest_image ≡ false
      → d.base_image_url ≡ a.url
      → d.base_image_path ≡ []
      → d.base_image_sha512 ≡ []
      → d.base_image_expected_sha256 ≡ a.sha256
      → ImageFrom i arch d

-- Every way in which `ApplyTo` can end on a well-formed manifest.
pub data Outcome (i : ImageSpec) (arch : Text) : Result DiskError Config → Type 0 where
  applied : {d : Config} → ImageFrom i arch d → Outcome i arch (ok d)
  unlisted :
      i.arches ≢ []
      → lookup_arch arch i.arches ≡ none
      → Outcome i arch (err (no_image_for_arch arch))
  unhosted :
      i.hosted ≡ true
      → is_supported_arch arch ≡ false
      → Outcome i arch (err (unresolved_host_url arch))

pub lookup_arch-IsArtifact :
    (k : Text) (l : List (Text × ArchImage)) {a : ArchImage}
    → All IsArtifact l
    → lookup_arch k l ≡ some a
    → IsArtifact (k, a)
unfolding lookup_arch
lookup_arch-IsArtifact k [] h e = cc
lookup_arch-IsArtifact k ((j, b) ∷ l) {a} h e = elim (Bool-cases (text_eq j k)) [
  | inl same ↦
      let q : some b ≡ some a = rw same at e in
      let p : b ≡ a = cc in subst (λ x. IsArtifact (k, x)) p h.0
  | inr other ↦ lookup_arch-IsArtifact k l h.1 (rw other at e)
]

hosted_outcome :
    (i : ImageSpec) (arch : Text) (m : Manifest) (c : Config)
    → i.hosted ≡ true
    → Outcome i arch (
        use_hosted arch (hosted_guest_image_url arch) c >>= λ d.
        ok (apply_sizes m.vm m.boot.mode d))
unfolding use_hosted apply_sizes hosted_guest_image_url
hosted_outcome i arch m c h = elim (Bool-cases (is_supported_arch arch)) [
  | inl s ↦ rw s (applied (from_release h refl (rw s) refl refl refl))
  | inr u ↦ rw u (unhosted h u)
]

use_arch_outcome :
    (i : ImageSpec) (arch : Text) (m : Manifest) (c : Config) (o : Option ArchImage)
    → lookup_arch arch i.arches ≡ o
    → i.arches ≢ []
    → All IsArtifact i.arches
    → Outcome i arch (use_arch arch o c >>= λ d. ok (apply_sizes m.vm m.boot.mode d))
unfolding use_arch apply_sizes
use_arch_outcome i arch m c none e n l = unlisted n e
use_arch_outcome i arch m c (some a) e n l =
    applied (from_artifact e (lookup_arch-IsArtifact arch i.arches l e) refl refl refl refl refl)

module _ (arch : Text) (i : ImageSpec) (c : Config) where
  pub apply_image-hosted :
      i.hosted ≡ true → apply_image arch i c ≡ use_hosted arch (hosted_guest_image_url arch) c
  unfolding apply_image
  apply_image-hosted h = simp h

  pub apply_image-path :
      i.hosted ≡ false
      → i.path ≢ []
      → apply_image arch i c ≡ ok (record c { base_image_path = i.path })
  unfolding apply_image
  apply_image-path h p = ground arith

  pub apply_image-arches :
      i.hosted ≡ false
      → i.path ≡ []
      → i.arches ≢ []
      → apply_image arch i c ≡ use_arch arch (lookup_arch arch i.arches) c
  unfolding apply_image
  apply_image-arches h p a = ground arith

apply_from_source :
    (arch : Text) (m : Manifest) (c : Config)
    → Source m.image
    → Outcome m.image arch (apply_image arch m.image c >>= λ d. ok (apply_sizes m.vm m.boot.mode d))
unfolding apply_sizes
apply_from_source arch m c (hosted h p a) =
    rw (apply_image-hosted arch m.image c h) (hosted_outcome m.image arch m c h)
apply_from_source arch m c (local_path h p a) =
    rw (apply_image-path arch m.image c h p) (applied (from_file p refl))
apply_from_source arch m c (per_arch h p a l) =
    rw (apply_image-arches arch m.image c h p a)
      (use_arch_outcome m.image arch m c (lookup_arch arch m.image.arches) refl a l)

-- On a manifest that `Validate` accepts, `ApplyTo` takes the one image of the manifest, or it
-- stops because that image does not exist for the architecture.
pub apply_to_outcome :
    (goarch : Text) (m : Manifest) (c : Config)
    → validate m ≡ ok tt
    → Outcome m.image (effective_arch goarch c) (apply_to goarch m c)
unfolding apply_to
apply_to_outcome goarch m c v =
    apply_from_source (effective_arch goarch c) m c (((validate-IsWellFormed m).0 v).source)
