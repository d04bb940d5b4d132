-- ===== src/Assets/Verified.antt =====
-- With the default image, nothing that is unverified is left where the next start would find it.
use bladerunner.Prelude.{
  >>=-eq-ok, Bool, Bool-cases, Check, Option, Result, Text, [], ap, err, false, has_prefix, inl,
  inr, is_empty, none, ok, ok-injective, refl, some, subst, sym, text_eq, text_eq_iff, text_eq_refl,
  true, ◌∙◌, ◌≡◌, ◌⊎◌,
}
use bladerunner.Config.{Config, ConfigError, arch_arm64, arch_amd64}
use bladerunner.Config.Image.{use_debian_image, debian_trixie_url, debian_trixie_sha512}
use bladerunner.Assets.{
  World, Conversion, unconverted, lost, converted, AssetError, download_failed, Files, write,
  remove, exists, equal_fold, fetch_sidecar, against_sidecar, verify_image_checksum,
  ensure_raw_content, ensure_raw, raw_at, hosted_body, download_hosted, keep_or_remove,
  image_of_body, download_image, Outcome, debian_fallback, hosted_or, ensure_hosted_or_debian,
  ensure_slot_image, after_conversion, qcow2_magic,
}

pub write-same : (path c : Text) (fs : Files) → write path c fs path ≡ some c
unfolding write
write-same path c fs = rw (text_eq_refl path) refl

pub remove-same : (path : Text) (fs : Files) → remove path fs path ≡ none
unfolding remove
remove-same path fs = rw (text_eq_refl path) refl

-- `c` is the download `d`, or the raw disk that qemu-img makes of it.
abbrev pub IsDiskOf : World → Text → Text → Type 0
IsDiskOf w d c = (c ≡ d) ⊎ (w.to_raw d ≡ converted c)

-- A published sidecar digest is that of `d`.
abbrev pub MatchesSidecar : World → Text → Text → Type 0
MatchesSidecar w url d = (fetch_sidecar w url ≡ ok (w.sha256 d)) × (is_empty (w.sha256 d) ≡ false)

-- The disk `c` of a configuration's URL, verified by the sidecar or by the pinned digest.
abbrev pub HostedDisk : World → Config → Text → Type 0
HostedDisk w cfg c =
    (d : Text) × (w.fetch cfg.base_image_url ≡ some d)
    × MatchesSidecar w cfg.base_image_url d
    × IsDiskOf w d c

abbrev pub PinnedDisk : World → Config → Text → Type 0
PinnedDisk w cfg c =
    (d : Text) × (w.fetch cfg.base_image_url ≡ some d)
    × (equal_fold (w.sha512 d) cfg.base_image_sha512 ≡ true)
    × IsDiskOf w d c

against_sidecar-strict :
    (w : World) (d : Text) (r : Result AssetError Text)
    → against_sidecar w true d r ≡ ok tt
    → (r ≡ ok (w.sha256 d)) × (is_empty (w.sha256 d) ≡ false)
unfolding against_sidecar
against_sidecar-strict w d (err e) h = cc
against_sidecar-strict w d (ok want) h = elim (Bool-cases (is_empty want)) [
  | inl e ↦ cc (rw e at h)
  | inr e ↦ elim (Bool-cases (text_eq (w.sha256 d) want)) [
    | inl same ↦
        let p : w.sha256 d ≡ want = (text_eq_iff (w.sha256 d) want).0 same in
        (ap ok (sym p), rw p e)
    | inr other ↦ cc (rw other at (rw e at h))
  ]
]

verify-hosted :
    (w : World) (url d : Text)
    → verify_image_checksum w url [] true d ≡ ok tt
    → MatchesSidecar w url d
unfolding verify_image_checksum
verify-hosted w url d h = against_sidecar-strict w d (fetch_sidecar w url) h

verify-pinned :
    (w : World) (url sha512 : Text) (strict : Bool) (d : Text)
    → is_empty sha512 ≡ false
    → verify_image_checksum w url sha512 strict d ≡ ok tt
    → equal_fold (w.sha512 d) sha512 ≡ true
unfolding verify_image_checksum
verify-pinned w url sha512 strict d p h = elim (Bool-cases (equal_fold (w.sha512 d) sha512)) [
  | inl same ↦ same
  | inr other ↦ cc (rw other at (rw p at h))
]

after_conversion-disk :
    (w : World) (path d c : Text) (fs : Files) (v : Conversion)
    → w.to_raw d ≡ v
    → fs path ≡ some d
    → (after_conversion path fs v).1 path ≡ some c
    → IsDiskOf w d c
after_conversion-disk w path d c fs unconverted e f h = inl (cc (f, h))
after_conversion-disk w path d c fs lost e f h = cc (h, remove-same path fs)
after_conversion-disk w path d c fs (converted raw) e f h =
    inr (e ∙ ap converted (cc (h, write-same path raw fs)))

pub raw_at-disk :
    (w : World) (path d c : Text) (fs : Files)
    → fs path ≡ some d
    → (raw_at w path fs).1 path ≡ some c
    → IsDiskOf w d c
unfolding raw_at ensure_raw ensure_raw_content
raw_at-disk w path d c fs f h = elim (Bool-cases (has_prefix d qcow2_magic)) [
  | inl magic ↦ after_conversion-disk w path d c fs (w.to_raw d) refl f (rw magic at (rw f at h))
  | inr plain ↦ inl (cc (f, rw plain at (rw f at h)))
]

keep_or_remove-disk :
    (w : World) (path d c : Text) (fs : Files) (r : Check AssetError)
    → fs path ≡ some d
    → (keep_or_remove w path fs r).1 path ≡ some c
    → (r ≡ ok tt) × IsDiskOf w d c
unfolding keep_or_remove
keep_or_remove-disk w path d c fs (ok tt) f h = (refl, raw_at-disk w path d c fs f h)
keep_or_remove-disk w path d c fs (err e) f h = cc (h, remove-same path fs)

image_of_body-pinned :
    (w : World) (url sha512 path c : Text) (fs : Files) (body : Option Text)
    → is_empty sha512 ≡ false
    → fs path ≡ none
    → (image_of_body w url sha512 path fs body).1 path ≡ some c
    → (d : Text) × (body ≡ some d) × (equal_fold (w.sha512 d) sha512 ≡ true) × IsDiskOf w d c
unfolding image_of_body
image_of_body-pinned w url sha512 path c fs none p f h = cc
image_of_body-pinned w url sha512 path c fs (some d) p f h =
    let (accepted, disk) =
      keep_or_remove-disk w path d c (write path d fs) (verify_image_checksum w url sha512 false d)
        (write-same path d fs) h in
    (d, refl, verify-pinned w url sha512 false d p accepted, disk)

debian_trixie_sha512-pinned :
    (goarch url : Text)
    → debian_trixie_url goarch ≡ ok url
    → is_empty (debian_trixie_sha512 goarch) ≡ false
unfolding debian_trixie_url debian_trixie_sha512
debian_trixie_sha512-pinned goarch url e = elim (Bool-cases (text_eq goarch arch_arm64)) [
  | inl arm ↦ rw arm refl
  | inr n ↦ elim (Bool-cases (text_eq goarch arch_amd64)) [
    | inl amd ↦ rw n (rw amd refl)
    | inr k ↦ cc (rw k at (rw n at e))
  ]
]

use_debian_image-sha512 :
    (cfg debian : Config)
    → use_debian_image cfg ≡ ok debian
    → is_empty debian.base_image_sha512 ≡ false
unfolding use_debian_image
use_debian_image-sha512 cfg debian e =
    let (url, known, done) = >>=-eq-ok (debian_trixie_url cfg.arch) _ e in
    subst (λ (t : Text). is_empty t ≡ false)
      (ap (λ (x : Config). x.base_image_sha512) (ok-injective done))
      (debian_trixie_sha512-pinned cfg.arch url known)

debian_fallback-disk :
    (w : World) (path c : Text) (fs : Files) (cfg : Config) (r : Result ConfigError Config)
    → use_debian_image cfg ≡ r
    → fs path ≡ none
    → (debian_fallback w path fs cfg r).files path ≡ some c
    → (r ≡ ok (debian_fallback w path fs cfg r).config)
      × PinnedDisk w (debian_fallback w path fs cfg r).config c
unfolding debian_fallback download_image
debian_fallback-disk w path c fs cfg (err e) u f h = cc
debian_fallback-disk w path c fs cfg (ok debian) u f h = (
  refl,
  image_of_body-pinned w debian.base_image_url debian.base_image_sha512 path c fs
      (w.fetch debian.base_image_url) (use_debian_image-sha512 cfg debian u) f h,
)

-- What a start may find at `path` after the default image was resolved.
abbrev pub Vouched : World → Config → Config → Text → Type 0
Vouched w cfg new c =
    ((new ≡ cfg) × HostedDisk w cfg c) ⊎ ((use_debian_image cfg ≡ ok new) × PinnedDisk w new c)

hosted_or-refused :
    (w : World) (cfg : Config) (path c : Text) (fs : Files) (e : AssetError)
    → (hosted_or w cfg path (err e, fs)).files path ≡ some c
    → Vouched w cfg (hosted_or w cfg path (err e, fs)).config c
unfolding hosted_or
hosted_or-refused w cfg path c fs e h = inr (
    debian_fallback-disk w path c (remove path fs) cfg (use_debian_image cfg) refl
      (remove-same path fs) h)

hosted_or-disk :
    (w : World) (cfg : Config) (path c d : Text) (fs : Files) (r : Check AssetError)
    → w.fetch cfg.base_image_url ≡ some d
    → (r ≡ ok tt → MatchesSidecar w cfg.base_image_url d)
    → fs path ≡ some d
    → (hosted_or w cfg path (r, fs)).files path ≡ some c
    → Vouched w cfg (hosted_or w cfg path (r, fs)).config c
unfolding hosted_or
hosted_or-disk w cfg path c d fs (ok tt) b v f h =
    inl (refl, (d, b, v refl, raw_at-disk w path d c fs f h))
hosted_or-disk w cfg path c d fs (err e) b v f h = hosted_or-refused w cfg path c fs e h

hosted_body-disk :
    (w : World) (cfg : Config) (path c : Text) (fs : Files) (body : Option Text)
    → w.fetch cfg.base_image_url ≡ body
    → (hosted_or w cfg path (hosted_body w cfg.base_image_url path fs body)).files path ≡ some c
    → Vouched w cfg (hosted_or w cfg path (hosted_body w cfg.base_image_url path fs body)).config c
unfolding hosted_body
hosted_body-disk w cfg path c fs none b h = hosted_or-refused w cfg path c fs download_failed h
hosted_body-disk w cfg path c fs (some d) b h =
    hosted_or-disk w cfg path c d (write path d fs)
      (verify_image_checksum w cfg.base_image_url [] true d) b
      (verify-hosted w cfg.base_image_url d) (write-same path d fs) h

ensure_slot_image-hosted :
    (w : World) (cfg : Config) (path : Text) (fs : Files)
    → cfg.use_hosted_guest_image ≡ true
    → fs path ≡ none
    → is_empty cfg.base_image_url ≡ false
    → ensure_slot_image w cfg path fs
      ≡ hosted_or w cfg path (hosted_body w cfg.base_image_url path fs (w.fetch cfg.base_image_url))
unfolding ensure_slot_image ensure_hosted_or_debian download_hosted
ensure_slot_image-hosted w cfg path fs u f e =
    let absent : exists path fs ≡ false = rw (f, exists) refl in rw absent (rw e (rw u refl))

-- With the hosted image selected and no image at `path`, whether the call succeeds or fails, a file
-- that stands at `path` after it is the disk of a download that was verified: the hosted image,
-- against its published sidecar digest, with the configuration as it was; or the Debian image that
-- the configuration was switched to, against its pinned SHA-512.
pub ensure_slot_image-Vouched :
    (w : World) (cfg : Config) (path c : Text) (fs : Files)
    → cfg.use_hosted_guest_image ≡ true
    → fs path ≡ none
    → (ensure_slot_image w cfg path fs).files path ≡ some c
    → Vouched w cfg (ensure_slot_image w cfg path fs).config c
unfolding ensure_slot_image
ensure_slot_image-Vouched w cfg path c fs u f h = elim (Bool-cases (is_empty cfg.base_image_url)) [
  | inl e ↦ cc (f, rw e at (rw f at h))
  | inr e ↦
      let hosted = ensure_slot_image-hosted w cfg path fs u f e in
      subst (λ (o : Outcome). Vouched w cfg o.config c) (sym hosted)
        (hosted_body-disk w cfg path c fs (w.fetch cfg.base_image_url) refl
          (subst (λ (o : Outcome). o.files path ≡ some c) hosted h))
]
