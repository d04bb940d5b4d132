-- ===== src/Update/Signed.antt =====
-- The signature behind an applied update (internal/update/update.go, verify.go).
use bladerunner.Prelude.{
  >>=-eq-ok, Bool, Check, Option, Result, Text, err, fail_if, fail_if-eq-ok, false, if◌then◌else◌,
  inl, inr, none, not, ok, refl, some, text_eq, text_eq_iff, true, ◌++◌, ◌≡◌, ◌⊎◌,
}
use bladerunner.Update.{Bundles, Renames, swap_bundle}
use bladerunner.Update.Verify.{
  Crypto, VerifyError, key_id_mismatch, bad_signature, PublicKey, Signature, parse_public_key,
  parse_signature, verify, verify_tarball,
}
use bladerunner.Update.Apply.{
  UpdateManifest, Channel, UpdateError, no_staging, Options, manifest_url_of, public_key_of,
  unstaged, with_staged, download, available, install_extracted, install_verified,
  install_downloaded, apply_checked, apply,
}

-- Both signatures of a file hold under the key: that of the artifact, and the global one of the
-- signature with its comment.
abbrev pub Signs : Crypto → PublicKey → Text → Signature → Type 0
Signs c pk bytes s =
    (pk.key_id ≡ s.key_id)
    × (c.ed25519 pk.key (if s.prehashed then c.blake2b bytes else bytes) s.sig ≡ true)
    × (c.ed25519 pk.key (s.sig ++ s.trusted_comment) s.global_sig ≡ true)

abbrev pub IsSigned : Crypto → Text → Text → Text → Type 0
IsSigned c pub_key sig bytes =
    (pk : PublicKey) × (s : Signature) × (parse_public_key c pub_key ≡ ok pk)
    × (parse_signature c sig ≡ ok s)
    × Signs c pk bytes s

-- The bundles are those of before, or a signed artifact that the manifest of a newer version names
-- has been swapped in.
abbrev pub IsVouched : Channel → Crypto → Text → Text → Text → Renames → Bundles → Bundles → Type 0
IsVouched ch c pub_key manifest_url running r b after =
    (after ≡ b)
    ⊎ ((m : UpdateManifest) × (tarball : Text) × (app : Text) × (available ch manifest_url running
          ≡ ok (m, true))
        × (download ch m.url ≡ ok tarball)
        × IsSigned c pub_key m.signature tarball
        × (ch.extract tarball ≡ some app)
        × (after ≡ unstaged (swap_bundle r (with_staged b app)).now))

not-eq-false : (t : Bool) → not t ≡ false → t ≡ true
not-eq-false true h = refl
not-eq-false false h = cc

verify-Signs :
    (c : Crypto) (pk : PublicKey) (bytes : Text) (s : Signature)
    → verify c pk bytes s ≡ ok tt
    → Signs c pk bytes s
unfolding verify
verify-Signs c pk bytes s h =
    let (k, after_id) = fail_if-eq-ok (not (text_eq pk.key_id s.key_id)) key_id_mismatch _ h in
    let (e, after_sig) =
      fail_if-eq-ok (not (c.ed25519 pk.key (if s.prehashed then c.blake2b bytes else bytes) s.sig))
        bad_signature _ after_id in
    let g = last_check (c.ed25519 pk.key (s.sig ++ s.trusted_comment) s.global_sig) after_sig in
    ((text_eq_iff pk.key_id s.key_id).0 (not-eq-false _ k), not-eq-false _ e, g)
  where
    last_check : (t : Bool) → fail_if (not t) bad_signature ≡ ok tt → t ≡ true
    last_check true h = refl
    last_check false h = cc

verify_tarball-IsSigned :
    (c : Crypto) (bytes sig pub_key : Text)
    → verify_tarball c bytes sig pub_key ≡ ok tt
    → IsSigned c pub_key sig bytes
unfolding verify_tarball
verify_tarball-IsSigned c bytes sig pub_key h =
    let (pk, p, after_key) = >>=-eq-ok (parse_public_key c pub_key) _ h in
    let (s, q, v) = >>=-eq-ok (parse_signature c sig) _ after_key in
    (pk, s, p, q, verify-Signs c pk bytes s v)

module _ (ch : Channel) (c : Crypto) (pub_key manifest_url running : Text) (r : Renames)
    (b : Bundles) (m : UpdateManifest)
    (is_available : available ch manifest_url running ≡ ok (m, true)) where
  extracted :
      (tarball : Text) (o : Option Text)
      → download ch m.url ≡ ok tarball
      → IsSigned c pub_key m.signature tarball
      → ch.extract tarball ≡ o
      → IsVouched ch c pub_key manifest_url running r b (install_extracted r b o).bundles
  unfolding install_extracted
  extracted tarball none d v e = inl refl
  extracted tarball (some app) d v e = inr (m, tarball, app, is_available, d, v, e, refl)

  verified :
      (tarball : Text) (o : Check VerifyError)
      → download ch m.url ≡ ok tarball
      → verify_tarball c tarball m.signature pub_key ≡ o
      → IsVouched ch c pub_key manifest_url running r b (install_verified ch r b tarball o).bundles
  unfolding install_verified
  verified tarball (err e) d v = inl refl
  verified tarball (ok _) d v =
      elim ch.staging_made
        as (λ made.
          IsVouched ch c pub_key manifest_url running r b
            (if made
              then install_extracted r b (ch.extract tarball)
              else record { result = err no_staging; bundles = b }).bundles) [
                | true ↦
                    extracted tarball (ch.extract tarball) d
                      (verify_tarball-IsSigned c tarball m.signature pub_key v) refl
                | false ↦ inl refl
              ]

  downloaded :
      (o : Result UpdateError Text)
      → download ch m.url ≡ o
      → IsVouched ch c pub_key manifest_url running r b
          (install_downloaded ch c pub_key r b m o).bundles
  unfolding install_downloaded
  downloaded (err e) d = inl refl
  downloaded (ok tarball) d = verified tarball _ d refl

checked :
    (ch : Channel) (c : Crypto) (pub_key manifest_url running : Text) (r : Renames) (b : Bundles)
    (o : Result UpdateError (UpdateManifest × Bool))
    → available ch manifest_url running ≡ o
    → IsVouched ch c pub_key manifest_url running r b (apply_checked ch c pub_key r b o).bundles
unfolding apply_checked
checked ch c pub_key manifest_url running r b (err e) a = inl refl
checked ch c pub_key manifest_url running r b (ok (m, false)) a = inl refl
checked ch c pub_key manifest_url running r b (ok (m, true)) a =
    downloaded ch c pub_key manifest_url running r b m a (download ch m.url) refl

-- Apply leaves the bundles as they are, or swaps in an application that comes out of an artifact
-- which was downloaded from the URL of the manifest, whose version isNewer takes for newer than the
-- running one, and whose two signatures hold under the key of the options, or the embedded one where
-- they have none, with the key id of that key.
pub apply-IsSigned :
    (ch : Channel) (c : Crypto) (o : Options) (r : Renames) (b : Bundles)
    → IsVouched ch c
        (public_key_of o)
        (manifest_url_of o)
        o.current_version
        r
        b
        (apply ch c o r b).bundles
unfolding apply
apply-IsSigned ch c o r b =
    checked ch c (public_key_of o) (manifest_url_of o) o.current_version r b
      (available ch (manifest_url_of o) o.current_version) refl
