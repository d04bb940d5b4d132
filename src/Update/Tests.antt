-- ===== src/Update/Tests.antt =====
-- A swap whose second rename fails, and an update that is applied, with the theorems at them.
use bladerunner.Prelude.{
  All, Text, [], codes, err, false, none, not, ok, refl, replicate, some, take, text_eq, true, ◌++◌,
  ◌∷◌, ◌≡◌,
}
use bladerunner.Update.{Bundles, Renames, swap_bundle}
use bladerunner.Update.Verify.{Crypto, key_id_mismatch}
use bladerunner.Update.Apply.{Options, check, Channel, UpdateManifest, unverified, apply}
use bladerunner.Update.Signed.{IsVouched, apply-IsSigned}
use bladerunner.Prelude.FilePath.{dir}
use bladerunner.Update.Extract.{
  TarEntry, entry, regular, mkdir_all, write_file, escapes, extract_app_bundle,
}
use bladerunner.Update.Survives.{IsSettled, IsKept, swap_bundle-IsKept}

abbrev no_install : Renames
no_install = record { aside = true; install = false; restore = true }

abbrev two_bundles : Bundles
two_bundles = record { dst = some (codes "1.0"); backup = none; staged = some (codes "1.1") }

swap_bundle-IsKept_example :
    IsSettled (codes "1.0") (codes "1.1") no_install (swap_bundle no_install two_bundles)
    × IsKept (codes "1.0") (codes "1.1") (swap_bundle no_install two_bundles).now
    × All (IsKept (codes "1.0") (codes "1.1")) (swap_bundle no_install two_bundles).before
swap_bundle-IsKept_example =
    swap_bundle-IsKept no_install two_bundles (codes "1.0") (codes "1.1") refl refl

abbrev signing_key : Text
signing_key = replicate 32 107

abbrev key_text : Text
key_text = codes "Ed" ++ (codes "KEYKEYID" ++ signing_key)

abbrev signature_text : Text
signature_text =
    codes "comment"
    ++ (10 ∷ codes "EDKEYKEYID"
        ++ (replicate 64 107 ++ (10 ∷ codes "trusted comment: of 1.1" ++ (10 ∷ replicate 64 107))))

-- A signature is one whose first half is the key.
abbrev toy_crypto : Crypto
toy_crypto = record {
  base64 = some;
  blake2b = take 64;
  ed25519 = λ key bytes sig. text_eq (take 32 sig) key;
}

abbrev release : UpdateManifest
release = record {
  version = codes "1.1";
  url = codes "https://host/app";
  signature = signature_text;
  notes = [];
  pub_date = [];
}

abbrev release_channel : Channel
release_channel = record {
  get = λ url. some (record { status = 200; body = codes "1.1" });
  parse_url = λ raw. some (record { scheme = codes "https"; host = codes "host" });
  unmarshal = λ body. some release;
  parses = λ version. true;
  newer = λ new old. not (text_eq new old);
  extract = some;
  staging_made = true;
}

abbrev every_rename : Renames
every_rename = record { aside = true; install = true; restore = true }

abbrev installed : Bundles
installed = record { dst = some (codes "1.0"); backup = none; staged = none }

abbrev toy_options : Text → Options
toy_options key = record {
  current_version = codes "1.0";
  manifest_url = codes "https://host/m";
  public_key = key;
}

applied_update :
    apply release_channel toy_crypto (toy_options key_text) every_rename installed ≡ record {
      result = ok true;
      bundles = record { dst = some (codes "1.1"); backup = none; staged = none };
    }
unfolding apply
applied_update = refl

forged_update :
    apply release_channel toy_crypto
      (toy_options (codes "EdOTHERKEY" ++ signing_key))
      every_rename
      installed
    ≡ record { result = err (unverified key_id_mismatch); bundles = installed }
unfolding apply
forged_update = refl

available_update :
    check release_channel (toy_options [])
    ≡ ok (record {
      current_version = codes "1.0";
      latest_version = codes "1.1";
      update_available = true;
      notes = [];
    })
unfolding check
available_update = refl

apply-IsSigned_example :
    IsVouched release_channel toy_crypto key_text
      (codes "https://host/m")
      (codes "1.0")
      every_rename
      installed
      (apply release_channel toy_crypto (toy_options key_text) every_rename installed).bundles
apply-IsSigned_example =
    apply-IsSigned release_channel toy_crypto (toy_options key_text) every_rename installed

abbrev file_at : Text → TarEntry
file_at name =
    entry (record { name = name; kind = regular; link = []; mode = 493; content = codes "x" })

extracted_bundle :
    extract_app_bundle (λ calls c. true) (codes "/s/") (some (file_at (codes "./B.app/br") ∷ []))
    ≡ record {
      result = ok (codes "/s/B.app");
      calls = write_file (codes "/s/B.app/br") 493 (codes "x") ∷ mkdir_all (codes "/s/B.app") ∷ [];
    }
unfolding dir extract_app_bundle
extracted_bundle = refl

escaping_bundle :
    extract_app_bundle (λ calls c. true) (codes "/s") (some (file_at (codes "../B.app/br") ∷ []))
    ≡ record { result = err (escapes (codes "../B.app/br")); calls = [] }
unfolding extract_app_bundle
escaping_bundle = refl
