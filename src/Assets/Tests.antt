-- ===== src/Assets/Tests.antt =====
-- A first start with the hosted image, and the theorem at it.
use bladerunner.Prelude.{
  Text, [], codes, err, false, has_prefix, none, ok, refl, replicate, some, text_eq, to_lower,
  trim_space, true, ◌++◌, ◌∷◌, ◌≡◌,
}
use bladerunner.Config.Tests.{sample_config, sample_env}
use bladerunner.Config.Default.{
  default_at, set_ssh_keys, image_cache_path, image_cache_dir, default_state_dir,
}
use bladerunner.Prelude.FilePath.{join}
use bladerunner.Control.Request.{fields}
use bladerunner.Assets.{World, converted, Files, ensure_slot_image}
use bladerunner.Config.{Config}
use bladerunner.Assets.{ensure_cached, CacheCalls, stamped, stamped_failed, stamp_failed}
use bladerunner.Assets.Filled.{CacheEntry, unstamped, Served}
use bladerunner.Assets.Cached.{entry_of, ensure_cached-CacheEntry}
use bladerunner.Assets.Verified.{Vouched, ensure_slot_image-Vouched}

-- Sixty-four bytes that read as a digest; the toy digest of a file with one byte is that byte,
-- sixty-four times.
abbrev digest_of : Text → Text
digest_of [] = []
digest_of (c ∷ _) = replicate 64 c

abbrev image_bytes : Text
image_bytes = codes "a raw disk"

abbrev sample_world : World
sample_world = record {
  fetch = λ _. some image_bytes;
  sidecar = λ _. some (some (replicate 64 b'a'));
  sha256 = digest_of;
  sha512 = digest_of;
  to_raw = converted;
}

abbrev slot_path : Text
slot_path = codes "/vm/base-image.raw"

abbrev no_files : Files
no_files _ = none

hosted-selected : sample_config.use_hosted_guest_image ≡ true
unfolding set_ssh_keys default_at
hosted-selected = refl

image_bytes-left :
    (ensure_slot_image sample_world sample_config slot_path no_files).files slot_path
    ≡ some image_bytes
unfolding ensure_slot_image set_ssh_keys default_at fields trim_space to_lower text_eq has_prefix
image_bytes-left = refl

ensure_slot_image-Vouched_example :
    Vouched sample_world sample_config
      (ensure_slot_image sample_world sample_config slot_path no_files).config
      image_bytes
ensure_slot_image-Vouched_example =
    ensure_slot_image-Vouched sample_world sample_config slot_path image_bytes no_files
      hosted-selected refl image_bytes-left

abbrev all_work : CacheCalls
all_work = record {
  mkdir = true;
  removes = λ _. true;
  readable = true;
  rename = true;
  stamp_write = stamped;
}

-- No removal works, and the write of the stamp fails with the file in place.
abbrev half_failing : CacheCalls
half_failing = record all_work { removes = λ _. false; stamp_write = stamped_failed }

-- A disk that pins the digest of its image.
abbrev pinned_config : Config
pinned_config = record sample_config { base_image_expected_sha256 = replicate 64 b'a' }

ensure_cached-CacheEntry_example :
    CacheEntry sample_world pinned_config.base_image_expected_sha256
      (entry_of sample_env pinned_config)
      (entry_of sample_env pinned_config ++ codes ".ok")
      (ensure_cached sample_world half_failing sample_env pinned_config no_files).1
    × Served sample_world pinned_config.base_image_expected_sha256
        (entry_of sample_env pinned_config)
        (ensure_cached sample_world half_failing sample_env pinned_config no_files)
ensure_cached-CacheEntry_example =
    ensure_cached-CacheEntry sample_world half_failing sample_env pinned_config no_files
      (unstamped refl)

-- The pinned image is downloaded, and served.
pinned-served :
    (ensure_cached sample_world all_work sample_env pinned_config no_files).0
    ≡ ok (entry_of sample_env pinned_config)
unfolding ensure_cached set_ssh_keys default_at text_eq to_lower image_cache_path join
    image_cache_dir default_state_dir has_prefix
pinned-served = refl

stamp-fails :
    (ensure_cached sample_world half_failing sample_env pinned_config no_files).0 ≡ err stamp_failed
unfolding ensure_cached set_ssh_keys default_at text_eq to_lower image_cache_path join
    image_cache_dir default_state_dir has_prefix
stamp-fails = refl
