-- ===== src/Assets.antt =====
-- internal/vm/assets.go: a base image is downloaded, verified, cached and converted to a raw disk.
-- The files are the bytes at each path. HTTP, the digests and qemu-img are the parameters of
-- `World`. A download goes through a temporary file, so that the target is written whole or not at
-- all; removing a file does not fail.
pub mod Verified
pub mod Filled
pub mod Cached
pub mod Tests
use bladerunner.Prelude.{
  &&-eq-true, ==_iff, ==_refl, >>-eq-ok, >>=-eq-ok, All, All-append, AtLeast, AtMost, Bool,
  Bool-cases, Check, IsDigit, List, Option, Option-cases, Result, String, Text, [], ap, append-nil,
  append_assoc, arith, atoi, atoi-decimal, codes, contains, cut_byte, cut_prefix, cut_prefix-some,
  decimal, decimal-cons, decimal-digits, drop, drop-length-append, err, fail_if, fail_if-eq-ok,
  false, fun_ext, get_elem?, has_prefix, has_prefix-rest, has_suffix, if◌then◌else◌, in_int64, inl,
  inr, int_eq, int_eq_iff, int_gt, int_gt_iff, int_lt, int_lt_iff, is_empty, is_ok, is_ok_unit,
  is_space, itoa, leb, length, length-append, length-drop, length-take, lines_onto, ltb, map,
  map_err, min, ne_text_eq, negsuc, none, not, ok, ok-injective, parse-decimal, parse_digits,
  parse_nat, pos, refl, replicate, reverse, some, split_lines, subst, suc, sym, take,
  take-length-append, text_eq, text_eq_iff, text_eq_ne, text_eq_refl, to_lower, to_lower_byte,
  trim_left, trim_right, trim_space, true, zero, ||-eq-false, ℕ, ℤ, ◌%◌, ◌&&◌, ◌*◌, ◌++◌, ◌+◌, ◌-◌,
  ◌/◌, ◌<◌, ◌==◌, ◌>>=◌, ◌>>◌, ◌^◌, ◌||◌, ◌↔◌, ◌∙◌, ◌∷◌, ◌≡◌, ◌≢◌, ◌≤◌, ◌⊎◌,
}
use bladerunner.Prelude.FilePath.{join}
use bladerunner.Config.{Config, ConfigError}
use bladerunner.Control.Request.{fields}
use bladerunner.Config.Default.{Env, image_cache_path}
use bladerunner.Config.Image.{use_debian_image}

-- What convertQcow2ToRaw does to a file: it fails before it touches the file, or loses it between
-- os.Remove and os.Rename, or replaces it.
pub data Conversion : Type 0 where
  unconverted lost : Conversion
  converted : Text → Conversion

pub record World : Type 0 where
  pub fetch : Text → Option Text  -- the body of a 2xx response
  pub sidecar : Text → Option (Option Text)  -- `url.sha256`: no answer, 404, or its body
  pub sha256 : Text → Text
  pub sha512 : Text → Text
  pub to_raw : Text → Conversion

pub data AssetError : Type 0 where
  path_missing : Text → AssetError
  cache_dir_failed unreadable_download finalize_failed stamp_failed : AssetError
  open_failed convert_failed no_url download_failed sha512_mismatch sha256_mismatch : AssetError
  sidecar_unreachable sidecar_missing bad_sidecar no_debian_fallback : AssetError

abbrev pub Files : Type 0
Files = Text → Option Text

unfoldable pub write : Text → Text → Files → Files
write path content fs p = if text_eq p path then some content else fs p

unfoldable pub remove : Text → Files → Files
remove path fs p = if text_eq p path then none else fs p

abbrev pub exists : Text → Files → Bool
exists path fs = elim (fs path) [ none ↦ false | some _ ↦ true ]

-- strings.EqualFold, on hexadecimal digits
unfoldable pub equal_fold : Text → Text → Bool
equal_fold a b = text_eq (to_lower a) (to_lower b)

unfoldable pub is_hex_digest : Text → Bool
is_hex_digest [] = true
is_hex_digest (c ∷ s) =
    ((leb b'0' c && leb c b'9') || (leb b'a' c && leb c b'f')) && is_hex_digest s

abbrev hex_digest : Text → Result AssetError Text
hex_digest digest = do
  fail_if (not (length digest == 64)) bad_sidecar
  fail_if (not (is_hex_digest digest)) bad_sidecar
  ok digest

abbrev first_word : List Text → Result AssetError Text
first_word [] = err bad_sidecar
first_word (word ∷ _) = hex_digest (to_lower word)

-- fetchSidecarSHA256; the empty digest is a sidecar that is missing.
unfoldable pub fetch_sidecar : World → Text → Result AssetError Text
unfolding is_hex_digest
fetch_sidecar w url = elim (w.sidecar url) [
  | none ↦ err sidecar_unreachable
  | some none ↦ ok []
  | some (some body) ↦ first_word (fields (trim_space (take 4096 body)))
]

unfoldable pub against_sidecar : World → Bool → Text → Result AssetError Text → Check AssetError
against_sidecar w strict content (err e) = if strict then err e else ok tt
against_sidecar w strict content (ok want) =
    if is_empty want
    then (if strict then err sidecar_missing else ok tt)
    else fail_if (not (text_eq (w.sha256 content) want)) sha256_mismatch

-- verifyImageChecksum, on the bytes of the file
unfoldable pub verify_image_checksum : World → Text → Text → Bool → Text → Check AssetError
unfolding equal_fold fetch_sidecar against_sidecar
verify_image_checksum w url expected_sha512 strict content =
    if not (is_empty expected_sha512)
    then fail_if (not (equal_fold (w.sha512 content) expected_sha512)) sha512_mismatch
    else against_sidecar w strict content (fetch_sidecar w url)

abbrev after_conversion : Text → Files → Conversion → Check AssetError × Files
after_conversion path fs unconverted = (err convert_failed, fs)
after_conversion path fs lost = (err convert_failed, remove path fs)
after_conversion path fs (converted raw) = (ok tt, write path raw fs)

-- "QFI\xfb"
abbrev qcow2_magic : Text
qcow2_magic = codes "QFI" ++ (251 ∷ [])

unfoldable pub ensure_raw_content : World → Text → Files → Option Text → Check AssetError × Files
unfolding write remove
ensure_raw_content w path fs none = (err open_failed, fs)
ensure_raw_content w path fs (some content) =
    if has_prefix content qcow2_magic
    then after_conversion path fs (w.to_raw content)
    else (ok tt, fs)

-- ensureRawDiskImage
unfoldable pub ensure_raw : World → Text → Files → Check AssetError × Files
unfolding ensure_raw_content
ensure_raw w path fs = ensure_raw_content w path fs (fs path)

-- `path` once it is a raw disk
unfoldable pub raw_at : World → Text → Files → Result AssetError Text × Files
unfolding ensure_raw
raw_at w path fs = let (r, gs) = ensure_raw w path fs in (r >> ok path, gs)

-- The download of the hosted image and its check, with strictSidecar=true: the file is written,
-- whatever the check says.
unfoldable pub hosted_body : World → Text → Text → Files → Option Text → Check AssetError × Files
unfolding verify_image_checksum write
hosted_body w url path fs none = (err download_failed, fs)
hosted_body w url path fs (some content) =
    (verify_image_checksum w url [] true content, write path content fs)

unfoldable pub download_hosted : World → Text → Text → Files → Check AssetError × Files
unfolding hosted_body
download_hosted w url path fs = hosted_body w url path fs (w.fetch url)

unfoldable pub keep_or_remove :
    World → Text → Files → Check AssetError → Result AssetError Text × Files
unfolding raw_at remove
keep_or_remove w path fs (ok _) = raw_at w path fs
keep_or_remove w path fs (err e) = (err e, remove path fs)

unfoldable pub image_of_body :
    World → Text → Text → Text → Files → Option Text → Result AssetError Text × Files
unfolding verify_image_checksum keep_or_remove write
image_of_body w url sha512 path fs none = (err download_failed, fs)
image_of_body w url sha512 path fs (some content) =
    keep_or_remove w path (write path content fs) (verify_image_checksum w url sha512 false content)

-- The download with strictSidecar=false, of ensureBaseImage and of the fallback to Debian.
unfoldable pub download_image : World → Text → Text → Text → Files → Result AssetError Text × Files
unfolding image_of_body
download_image w url sha512 path fs = image_of_body w url sha512 path fs (w.fetch url)

-- What a call returns: its result, the files, and the configuration that it may have changed.
pub record Outcome : Type 0 where
  pub result : Result AssetError Text
  pub files : Files
  pub config : Config

abbrev outcome : Config → Result AssetError Text × Files → Outcome
outcome cfg r = record { result = r.0; files = r.1; config = cfg }

unfoldable pub debian_fallback : World → Text → Files → Config → Result ConfigError Config → Outcome
unfolding download_image
debian_fallback w path fs cfg (err _) = outcome cfg (err no_debian_fallback, fs)
debian_fallback w path fs cfg (ok debian) =
    outcome debian (download_image w debian.base_image_url debian.base_image_sha512 path fs)

unfoldable pub hosted_or : World → Config → Text → Check AssetError × Files → Outcome
unfolding raw_at debian_fallback remove
hosted_or w cfg path (ok _, fs) = outcome cfg (raw_at w path fs)
hosted_or w cfg path (err _, fs) =
    debian_fallback w path (remove path fs) cfg (use_debian_image cfg)

-- ensureHostedOrDebian
unfoldable pub ensure_hosted_or_debian : World → Config → Text → Files → Outcome
unfolding hosted_or download_hosted
ensure_hosted_or_debian w cfg path fs =
    hosted_or w cfg path (download_hosted w cfg.base_image_url path fs)

-- What os.WriteFile of the stamp does: it may fail before or after the file is there.
pub data StampWrite : Type 0 where
  stamped unstamped_failed stamped_failed : StampWrite

-- How the calls into package os on the way of a cache entry end; `removes` says of which paths
-- os.Remove works, `readable` whether fileSHA256 reads the download.
pub record CacheCalls : Type 0 where
  pub mkdir : Bool
  pub removes : Text → Bool
  pub readable : Bool
  pub rename : Bool
  pub stamp_write : StampWrite

-- `_ = os.Remove(path)`
unfoldable pub try_remove : CacheCalls → Text → Files → Files
unfolding remove
try_remove calls path fs = if calls.removes path then remove path fs else fs

unfoldable pub write_stamp : StampWrite → Text → Text → Files → Result AssetError Text × Files
unfolding write
write_stamp stamped cache_path stamp fs = (ok cache_path, write stamp [] fs)
write_stamp unstamped_failed cache_path stamp fs = (err stamp_failed, fs)
write_stamp stamped_failed cache_path stamp fs = (err stamp_failed, write stamp [] fs)

-- The raw image becomes the entry, which is stamped.
unfoldable pub stamp_entry :
    CacheCalls → Text → Text → Text → Files → Option Text → Result AssetError Text × Files
unfolding write remove write_stamp try_remove
stamp_entry calls cache_path stamp dl fs none = (err finalize_failed, try_remove calls dl fs)
stamp_entry calls cache_path stamp dl fs (some raw) =
    if calls.rename
    then write_stamp calls.stamp_write cache_path stamp (write cache_path raw (remove dl fs))
    else (err finalize_failed, try_remove calls dl fs)

unfoldable pub finish_cached :
    CacheCalls → Text → Text → Text → Check AssetError × Files → Result AssetError Text × Files
unfolding stamp_entry try_remove
finish_cached calls cache_path stamp dl (err e, fs) = (err e, try_remove calls dl fs)
finish_cached calls cache_path stamp dl (ok _, fs) =
    stamp_entry calls cache_path stamp dl fs (fs dl)

unfoldable pub fill_cache :
    World
    → CacheCalls
    → Text
    → Text
    → Text
    → Text
    → Files
    → Option Text
    → Result AssetError Text × Files
unfolding finish_cached ensure_raw equal_fold try_remove
fill_cache w calls want cache_path stamp dl fs none = (err download_failed, try_remove calls dl fs)
fill_cache w calls want cache_path stamp dl fs (some content) =
    let gs = write dl content fs in
    if not calls.readable
    then (err unreadable_download, try_remove calls dl gs)
    else if equal_fold (w.sha256 content) want
    then finish_cached calls cache_path stamp dl (ensure_raw w dl gs)
    else (err sha256_mismatch, try_remove calls dl gs)

-- ensureCachedBaseImage, with the content-addressed cache of `image_cache_path`
unfoldable pub ensure_cached :
    World → CacheCalls → Env → Config → Files → Result AssetError Text × Files
unfolding fill_cache try_remove
ensure_cached w calls env cfg fs =
    let cache_path = image_cache_path env cfg.base_image_expected_sha256 in
    let stamp = cache_path ++ codes ".ok" in
    if exists cache_path fs && exists stamp fs
    then (ok cache_path, fs)
    else if is_empty cfg.base_image_url
    then (err no_url, fs)
    else if not calls.mkdir
    then (err cache_dir_failed, fs)
    else fill_cache w calls cfg.base_image_expected_sha256 cache_path stamp
        (cache_path ++ codes ".dl") (try_remove calls stamp (try_remove calls cache_path fs))
        (w.fetch cfg.base_image_url)

-- The rest of ensureBaseImage, for the image of the slot at `path`
unfoldable pub ensure_slot_image : World → Config → Text → Files → Outcome
unfolding raw_at ensure_hosted_or_debian download_image
ensure_slot_image w cfg path fs =
    if exists path fs
    then outcome cfg (raw_at w path fs)
    else if is_empty cfg.base_image_url
    then outcome cfg (err no_url, fs)
    else if cfg.use_hosted_guest_image
    then ensure_hosted_or_debian w cfg path fs
    else outcome cfg (download_image w cfg.base_image_url cfg.base_image_sha512 path fs)

-- ensureBaseImage
unfoldable pub ensure_base_image : World → CacheCalls → Env → Config → Files → Outcome
unfolding ensure_slot_image ensure_cached
ensure_base_image w calls env cfg fs =
    if not (is_empty cfg.base_image_path)
    then (if exists cfg.base_image_path fs
        then outcome cfg (raw_at w cfg.base_image_path fs)
        else outcome cfg (err (path_missing cfg.base_image_path), fs))
    else if not (is_empty cfg.base_image_expected_sha256)
    then outcome cfg (ensure_cached w calls env cfg fs)
    else ensure_slot_image w cfg (join (cfg.vm_dir ∷ codes "base-image.raw" ∷ [])) fs
