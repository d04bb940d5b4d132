-- ===== src/Update/Apply.antt =====
-- Check and Apply of a self-update (internal/update/update.go, manifest.go), for the bundle that
-- installTarget has found. HTTP, JSON, the parse of URLs, semantic versions and the extraction of the
-- tarball are the parameter `Channel`.
use bladerunner.Prelude.{
  Bool, Check, Option, Result, Text, codes, err, fail_if, false, if◌then◌else◌, is_empty, length,
  ltb, none, not, ok, some, take, text_eq, trim_space, true, ℕ, ◌*◌, ◌++◌, ◌+◌, ◌==◌, ◌>>=◌, ◌>>◌,
  ◌^◌,
}
use bladerunner.Update.{Bundles, Renames, SwapError, swap_bundle}
use bladerunner.Update.Verify.{Crypto, VerifyError, verify_tarball}

pub record UpdateManifest : Type 0 where
  pub version : Text
  pub url : Text
  pub signature : Text
  pub notes : Text
  pub pub_date : Text

-- A URL as url.Parse gives it
pub record Url : Type 0 where
  pub scheme : Text
  pub host : Text

-- An answer to a GET: the status and the body
pub record Response : Type 0 where
  pub status : ℕ
  pub body : Text

pub record Channel : Type 0 where
  pub get : Text → Option Response
  pub parse_url : Text → Option Url
  pub unmarshal : Text → Option UpdateManifest
  -- semver.ParseTolerant, and GT of two versions that parse
  pub parses : Text → Bool
  pub newer : Text → Text → Bool
  -- extractAppBundle into a fresh staging directory: the new application
  pub extract : Text → Option Text
  pub staging_made : Bool

pub data UpdateError : Type 0 where
  bad_url not_https no_host : UpdateError
  fetch_failed parse_failed no_version no_signature : UpdateError
  bad_status : ℕ → UpdateError
  unparseable_version : Text → UpdateError
  artifact_too_large no_staging not_extracted : UpdateError
  unverified : VerifyError → UpdateError
  swap_failed : SwapError → UpdateError

abbrev pub default_manifest_url : Text
default_manifest_url = codes "https://stuffbucket.github.io/bladerunner/latest.json"

abbrev pub production_public_key : Text
production_public_key =
    codes "dW50cnVzdGVkIGNvbW1lbnQ6IG1pbmlzaWduIHB1YmxpYyBrZXk6IEJGNjU3MTVCQUUxQzFGOUYK"
    ++ codes "UldTZkh4eXVXM0ZsdjF1RkM4N1BBUHYrNFZWeWI1YTUvd05EMENiY25iVVVNcms5dE9adnBlTVgK"

-- The options that the two calls read here
pub record Options : Type 0 where
  pub current_version : Text
  pub manifest_url : Text
  pub public_key : Text

-- manifestURL
abbrev pub manifest_url_of : Options → Text
manifest_url_of o = if is_empty o.manifest_url then default_manifest_url else o.manifest_url

-- publicKey
abbrev pub public_key_of : Options → Text
public_key_of o = if is_empty o.public_key then production_public_key else o.public_key

abbrev pub max_manifest_bytes : ℕ
max_manifest_bytes = 2 ^ 20

abbrev pub max_artifact_bytes : ℕ
max_artifact_bytes = 512 * 2 ^ 20

unfoldable pub check_url : Option Url → Check UpdateError
unfolding text_eq
check_url none = err bad_url
check_url (some u) = do
  fail_if (not (text_eq u.scheme (codes "https"))) not_https
  fail_if (is_empty u.host) no_host

-- requireHTTPS
unfoldable pub require_https : Channel → Text → Check UpdateError
unfolding check_url trim_space
require_https ch raw = check_url (ch.parse_url (trim_space raw))

-- The manifest's validate
unfoldable pub validate_update : Channel → UpdateManifest → Check UpdateError
unfolding require_https trim_space
validate_update ch m = do
  fail_if (is_empty (trim_space m.version)) no_version
  fail_if (is_empty (trim_space m.signature)) no_signature
  require_https ch m.url

-- The body of an answer of status 200, up to a limit
unfoldable pub body_of : ℕ → Option Response → Result UpdateError Text
body_of limit none = err fetch_failed
body_of limit (some r) =
    if r.status == 200 then ok (take limit r.body) else err (bad_status r.status)

abbrev decoded_manifest : Option UpdateManifest → Result UpdateError UpdateManifest
decoded_manifest none = err parse_failed
decoded_manifest (some m) = ok m

-- fetchManifest
unfoldable pub fetch_manifest : Channel → Text → Result UpdateError UpdateManifest
unfolding require_https body_of validate_update
fetch_manifest ch url = do
  require_https ch url
  body ← body_of max_manifest_bytes (ch.get url)
  m ← decoded_manifest (ch.unmarshal body)
  validate_update ch m
  ok m

-- isNewer
unfoldable pub is_newer : Channel → Text → Text → Result UpdateError Bool
is_newer ch manifest_version running =
    if not (ch.parses manifest_version)
    then err (unparseable_version manifest_version)
    else ok (if not (ch.parses running) then true else ch.newer manifest_version running)

-- download
unfoldable pub download : Channel → Text → Result UpdateError Text
unfolding require_https body_of
download ch url = do
  require_https ch url
  body ← body_of (max_artifact_bytes + 1) (ch.get url)
  fail_if (ltb max_artifact_bytes (length body)) artifact_too_large
  ok body

-- The manifest, and whether its version is newer than the running one: where both calls begin
unfoldable pub available : Channel → Text → Text → Result UpdateError (UpdateManifest × Bool)
unfolding fetch_manifest is_newer
available ch manifest_url running = do
  m ← fetch_manifest ch manifest_url
  newer ← is_newer ch m.version running
  ok (m, newer)

pub record CheckResult : Type 0 where
  pub current_version : Text
  pub latest_version : Text
  pub update_available : Bool
  pub notes : Text

-- Check
unfoldable pub check : Channel → Options → Result UpdateError CheckResult
unfolding available
check ch o = do
  (m, newer) ← available ch (manifest_url_of o) o.current_version
  ok (record {
    current_version = o.current_version;
    latest_version = m.version;
    update_available = newer;
    notes = m.notes;
  })

-- What Apply returns (whether it swapped) and the bundles after it.
pub record Applied : Type 0 where
  pub result : Result UpdateError Bool
  pub bundles : Bundles

abbrev rejected : UpdateError → Bundles → Applied
rejected e b = record { result = err e; bundles = b }

-- The staging directory is removed in the end.
abbrev pub unstaged : Bundles → Bundles
unstaged b = record b { staged = none }

abbrev swap_result : Check SwapError → Result UpdateError Bool
swap_result (ok _) = ok true
swap_result (err e) = err (swap_failed e)

abbrev pub with_staged : Bundles → Text → Bundles
with_staged b app = record b { staged = some app }

unfoldable pub install_extracted : Renames → Bundles → Option Text → Applied
unfolding swap_bundle
install_extracted r b none = rejected not_extracted b
install_extracted r b (some app) =
    let s = swap_bundle r (with_staged b app) in
    record { result = swap_result s.result; bundles = unstaged s.now }

unfoldable pub install_verified : Channel → Renames → Bundles → Text → Check VerifyError → Applied
unfolding install_extracted
install_verified ch r b tarball (err e) = rejected (unverified e) b
install_verified ch r b tarball (ok _) =
    if ch.staging_made then install_extracted r b (ch.extract tarball) else rejected no_staging b

unfoldable pub install_downloaded :
    Channel → Crypto → Text → Renames → Bundles → UpdateManifest → Result UpdateError Text → Applied
unfolding install_verified verify_tarball
install_downloaded ch c pub_key r b m (err e) = rejected e b
install_downloaded ch c pub_key r b m (ok tarball) =
    install_verified ch r b tarball (verify_tarball c tarball m.signature pub_key)

unfoldable pub apply_checked :
    Channel
    → Crypto
    → Text
    → Renames
    → Bundles
    → Result UpdateError (UpdateManifest × Bool)
    → Applied
unfolding install_downloaded download
apply_checked ch c pub_key r b (err e) = rejected e b
apply_checked ch c pub_key r b (ok (m, false)) = record { result = ok false; bundles = b }
apply_checked ch c pub_key r b (ok (m, true)) =
    install_downloaded ch c pub_key r b m (download ch m.url)

-- Apply, without the restart
unfoldable pub apply : Channel → Crypto → Options → Renames → Bundles → Applied
unfolding apply_checked available
apply ch c o r b =
    apply_checked ch c (public_key_of o) r b (available ch (manifest_url_of o) o.current_version)
