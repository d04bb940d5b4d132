-- ===== src/Config/Image.antt =====
-- Base image URLs and digests, and the switch to the Debian image (internal/config/config.go).
use bladerunner.Prelude.{
  Bool, true, false, ◌||◌, [], ◌++◌, ok, err, Result, ◌>>=◌, Text, codes, text_eq, if◌then◌else◌,
}
use bladerunner.Config.{Config, ConfigError, unsupported_arch, arch_arm64, arch_amd64}

abbrev pub debian_trixie_build : Text
debian_trixie_build = codes "20260525-2489"

abbrev pub hosted_guest_image_tag : Text
hosted_guest_image_tag = codes "guest-image-latest"

abbrev debian_trixie_sha512_arm64 : Text
debian_trixie_sha512_arm64 =
    codes "b4f9240559da2c044953418d0632cee4d45e3d447a0ec6a9129ef7946e39ec41"
    ++ codes "35ec9e085c176f8dc77af6536d7279c03487e9aa61fd6c628fb493886e23aef5"

abbrev debian_trixie_sha512_amd64 : Text
debian_trixie_sha512_amd64 =
    codes "23999f64d896af10a8c12bc391856ffb2982d459c3e4c987c241cca920920c6d"
    ++ codes "0fbdccab389fbb37aeecb2e21145f60d9d50bf317bdf47f7bc1388cd945aa1da"

abbrev pub is_supported_arch : Text → Bool
is_supported_arch goarch = text_eq goarch arch_arm64 || text_eq goarch arch_amd64

abbrev pub debian_url_for : Text → Text
debian_url_for goarch =
    codes "https://cloud.debian.org/images/cloud/trixie/"
    ++ debian_trixie_build
    ++ codes "/debian-13-genericcloud-"
    ++ goarch
    ++ codes "-"
    ++ debian_trixie_build
    ++ codes ".qcow2"

unfoldable pub debian_trixie_url : Text → Result ConfigError Text
debian_trixie_url goarch =
    if is_supported_arch goarch then ok (debian_url_for goarch) else err (unsupported_arch goarch)

unfoldable pub debian_trixie_sha512 : Text → Text
debian_trixie_sha512 goarch =
    if text_eq goarch arch_arm64
    then debian_trixie_sha512_arm64
    else if text_eq goarch arch_amd64
    then debian_trixie_sha512_amd64
    else []

abbrev pub hosted_url_for : Text → Text
hosted_url_for goarch =
    codes "https://github.com/stuffbucket/bladerunner/releases/download/"
    ++ hosted_guest_image_tag
    ++ codes "/bladerunner-guest-"
    ++ goarch
    ++ codes ".qcow2"

unfoldable pub hosted_guest_image_url : Text → Result ConfigError Text
hosted_guest_image_url goarch =
    if is_supported_arch goarch then ok (hosted_url_for goarch) else err (unsupported_arch goarch)

unfoldable pub resolve_base_image_url : Text → Bool → Result ConfigError Text
unfolding hosted_guest_image_url debian_trixie_url
resolve_base_image_url goarch true = hosted_guest_image_url goarch
resolve_base_image_url goarch false = debian_trixie_url goarch

-- The mutated configuration is the result: on an error nothing has been written.
unfoldable pub use_debian_image : Config → Result ConfigError Config
use_debian_image cfg = do
  url ← debian_trixie_url cfg.arch
  ok (record cfg {
    base_image_url = url;
    base_image_sha512 = debian_trixie_sha512 cfg.arch;
    base_image_expected_sha256 = [];
    base_image_path = [];
    use_hosted_guest_image = false;
  })
