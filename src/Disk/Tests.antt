-- ===== src/Disk/Tests.antt =====
-- Concrete manifests and catalogs, and the theorems at them.
use bladerunner.Prelude.{
  List, [], arith, codes, cut_prefix, false, has_prefix, has_suffix, inr, none, ok, pos, refl, some,
  text_eq, true, ◌↔◌, ◌∷◌, ◌≡◌,
}
use mathlib.Core.List.{Perm}
use bladerunner.Prelude.FilePath.{join}
use bladerunner.Config.{Config, arch_arm64}
use bladerunner.Config.Validate.{validate as validate_config}
use bladerunner.Config.Default.{default_at, set_ssh_keys}
use bladerunner.Config.Tests.{sample_config, sample_config-ok}
use bladerunner.Disk.{
  Manifest, validate, validate_image, validate_share, validate_arches, sources, boot_mode_gui,
}
use bladerunner.Disk.Name.{valid_name, valid_sha256, is_name_start, is_name_byte, all_bytes}
use bladerunner.Disk.WellFormed.{IsDiskName, IsWellFormed, validate-IsWellFormed, valid_name_iff}
use bladerunner.Disk.Apply.{
  apply_to, apply_image, apply_sizes, effective_arch, lookup_arch, use_arch,
}
use bladerunner.Disk.Apply.Outcome.{Outcome, apply_to_outcome}
use bladerunner.Disk.Apply.Runnable.{FitsSizes, validate-apply_manifest}
use bladerunner.Disk.Catalog.{
  Catalog, DirEntry, Unmarshal, listed, user, lookup, load_catalog, load_builtins, list,
  load_builtin, add_builtin, load_user_dir, load_user_files, add_user, load_manifest,
  parse_manifest, accept, is_manifest_file, insert,
}
use bladerunner.Disk.Catalog.Laws.{Inv, load_catalog-Inv}
use bladerunner.Disk.Catalog.Overlay.{overlaid, last_named, user_manifests, lookup-load_catalog}
use bladerunner.Disk.Catalog.Order.{IsSorted, entries, list-load_catalog}

abbrev pub desktop : Manifest
desktop = record {
  name = codes "desktop";
  description = [];
  version = [];
  image = record {
    arches = (arch_arm64, record { url = codes "https://host/desktop.qcow2"; sha256 = [] }) ∷ [];
    path = [];
    hosted = false;
  };
  vm = record { cpus = 2; memory_gib = 4; disk_size_gib = pos 32 };
  boot = record { mode = boot_mode_gui; autologin = false };
  share = none;
}

pub desktop-ok : validate desktop ≡ ok tt
unfolding validate validate_image validate_share validate_arches sources valid_name is_name_start
    is_name_byte all_bytes valid_sha256 text_eq
desktop-ok = refl

pub desktop-FitsSizes : FitsSizes desktop.vm
desktop-FitsSizes = record { memory = inr (omega arith); disk = inr (omega arith) }

-- Every file holds the manifest.
abbrev unmarshal : Unmarshal
unmarshal _ = some desktop

abbrev builtin_files : List DirEntry
builtin_files = record { name = codes "desktop.disk"; is_dir = false; content = some [] } ∷ []

abbrev user_files : List DirEntry
user_files = record { name = codes "mine.disk"; is_dir = false; content = some [] } ∷ []

abbrev loaded_catalog : Catalog
loaded_catalog =
    (
      codes "desktop",
      record {
        manifest = desktop;
        origin = user;
        path = join (codes "/disks" ∷ codes "mine.disk" ∷ []);
      },
    )
    ∷ []

sample_catalog-ok :
    load_catalog unmarshal (some builtin_files) (codes "/disks") (listed user_files)
    ≡ ok loaded_catalog
unfolding load_catalog load_builtins load_builtin add_builtin load_user_dir load_user_files add_user
    load_manifest parse_manifest accept is_manifest_file insert validate validate_image
    validate_share validate_arches sources valid_name is_name_start is_name_byte all_bytes
    valid_sha256 text_eq has_suffix has_prefix cut_prefix
sample_catalog-ok = refl

validate-IsWellFormed_example : (validate desktop ≡ ok tt) ↔ IsWellFormed desktop
validate-IsWellFormed_example = validate-IsWellFormed desktop

valid_name_iff_example : (valid_name (codes "my-disk") ≡ true) ↔ IsDiskName (codes "my-disk")
valid_name_iff_example = valid_name_iff (codes "my-disk")

apply_to_outcome_example :
    Outcome desktop.image
      (effective_arch arch_arm64 sample_config)
      (apply_to arch_arm64 desktop sample_config)
apply_to_outcome_example = apply_to_outcome arch_arm64 desktop sample_config desktop-ok

abbrev booted_config : Config
booted_config = apply_sizes desktop.vm desktop.boot.mode (record sample_config {
  use_hosted_guest_image = false;
  base_image_url = codes "https://host/desktop.qcow2";
  base_image_path = [];
  base_image_sha512 = [];
  base_image_expected_sha256 = [];
})

apply_to-desktop : apply_to arch_arm64 desktop sample_config ≡ ok booted_config
unfolding apply_to apply_image apply_sizes lookup_arch use_arch text_eq set_ssh_keys default_at
apply_to-desktop = refl

validate-apply_manifest_example : validate_config booted_config ≡ ok tt
validate-apply_manifest_example =
    validate-apply_manifest arch_arm64 desktop sample_config desktop-ok desktop-FitsSizes
      sample_config-ok apply_to-desktop

load_catalog-Inv_example : Inv loaded_catalog
load_catalog-Inv_example =
    load_catalog-Inv unmarshal (some builtin_files) (codes "/disks") (listed user_files)
      sample_catalog-ok

lookup-load_catalog_example :
    (b : Catalog) × (load_builtins unmarshal builtin_files [] ≡ ok b)
    × (lookup (codes "desktop") loaded_catalog
        ≡ overlaid
            (codes "/disks")
            (last_named (codes "desktop") (user_manifests unmarshal user_files))
            (lookup (codes "desktop") b))
lookup-load_catalog_example =
    lookup-load_catalog unmarshal builtin_files (codes "/disks") (codes "desktop") user_files
      sample_catalog-ok

list-load_catalog_example :
    Perm (list loaded_catalog) (entries loaded_catalog) × IsSorted (list loaded_catalog)
list-load_catalog_example =
    list-load_catalog unmarshal (some builtin_files) (codes "/disks") (listed user_files)
      sample_catalog-ok
