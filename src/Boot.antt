-- ===== src/Boot.antt =====
-- cmd/bladerunner/boot.go: what `br boot` makes of its argument, its flags and the manifest.
pub mod SlotName
pub mod Resolve
pub mod Tests
use bladerunner.Prelude.{
  &&-eq-true, ==_iff, ==_refl, >>-eq-ok, >>=-eq-ok, All, All-append, AtLeast, AtMost, Bool,
  Bool-cases, Check, List, Option, Option-cases, Result, String, Text, [], ap, append-nil,
  append_assoc, arith, codes, contains, cut_byte, cut_prefix, drop, drop-length-append, err,
  fail_if, fail_if-eq-ok, false, fun_ext, get_elem?, has_prefix, has_suffix, if◌then◌else◌, inl,
  inr, int_eq, int_eq_iff, int_gt, int_gt_iff, int_lt, int_lt_iff, is_empty, is_ok, is_ok_unit,
  is_space, leb, length, length-append, length-drop, length-take, ltb, map, map_err, min,
  ne_text_eq, negsuc, none, not, ok, ok-injective, pos, refl, replicate, reverse, some, subst, suc,
  sym, take, take-length-append, text_eq, text_eq_iff, text_eq_ne, text_eq_refl, to_lower,
  to_lower_byte, trim_left, trim_right, trim_space, true, zero, ||-eq-false, ℕ, ℤ, ◌%◌, ◌&&◌, ◌*◌,
  ◌++◌, ◌+◌, ◌-◌, ◌/◌, ◌<◌, ◌==◌, ◌>>=◌, ◌>>◌, ◌^◌, ◌||◌, ◌↔◌, ◌∙◌, ◌∷◌, ◌≡◌, ◌≢◌, ◌≤◌, ◌⊎◌,
}
use bladerunner.Config.{default_cpus, default_memory_gib, default_disk_size_gib}
use bladerunner.Disk.{Manifest, boot_mode_headless, boot_mode_gui, validate}
use bladerunner.Disk.Catalog.{Catalog, lookup}
use bladerunner.Boot.SlotName.{slot_name_from_url}

pub data TargetKind : Type 0 where
  url_target file_target catalog_name cartridge_image : TargetKind

unfoldable pub is_cartridge_arg : Text → Bool
is_cartridge_arg arg = has_suffix arg (codes ".sparseimage") || has_suffix arg (codes ".dmg")

-- `classifyBootArg`; the argument `file_exists` is its parameter of that name.
unfoldable pub classify : Text → (Text → Bool) → TargetKind
unfolding is_cartridge_arg
classify arg file_exists =
    if contains arg (codes "://")
    then url_target
    else if is_cartridge_arg arg && file_exists arg
    then cartridge_image
    else if has_suffix arg (codes ".disk") && file_exists arg
    then file_target
    else catalog_name

pub data BootError : Type 0 where
  no_name_in_url invalid_synthesized unknown_disk unreadable_file : Text → BootError

-- The one-off manifest of a URL. `goarch` is `runtime.GOARCH`.
unfoldable pub synthesized : Text → Text → Text → Manifest
synthesized goarch name url = record {
  name = name;
  description = [];
  version = [];
  image = record {
    arches = (goarch, record { url = url; sha256 = [] }) ∷ [];
    path = [];
    hosted = false;
  };
  vm = record { cpus = 0; memory_gib = 0; disk_size_gib = pos 0 };
  boot = record { mode = boot_mode_headless; autologin = false };
  share = none;
}

unfoldable pub resolve_url : Text → Text → Text → Result BootError Manifest
unfolding synthesized
resolve_url goarch arg name = do
  fail_if (is_empty name) (no_name_in_url arg)
  map_err (λ _. invalid_synthesized arg) (validate (synthesized goarch name arg))
  ok (synthesized goarch name arg)

unfoldable pub or_unknown : Text → Option Manifest → (Text → BootError) → Result BootError Manifest
or_unknown arg none e = err (e arg)
or_unknown arg (some m) e = ok m

-- `resolveBootManifest`; `load` is `disk.Load`, and the default case also takes a cartridge, which
-- `runBoot` has sent elsewhere.
unfoldable pub resolve :
    Text → (Text → Option Manifest) → Catalog → TargetKind → Text → Result BootError Manifest
unfolding resolve_url or_unknown
resolve goarch load cat url_target arg = resolve_url goarch arg (slot_name_from_url arg)
resolve goarch load cat file_target arg = or_unknown arg (load arg) unreadable_file
resolve goarch load cat _ arg = elim (lookup arg cat) [
  | none ↦ err (unknown_disk arg)
  | some e ↦ ok e.manifest
]

unfoldable pub pick_cpus : ℕ → ℕ → ℕ
pick_cpus flag manifest =
    if ltb 0 flag then flag else if ltb 0 manifest then manifest else default_cpus

unfoldable pub pick_memory_gib : ℕ → ℕ → ℕ
pick_memory_gib flag manifest =
    if ltb 0 flag then flag else if ltb 0 manifest then manifest else default_memory_gib

unfoldable pub pick_disk_gib : ℤ → ℤ → ℤ
pick_disk_gib flag manifest =
    if int_gt flag 0
    then flag
    else if int_gt manifest 0
    then manifest
    else pos default_disk_size_gib

-- `bootFlags`
pub record BootFlags : Type 0 where
  pub cpus : ℕ
  pub memory : ℕ
  pub disk : ℤ
  pub gui : Bool
  pub headless : Bool
  pub no_restore : Bool

-- The part of `startFlags` that `runBoot` sets from the manifest and its flags.
pub record StartFlags : Type 0 where
  pub state_dir : Text
  pub cpus : ℕ
  pub memory : ℕ
  pub disk : ℤ
  pub gui : Bool
  pub restore_from : Text

abbrev pub gui_mode : BootFlags → Manifest → Bool
gui_mode f m =
    if f.gui then true else if f.headless then false else text_eq m.boot.mode boot_mode_gui

-- The assignments of `runBoot` behind its guards. `base_dir` is the slot of the disk, `save` its
-- saved-state path, and `saved` whether that file exists.
unfoldable pub start_flags : BootFlags → Manifest → Text → Text → Bool → StartFlags
start_flags f m base_dir save saved = record {
  state_dir = base_dir;
  cpus = pick_cpus f.cpus m.vm.cpus;
  memory = pick_memory_gib f.memory m.vm.memory_gib;
  disk = pick_disk_gib f.disk m.vm.disk_size_gib;
  gui = gui_mode f m;
  restore_from = if not f.no_restore && saved then save else [];
}
