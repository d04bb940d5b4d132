-- ===== src/Cartridge/Boot.antt =====
-- `br boot` of a cartridge (cmd/bladerunner/cartridge.go): the image from the
-- conversion and the attach to the detach. Of runStart it has the check of the image overrides, which
-- comes before the deferred detach, and that detach; what is between them does not touch the image.
-- What the deferred calls print is not modelled.
pub mod Mounted
pub mod Released
use bladerunner.Prelude.{
  &&-eq-true, ==_iff, ==_refl, >>-eq-ok, >>=-eq-ok, All, All-append, AtLeast, AtMost, Bool,
  Bool-cases, Check, IsDigit, List, Option, Option-cases, Result, String, Text, [], ap, append-nil,
  append_assoc, arith, atoi, atoi-decimal, codes, contains, cut_byte, cut_prefix, cut_prefix-some,
  decimal, decimal-cons, decimal-digits, drop, drop-length-append, err, fail_if, fail_if-eq-ok,
  false, fun_ext, get_elem?, has_prefix, has_prefix-rest, has_suffix, if◌then◌else◌, in_int64, inl,
  inr, int_eq, int_eq_iff, int_gt, int_gt_iff, int_lt, int_lt_iff, is_empty, is_ok, is_ok_unit,
  is_space, itoa, leb, length, length-append, length-drop, length-take, lines_onto, ltb, map,
  map_err, min, ne_text_eq, negsuc, none, not, ok, ok-injective, parse-decimal, parse_digits,
  parse_nat, pos, refl, replicate, reverse, some, split_lines, subst, suc, sym, take,
  take-length-append, text_eq, text_eq_iff, text_eq_ne, text_eq_refl, to_lower, to_lower_byte,
  trim_left, trim_right, trim_space, true, zero, ||-eq-false, ℕ, ℤ, ◌%◌, ◌&&◌, ◌*◌, ◌++◌, ◌+◌, ◌-◌,
  ◌/◌, ◌<◌, ◌==◌, ◌>>=◌, ◌>>◌, ◌^◌, ◌||◌, ◌↔◌, ◌∙◌, ◌∷◌, ◌≡◌, ◌≢◌, ◌≤◌, ◌⊎◌,
}
use bladerunner.Prelude.FilePath.{join, ext}
use bladerunner.Config.Default.{Env}
use bladerunner.Boot.{BootFlags, StartFlags, pick_cpus, pick_memory_gib, pick_disk_gib, gui_mode}
use bladerunner.Disk.{Manifest}
use bladerunner.Start.{Flags, StartError, validate_image_override_flags}
use bladerunner.Disk.Name.{valid_name}
use bladerunner.Cartridge.{Runs, Tool, CartridgeError, Ended, sparse_ext, dmg_ext}
use bladerunner.Cartridge.Image.{Host, Mount}
use bladerunner.Cartridge.Mac
use bladerunner.Cartridge.Pack.{
  BootCartridge, manifest_file, cartridge_name_from_path, cartridge_mountpoint, trim_cartridge_ext,
}

-- What is around the command: `running` asks the control socket of a directory, `load` is
-- disk.Load.
pub record Site : Type 0 where
  pub host : Host
  pub tool : Tool
  pub env : Env
  pub running : Text → Bool
  pub load : Text → Option Manifest

-- What the command has done to the outside: the runs of hdiutil and the calls of os.Remove, the
-- last one first.
pub record Work : Type 0 where
  pub calls : Runs
  pub removed : List Text

pub data BootFailure : Type 0 where
  bad_name already_booted : Text → BootFailure
  not_converted not_attached : CartridgeError → BootFailure
  bad_manifest : Text → BootFailure

pub record Booting : Type 0 where
  pub result : Result BootFailure (BootCartridge × StartFlags)
  pub work : Work

-- The image to attach and the working copy, empty where there is none
pub record Prepared : Type 0 where
  pub image : Result BootFailure (Text × Text)
  pub work : Work

abbrev remove_file : Text → Work → Work
remove_file path w = record w { removed = path ∷ w.removed }

abbrev pub remove_copy : Text → Work → Work
remove_copy [] w = w
remove_copy (c ∷ copy) w = remove_file (c ∷ copy) w

-- The working copy is the image to attach.
unfoldable pub copied : Result CartridgeError Text → Result BootFailure (Text × Text)
copied (ok p) = ok (p, p)
copied (err e) = err (not_converted e)

unfoldable pub conversion : List Text → Ended Text → Prepared
unfolding copied
conversion removed ended = record {
  image = copied ended.result;
  work = record { calls = ended.calls; removed = removed };
}

-- A .dmg is converted to a working copy beside it; what stood there is removed first.
unfoldable pub prepare : Site → Text → Work → Prepared
unfolding ext trim_cartridge_ext conversion Mac.convert_to_sparse text_eq
prepare site path w =
    if text_eq (ext path) dmg_ext
    then conversion ((trim_cartridge_ext path ++ sparse_ext) ∷ w.removed)
        (Mac.convert_to_sparse site.host site.tool path (trim_cartridge_ext path) w.calls)
    else record { image = ok (path, []); work = w }

unfoldable pub cartridge_start_flags : BootFlags → Manifest → Text → StartFlags
cartridge_start_flags f m mountpoint = record {
  state_dir = mountpoint;
  cpus = pick_cpus f.cpus m.vm.cpus;
  memory = pick_memory_gib f.memory m.vm.memory_gib;
  disk = pick_disk_gib f.disk m.vm.disk_size_gib;
  gui = gui_mode f m;
  restore_from = [];
}

-- The manifest in the attached image, and the hand-over to runStart
unfoldable pub load_mounted :
    Site → BootFlags → Text → Text → Text → Option Manifest → Work → Booting
unfolding Mac.detach_image cartridge_start_flags
load_mounted site f name copy mountpoint none w = record {
  result = err (bad_manifest mountpoint);
  work =
      remove_copy copy
        (record w { calls = (Mac.detach_image site.host site.tool mountpoint w.calls).calls });
}
load_mounted site f name copy mountpoint (some m) w = record {
  result = ok (
    record { mountpoint = mountpoint; manifest = m; name = name; working_copy = copy },
    cartridge_start_flags f m mountpoint,
  );
  work = w;
}

unfoldable pub attached :
    Site → BootFlags → Text → Text → Result CartridgeError Mount → Work → Booting
unfolding load_mounted join
attached site f name copy (err e) w = record {
  result = err (not_attached e);
  work = remove_copy copy w;
}
attached site f name copy (ok mount) w =
    load_mounted site f name copy mount.mountpoint
      (site.load (join (mount.mountpoint ∷ manifest_file ∷ []))) w

unfoldable pub attach_prepared :
    Site → BootFlags → Text → Text → Result BootFailure (Text × Text) → Work → Booting
unfolding attached Mac.attach
attach_prepared site f name base_dir (err e) w = record { result = err e; work = w }
attach_prepared site f name base_dir (ok (image, copy)) w =
    let ended = Mac.attach site.host site.tool image base_dir w.calls in
    attached site f name copy ended.result (record w { calls = ended.calls })

-- runBootCartridge, up to the call of runStart
unfoldable pub run_boot_cartridge : Site → BootFlags → Text → Work → Booting
unfolding cartridge_name_from_path cartridge_mountpoint valid_name prepare attach_prepared
run_boot_cartridge site f path w =
    let name = cartridge_name_from_path path in
    let base_dir = cartridge_mountpoint site.env name in
    if not (valid_name name)
    then record { result = err (bad_name name); work = w }
    else if site.running base_dir
    then record { result = err (already_booted name); work = w }
    else let p = prepare site path w in attach_prepared site f name base_dir p.image p.work

-- detachBootCartridge
unfoldable pub detach_boot_cartridge : Site → BootCartridge → Work → Work
unfolding Mac.detach_image
detach_boot_cartridge site b w =
    if is_empty b.mountpoint
    then w
    else remove_copy b.working_copy
        (record w { calls = (Mac.detach_image site.host site.tool b.mountpoint w.calls).calls })

-- startFlags as a boot of a cartridge leaves them, for the flags of images: the command has none.
abbrev pub image_flags : StartFlags → Flags
image_flags f = record {
  cpus = f.cpus;
  memory = f.memory;
  disk = f.disk;
  gui = f.gui;
  state_dir = f.state_dir;
  image_url = [];
  image_path = [];
  hosted_image = false;
  debian_image = false;
  timeout = pos 0;
  no_nested = false;
}

abbrev pub leave_start : Site → BootCartridge → Check StartError → Work → Work
leave_start site b (err e) w = w
leave_start site b (ok _) w = detach_boot_cartridge site b w

-- What runStart does with the image: it returns where the image overrides contradict each other, and
-- else defers detachBootCartridge.
unfoldable pub run_start_cartridge : Site → BootCartridge → StartFlags → Work → Work
unfolding detach_boot_cartridge validate_image_override_flags
run_start_cartridge site b f w =
    leave_start site b (validate_image_override_flags site.env (image_flags f)) w
