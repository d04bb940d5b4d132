-- ===== src/SavedState.antt =====
-- Saved guest memory and its sidecar (internal/vm/savestate.go), and the save and the restore of
-- internal/vm/runner_darwin.go. encoding/json is a `Codec`, os.Stat of the disk a `Stat`, and `Vz`
-- says which calls into the Virtualization framework and package os succeed.
pub mod Restore
pub mod Tests
use bladerunner.Prelude.{
  &&-eq-true, ==_iff, ==_refl, >>-eq-ok, >>=-eq-ok, All, All-append, AtLeast, AtMost, Bool,
  Bool-cases, Check, IsDigit, List, Option, Option-cases, Result, String, Text, [], ap, append-nil,
  append_assoc, arith, atoi, atoi-decimal, codes, contains, cut_byte, cut_prefix, decimal,
  decimal-cons, decimal-digits, drop, drop-length-append, err, fail_if, fail_if-eq-ok, false,
  fun_ext, get_elem?, has_prefix, has_suffix, if◌then◌else◌, in_int64, inl, inr, int_eq, int_eq_iff,
  int_gt, int_gt_iff, int_lt, int_lt_iff, is_empty, is_ok, is_ok_unit, is_space, itoa, leb, length,
  length-append, length-drop, length-take, ltb, map, map_err, min, ne_text_eq, negsuc, none, not,
  ok, ok-injective, parse_digits, parse_nat, pos, refl, replicate, reverse, some, subst, suc, sym,
  take, take-length-append, text_eq, text_eq_iff, text_eq_ne, text_eq_refl, to_lower, to_lower_byte,
  trim_left, trim_right, trim_space, true, zero, ||-eq-false, ℕ, ℤ, ◌%◌, ◌&&◌, ◌*◌, ◌++◌, ◌+◌, ◌-◌,
  ◌/◌, ◌<◌, ◌==◌, ◌>>=◌, ◌>>◌, ◌^◌, ◌||◌, ◌↔◌, ◌∙◌, ◌∷◌, ◌≡◌, ◌≢◌, ◌≤◌, ◌⊎◌,
}
use bladerunner.Config.{Config}
use bladerunner.Cartridge.Pack.{default_share_tag}

pub record SaveMetadata : Type 0 where
  pub cpus : ℕ
  pub memory_gib : ℕ
  pub disk_size_gib : ℤ
  pub disk_path : Text
  pub gui : Option Bool
  pub share_tag : Text
  pub disk_size_bytes : ℤ
  pub disk_mtime : ℤ
  pub disk_inode : ℕ

pub record Codec : Type 0 where
  pub marshal : SaveMetadata → Option Text
  pub unmarshal : Text → Option SaveMetadata

-- What os.Stat tells of a file; the inode is 0 where the system tells none.
pub record Stamp : Type 0 where
  pub bytes : ℤ
  pub mtime : ℤ
  pub inode : ℕ

abbrev pub Stat : Type 0
Stat = Text → Option Stamp

pub data Sidecar : Type 0 where
  missing unreadable : Sidecar
  present : Text → Sidecar

pub data RestoreError : Type 0 where
  no_sidecar read_failed parse_failed : RestoreError
  stat_failed disk_changed : Text → RestoreError
  other_mode : Bool → RestoreError
  other_share : Text → RestoreError

-- effectiveShareTag (internal/vm/vmconfig_darwin.go)
unfoldable pub effective_share_tag : Config → Text
effective_share_tag cfg =
    if is_empty cfg.share_dir
    then []
    else if is_empty cfg.share_tag
    then default_share_tag
    else cfg.share_tag

-- diskStamp, and the fields that writeSaveMetadata sets
unfoldable pub metadata_of : Config → Text → Stamp → SaveMetadata
metadata_of cfg share_tag s = record {
  cpus = cfg.cpus;
  memory_gib = cfg.memory_gib;
  disk_size_gib = cfg.disk_size_gib;
  disk_path = cfg.disk_path;
  gui = some cfg.gui;
  share_tag = share_tag;
  disk_size_bytes = s.bytes;
  disk_mtime = s.mtime;
  disk_inode = s.inode;
}

-- `write text` is the sidecar after os.WriteFile of `text`, which may have failed.
unfoldable pub write_encoded : (Text → Sidecar) → Option Text → Sidecar → Sidecar
write_encoded write none old = old
write_encoded write (some text) old = write text

unfoldable pub write_stamped :
    Codec → (Text → Sidecar) → Config → Text → Option Stamp → Sidecar → Sidecar
unfolding write_encoded metadata_of
write_stamped codec write cfg share_tag none old = old
write_stamped codec write cfg share_tag (some s) old =
    write_encoded write (codec.marshal (metadata_of cfg share_tag s)) old

-- writeSaveMetadata, by what it leaves of the sidecar: SaveState only logs its error.
unfoldable pub write_save_metadata :
    Codec → Stat → (Text → Sidecar) → Config → Text → Sidecar → Sidecar
unfolding write_stamped
write_save_metadata codec stat write cfg share_tag old =
    write_stamped codec write cfg share_tag (stat cfg.disk_path) old

unfoldable pub decoded : Option SaveMetadata → Result RestoreError SaveMetadata
decoded none = err parse_failed
decoded (some m) = ok m

-- LoadSaveMetadata
unfoldable pub load_save_metadata : Codec → Sidecar → Result RestoreError SaveMetadata
unfolding decoded
load_save_metadata codec missing = err no_sidecar
load_save_metadata codec unreadable = err read_failed
load_save_metadata codec (present text) = decoded (codec.unmarshal text)

unfoldable pub compare_stamp : SaveMetadata → Option Stamp → Check RestoreError
compare_stamp m none = err (stat_failed m.disk_path)
compare_stamp m (some cur) =
    fail_if
      (not (int_eq cur.bytes m.disk_size_bytes)
        || not (int_eq cur.mtime m.disk_mtime)
        || (not (m.disk_inode == 0) && not (cur.inode == m.disk_inode)))
      (disk_changed m.disk_path)

-- VerifyDisk
unfoldable pub verify_disk : Stat → SaveMetadata → Check RestoreError
unfolding compare_stamp
verify_disk stat m = compare_stamp m (stat m.disk_path)

-- The sizes of the snapshot, where the sidecar has them
unfoldable pub adopt : SaveMetadata → Config → Config
adopt m cfg = record cfg {
  cpus = if ltb 0 m.cpus then m.cpus else cfg.cpus;
  memory_gib = if ltb 0 m.memory_gib then m.memory_gib else cfg.memory_gib;
  disk_size_gib = if int_gt m.disk_size_gib 0 then m.disk_size_gib else cfg.disk_size_gib;
}

abbrev bool_eq : Bool → Bool → Bool
bool_eq true b = b
bool_eq false b = not b

unfoldable pub check_mode : Option Bool → Bool → Check RestoreError
check_mode none gui = ok tt
check_mode (some g) gui = fail_if (not (bool_eq g gui)) (other_mode g)

unfoldable pub check_snapshot : Stat → SaveMetadata → Config → Result RestoreError Config
unfolding check_mode effective_share_tag verify_disk text_eq
check_snapshot stat m cfg = do
  check_mode m.gui cfg.gui
  fail_if (not (text_eq m.share_tag (effective_share_tag cfg))) (other_share m.share_tag)
  verify_disk stat m
  ok (adopt m cfg)

unfoldable pub restore_with :
    Stat → Result RestoreError SaveMetadata → Config → Result RestoreError Config
unfolding check_snapshot
restore_with stat (err no_sidecar) cfg = ok cfg
restore_with stat (err e) cfg = err e
restore_with stat (ok m) cfg = check_snapshot stat m cfg

-- prepareRestore, with the configuration that StartVM goes on with
unfoldable pub prepare_restore : Codec → Stat → Sidecar → Config → Result RestoreError Config
unfolding restore_with load_save_metadata
prepare_restore codec stat file cfg = restore_with stat (load_save_metadata codec file) cfg

pub record Vz : Type 0 where
  pub started : Bool
  pub supported : Bool
  pub can_pause : Bool
  pub pause : Bool
  pub remove_stale : Bool
  pub save : Bool
  pub resume : Bool

pub data SaveError : Type 0 where
  not_started not_supported not_pausable pause_failed remove_failed save_failed : SaveError

-- The guest, the runner's savedState, and the sidecar
pub record Machine : Type 0 where
  pub paused : Bool
  pub saved_state : Bool
  pub sidecar : Sidecar

pub record Saving : Type 0 where
  pub result : Check SaveError
  pub machine : Machine

-- `_ = r.vm.Resume()` behind a failure
abbrev resumed : Vz → SaveError → Machine → Saving
resumed vz e m = record { result = err e; machine = record m { paused = not vz.resume } }

unfoldable pub save_paused : Codec → Stat → (Text → Sidecar) → Vz → Config → Machine → Saving
unfolding write_save_metadata effective_share_tag
save_paused codec stat write vz cfg m =
    if not vz.remove_stale
    then resumed vz remove_failed m
    else if not vz.save
    then resumed vz save_failed m
    else record {
      result = ok tt;
      machine = record {
        paused = true;
        saved_state = true;
        sidecar = write_save_metadata codec stat write cfg (effective_share_tag cfg) m.sidecar;
      };
    }

abbrev save_refused : SaveError → Machine → Saving
save_refused e m = record { result = err e; machine = m }

-- SaveState
unfoldable pub save_state : Codec → Stat → (Text → Sidecar) → Vz → Config → Machine → Saving
unfolding save_paused
save_state codec stat write vz cfg m =
    if not vz.started
    then save_refused not_started m
    else if not vz.supported
    then save_refused not_supported m
    else if not vz.can_pause
    then save_refused not_pausable m
    else if not vz.pause
    then save_refused pause_failed m
    else save_paused codec stat write vz cfg (record m { paused = true })
