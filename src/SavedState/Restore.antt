-- ===== src/SavedState/Restore.antt =====
-- When a snapshot is restored.
use bladerunner.Prelude.{
  >>-eq-ok, Bool, Option, Result, Text, ap, arith, fail_if-eq-ok, false, if◌then◌else◌, int_eq_iff,
  int_gt, ltb, none, not, ok, ok-injective, refl, some, sym, text_eq, text_eq_iff, text_eq_refl,
  true, ◌↔◌, ◌∙◌, ◌≡◌, ◌⊎◌,
}
use bladerunner.Config.{Config}
use bladerunner.SavedState.{
  SaveMetadata, Codec, Stamp, Stat, Sidecar, present, RestoreError, effective_share_tag,
  metadata_of, write_encoded, write_stamped, write_save_metadata, decoded, load_save_metadata,
  compare_stamp, verify_disk, adopt, check_mode, bool_eq, check_snapshot, restore_with,
  prepare_restore, Vz, Machine, save_paused, save_state,
}

-- The file that is there now is the one of the stamp.
abbrev pub SameFile : Stamp → Stamp → Type 0
SameFile s cur =
    (cur.bytes ≡ s.bytes) × (cur.mtime ≡ s.mtime) × ((s.inode ≡ 0) ⊎ (cur.inode ≡ s.inode))

-- The configuration and the disk are those of a snapshot of `cfg` with the disk's stamp `s`.
abbrev pub FitsSnapshot : Config → Stamp → Stat → Config → Type 0
FitsSnapshot cfg s stat now =
    (now.gui ≡ cfg.gui)
    × (effective_share_tag now ≡ effective_share_tag cfg)
    × ((cur : Stamp) × (stat cfg.disk_path ≡ some cur) × SameFile s cur)

-- The codec reads this document back from what it writes for it.
abbrev pub ReadsBack : Codec → SaveMetadata → Type 0
ReadsBack codec m = (text : Text) × (codec.marshal m ≡ some text) × (codec.unmarshal text ≡ some m)

-- The configuration `now` with the sizes of `cfg`, as far as those are positive
abbrev pub with_sizes : Config → Config → Config
with_sizes cfg now = record now {
  cpus = if ltb 0 cfg.cpus then cfg.cpus else now.cpus;
  memory_gib = if ltb 0 cfg.memory_gib then cfg.memory_gib else now.memory_gib;
  disk_size_gib = if int_gt cfg.disk_size_gib 0 then cfg.disk_size_gib else now.disk_size_gib;
}

compare_stamp_iff :
    (m : SaveMetadata) (cur : Stamp)
    → (compare_stamp m (some cur) ≡ ok tt) ↔ (
        (cur.bytes ≡ m.disk_size_bytes)
        × (cur.mtime ≡ m.disk_mtime)
        × ((m.disk_inode ≡ 0) ⊎ (cur.inode ≡ m.disk_inode)))
unfolding compare_stamp
compare_stamp_iff m cur = (
  λ h. ground (arith, int_eq_iff cur.bytes m.disk_size_bytes, int_eq_iff cur.mtime m.disk_mtime),
  λ h. ground (arith, int_eq_iff cur.bytes m.disk_size_bytes, int_eq_iff cur.mtime m.disk_mtime),
)

verify_disk_iff :
    (stat : Stat) (m : SaveMetadata)
    → (verify_disk stat m ≡ ok tt)
      ↔ ((cur : Stamp) × (stat m.disk_path ≡ some cur) × (compare_stamp m (some cur) ≡ ok tt))
unfolding verify_disk compare_stamp
verify_disk_iff stat m = (λ h. there (stat m.disk_path) refl h, λ (cur, e, h). (rw e h))
  where
    there :
        (o : Option Stamp)
        → stat m.disk_path ≡ o
        → compare_stamp m o ≡ ok tt
        → (cur : Stamp) × (stat m.disk_path ≡ some cur) × (compare_stamp m (some cur) ≡ ok tt)
    there none e h = cc
    there (some cur) e h = (cur, e, h)

bool_eq_iff : (a b : Bool) → (bool_eq a b ≡ true) ↔ (b ≡ a)
bool_eq_iff true b = ground arith
bool_eq_iff false b = ground arith

check_mode_iff : (g gui : Bool) → (check_mode (some g) gui ≡ ok tt) ↔ (gui ≡ g)
unfolding check_mode
check_mode_iff g gui =
    (λ h. ground (arith, bool_eq_iff g gui), λ h. ground (arith, bool_eq_iff g gui))

check_snapshot_sound :
    (stat : Stat) (cfg now : Config) (s : Stamp) {c : Config}
    → check_snapshot stat (metadata_of cfg (effective_share_tag cfg) s) now ≡ ok c
    → FitsSnapshot cfg s stat now × (c ≡ with_sizes cfg now)
unfolding check_snapshot metadata_of adopt
check_snapshot_sound stat cfg now s {c} h =
    let m = metadata_of cfg (effective_share_tag cfg) s in
    let (mode, h₁) = >>-eq-ok (check_mode (some cfg.gui) now.gui) _ h in
    let (share, h₂) =
      fail_if-eq-ok (not (text_eq (effective_share_tag cfg) (effective_share_tag now))) _ _ h₁ in
    let (disk, h₃) = >>-eq-ok (verify_disk stat m) _ h₂ in
    let (cur, e, same) = (verify_disk_iff stat m).0 disk in
    (
      (
        (check_mode_iff cfg.gui now.gui).0 mode,
        ground (arith, text_eq_iff (effective_share_tag cfg) (effective_share_tag now)),
        (cur, e, (compare_stamp_iff m cur).0 same),
      ),
      sym (ok-injective h₃),
    )

check_snapshot_complete :
    (stat : Stat) (cfg now : Config) (s : Stamp)
    → FitsSnapshot cfg s stat now
    → check_snapshot stat (metadata_of cfg (effective_share_tag cfg) s) now
      ≡ ok (with_sizes cfg now)
unfolding check_snapshot metadata_of adopt
check_snapshot_complete stat cfg now s (mode, share, (cur, e, same)) =
    let m = metadata_of cfg (effective_share_tag cfg) s in
    rw ((check_mode_iff cfg.gui now.gui).1 mode) (
      rw share (
        rw (text_eq_refl (effective_share_tag cfg))
          (rw ((verify_disk_iff stat m).1 (cur, e, (compare_stamp_iff m cur).1 same)) refl)))

save_state-sidecar :
    (codec : Codec) (stat : Stat) (write : Text → Sidecar) (vz : Vz) (cfg : Config) (m : Machine)
    → (save_state codec stat write vz cfg m).result ≡ ok tt
    → (save_state codec stat write vz cfg m).machine.sidecar
      ≡ write_save_metadata codec stat write cfg (effective_share_tag cfg) m.sidecar
unfolding save_state save_paused
save_state-sidecar codec stat write vz cfg m h = ground arith

load-write_save_metadata :
    (codec : Codec) (stat : Stat) (write : Text → Sidecar) (cfg : Config) (tag : Text)
    (old : Sidecar) (s : Stamp)
    → ReadsBack codec (metadata_of cfg tag s)
    → ((text : Text) → write text ≡ present text)
    → stat cfg.disk_path ≡ some s
    → load_save_metadata codec (write_save_metadata codec stat write cfg tag old)
      ≡ ok (metadata_of cfg tag s)
unfolding load_save_metadata write_save_metadata write_stamped write_encoded decoded
load-write_save_metadata codec stat write cfg tag old s trips writes there =
    let (text, e, d) = trips in rw there (rw e (rw (writes text) (rw d refl)))

-- A guest is saved, its sidecar is written, which the codec reads back, and the disk is there with a
-- stamp. Then a later restore from that sidecar goes on exactly if the configuration has the same
-- mode and the same share as then, and what stands at the disk path of then has the same size,
-- modification time and, unless none was recorded, inode. The configuration that it goes on with is
-- the present one with the processors, memory and disk size of the saved one, each if positive. The
-- disk path of the present configuration is not compared.
pub prepare_restore-save_state :
    (codec : Codec) (stat later : Stat) (write : Text → Sidecar) (vz : Vz) (cfg now : Config)
    (m : Machine) (s : Stamp) (c : Config)
    → ReadsBack codec (metadata_of cfg (effective_share_tag cfg) s)
    → ((text : Text) → write text ≡ present text)
    → stat cfg.disk_path ≡ some s
    → (save_state codec stat write vz cfg m).result ≡ ok tt
    → (prepare_restore codec later (save_state codec stat write vz cfg m).machine.sidecar now
        ≡ ok c)
      ↔ (FitsSnapshot cfg s later now × (c ≡ with_sizes cfg now))
unfolding prepare_restore restore_with
prepare_restore-save_state codec stat later write vz cfg now m s c trips writes there saved =
    let loaded : prepare_restore codec later (save_state codec stat write vz cfg m).machine.sidecar
          now
        ≡ check_snapshot later (metadata_of cfg (effective_share_tag cfg) s) now =
      ap (λ (f : Sidecar). prepare_restore codec later f now)
        (save_state-sidecar codec stat write vz cfg m saved)
      ∙ ap (λ (r : Result RestoreError SaveMetadata). restore_with later r now)
          (load-write_save_metadata codec stat write cfg (effective_share_tag cfg) m.sidecar s trips
            writes there) in
    (
      λ h. check_snapshot_sound later cfg now s (sym loaded ∙ h),
      λ (fits, e). loaded ∙ check_snapshot_complete later cfg now s fits ∙ ap ok (sym e),
    )
