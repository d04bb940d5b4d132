-- ===== src/SavedState/Tests.antt =====
-- A codec that reads back what it writes, one saved guest, and the theorem at them.
use bladerunner.Prelude.{
  Bool, Option, Text, drop, drop-length-append, err, false, length, negsuc, none, ok, pos, refl,
  some, suc, take, take-length-append, true, zero, ℕ, ℤ, ◌++◌, ◌↔◌, ◌∷◌, ◌≡◌,
}
use bladerunner.Prelude.FilePath
use bladerunner.Config.{Config}
use bladerunner.Config.Default.{set_ssh_keys, default_at}
use bladerunner.Config.Tests.{sample_config}
use bladerunner.SavedState.{
  SaveMetadata, Codec, Stamp, Stat, missing, present, effective_share_tag, metadata_of,
  prepare_restore, Vz, Machine, save_state, disk_changed,
}
use bladerunner.SavedState.Restore.{ReadsBack, with_sizes, FitsSnapshot, prepare_restore-save_state}

abbrev sign : ℤ → ℕ
sign (pos _) = 0
sign (negsuc _) = 1

abbrev magnitude : ℤ → ℕ
magnitude (pos n) = n
magnitude (negsuc n) = n

abbrev signed : ℕ → ℕ → ℤ
signed zero n = pos n
signed (suc _) n = negsuc n

abbrev mode_code : Option Bool → ℕ
mode_code none = 0
mode_code (some false) = 1
mode_code (some true) = 2

abbrev coded_mode : ℕ → Option Bool
coded_mode zero = none
coded_mode (suc zero) = some false
coded_mode (suc (suc _)) = some true

abbrev encode_metadata : SaveMetadata → Text
encode_metadata m =
    m.cpus
      ∷ m.memory_gib
      ∷ sign m.disk_size_gib
      ∷ magnitude m.disk_size_gib
      ∷ mode_code m.gui
      ∷ sign m.disk_size_bytes
      ∷ magnitude m.disk_size_bytes
      ∷ sign m.disk_mtime
      ∷ magnitude m.disk_mtime
      ∷ m.disk_inode
      ∷ length m.disk_path
      ∷ m.disk_path
    ++ m.share_tag

abbrev decode_metadata : Text → Option SaveMetadata
decode_metadata (cpus ∷ memory ∷ s₁ ∷ n₁ ∷ mode ∷ s₂ ∷ n₂ ∷ s₃ ∷ n₃ ∷ inode ∷ len ∷ rest) =
    some (record {
      cpus = cpus;
      memory_gib = memory;
      disk_size_gib = signed s₁ n₁;
      disk_path = take len rest;
      gui = coded_mode mode;
      share_tag = drop len rest;
      disk_size_bytes = signed s₂ n₂;
      disk_mtime = signed s₃ n₃;
      disk_inode = inode;
    })
decode_metadata _ = none

abbrev codec : Codec
codec = record { marshal = λ m. some (encode_metadata m); unmarshal = decode_metadata }

signed-sign : (z : ℤ) → signed (sign z) (magnitude z) ≡ z
signed-sign (pos n) = refl
signed-sign (negsuc n) = refl

coded_mode-code : (o : Option Bool) → coded_mode (mode_code o) ≡ o
coded_mode-code none = refl
coded_mode-code (some false) = refl
coded_mode-code (some true) = refl

codec-ReadsBack : (m : SaveMetadata) → ReadsBack codec m
codec-ReadsBack m =
    let d = signed-sign m.disk_size_gib in
    let b = signed-sign m.disk_size_bytes in
    let t = signed-sign m.disk_mtime in
    let g = coded_mode-code m.gui in
    let p = take-length-append m.disk_path m.share_tag in
    let q = drop-length-append m.disk_path m.share_tag in
    (
      encode_metadata m,
      refl,
      λ i. some (record m {
        disk_size_gib = d i;
        disk_path = p i;
        gui = g i;
        share_tag = q i;
        disk_size_bytes = b i;
        disk_mtime = t i;
      }),
    )

abbrev able : Vz
able = record {
  started = true;
  supported = true;
  can_pause = true;
  pause = true;
  remove_stale = true;
  save = true;
  resume = true;
}

abbrev running : Machine
running = record { paused = false; saved_state = false; sidecar = missing }

abbrev stamp : Stamp
stamp = record { bytes = pos 1000; mtime = pos 50; inode = 7 }

abbrev disk : Stat
disk _ = some stamp

abbrev touched : Stat
touched _ = some (record stamp { mtime = pos 51 })

-- The disk has changed since the save.
touched-refused :
    prepare_restore codec touched
      (save_state codec disk present able sample_config running).machine.sidecar
      sample_config
    ≡ err (disk_changed sample_config.disk_path)
unfolding prepare_restore save_state set_ssh_keys default_at FilePath.join
touched-refused = refl

-- Another size now: the saved sizes are taken.
abbrev resized : Config
resized = record sample_config { cpus = 9; memory_gib = 31 }

prepare_restore-save_state_example :
    (prepare_restore codec disk
        (save_state codec disk present able sample_config running).machine.sidecar
        resized
      ≡ ok sample_config)
    ↔ (FitsSnapshot sample_config stamp disk resized
        × (sample_config ≡ with_sizes sample_config resized))
unfolding save_state
prepare_restore-save_state_example =
    prepare_restore-save_state codec disk disk present able sample_config resized running stamp
      sample_config
      (codec-ReadsBack (metadata_of sample_config (effective_share_tag sample_config) stamp))
      (λ text. refl) refl refl
