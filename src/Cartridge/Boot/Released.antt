-- ===== src/Cartridge/Boot/Released.antt =====
-- What a boot of a cartridge leaves behind when the command ends.
use bladerunner.Prelude.{
  Option, Result, Text, [], err, false, none, ok, some, text_eq, true, ◌&&◌, ◌++◌, ◌∷◌, ◌≡◌, ◌⊎◌,
}
use bladerunner.Prelude.FilePath.{ext}
use bladerunner.Boot.{StartFlags}
use bladerunner.Disk.{Manifest}
use bladerunner.Cartridge.{CartridgeError, sparse_ext, dmg_ext}
use bladerunner.Cartridge.Image.{Mount}
use bladerunner.Cartridge.Mac
use bladerunner.Cartridge.Pack.{manifest_file, BootCartridge, trim_cartridge_ext}
use bladerunner.Config.Default.{Env, force_hosted_image, force_debian_image}
use bladerunner.Prelude.FilePath.{join}
use bladerunner.Cartridge.Boot.{run_start_cartridge, Site, Work, BootFailure, Booting, remove_copy}

-- The command to its end, where runStart follows the hand-over.
abbrev end_of : Site → Result BootFailure (BootCartridge × StartFlags) → Work → Work
end_of site (err e) w = w
end_of site (ok (b, flags)) w = run_start_cartridge site b flags w

abbrev pub finish : Site → Booting → Work
finish site b = end_of site b.result b.work

-- The environment forces both images.
abbrev pub ForcesBoth : Env → Type 0
ForcesBoth env = (force_hosted_image env && force_debian_image env) ≡ true

-- The manifest of an attached image, where disk.Load finds it
abbrev pub manifest_at : Site → Text → Option Manifest
manifest_at site mountpoint = site.load (join (mountpoint ∷ manifest_file ∷ []))

abbrev pub after_attach : Site → Text → Text → Work → Work
after_attach site base_dir image before = record before {
  calls = (Mac.attach site.host site.tool image base_dir before.calls).calls;
}

-- What is left of an attached image: it is detached and the working copy is removed; or the manifest
-- was read and both overrides are forced, and nothing follows the attach.
abbrev pub Leaves : Site → Text → Text → Work → Work → Type 0
Leaves site mountpoint copy w end =
    (((manifest_at site mountpoint ≡ none)
        ⊎ ((force_hosted_image site.env && force_debian_image site.env) ≡ false))
      × (end
          ≡ remove_copy copy (record w {
            calls = (Mac.detach_image site.host site.tool mountpoint w.calls).calls;
          })))
    ⊎ (((m : Manifest) × (manifest_at site mountpoint ≡ some m)) × ForcesBoth site.env × (end ≡ w))

abbrev pub EndsAttached : Site → Text → Text → Text → Work → Work → Type 0
EndsAttached site base_dir image copy before end =
    ((e : CartridgeError) × ((Mac.attach site.host site.tool image base_dir before.calls).result
        ≡ err e)
      × (end ≡ remove_copy copy (after_attach site base_dir image before)))
    ⊎ ((mount : Mount) × ((Mac.attach site.host site.tool image base_dir before.calls).result
          ≡ ok mount)
        × Leaves site mount.mountpoint copy (after_attach site base_dir image before) end)

abbrev pub stale_copy : Text → Text
stale_copy path = trim_cartridge_ext path ++ sparse_ext

-- After the conversion of a .dmg, for which what stood at the stale copy's path has gone
abbrev pub dmg_converted : Site → Text → Work → Work
dmg_converted site path w = record {
  calls = (Mac.convert_to_sparse site.host site.tool path (trim_cartridge_ext path) w.calls).calls;
  removed = stale_copy path ∷ w.removed;
}

abbrev pub EndsConverted : Site → Text → Text → Work → Work → Type 0
EndsConverted site path base_dir w end =
    ((e : CartridgeError) × ((Mac.convert_to_sparse site.host site.tool path
          (trim_cartridge_ext path) w.calls).result
        ≡ err e)
      × (end ≡ dmg_converted site path w))
    ⊎ ((copy : Text) × ((Mac.convert_to_sparse site.host site.tool path (trim_cartridge_ext path)
            w.calls).result
          ≡ ok copy)
        × EndsAttached site base_dir copy copy (dmg_converted site path w) end)

-- How a boot that gets to the image ends, for an image of either form
abbrev pub EndsPrepared : Site → Text → Text → Work → Work → Type 0
EndsPrepared site path base_dir w end =
    ((text_eq (ext path) dmg_ext ≡ false) × EndsAttached site base_dir path [] w end)
    ⊎ ((text_eq (ext path) dmg_ext ≡ true) × EndsConverted site path base_dir w end)
