-- ===== src/Cartridge/Tests.antt =====
-- A tool that finds a volume in use until it is forced, a site with a .dmg, and the theorems at
-- them.
use bladerunner.Prelude.{
  Text, [], codes, false, inl, inr, negsuc, none, ok, pos, refl, some, split_lines, to_lower, true,
  ℕ, ◌<◌, ◌∷◌, ◌≡◌, ◌⊎◌,
}
use bladerunner.Config.Tests.{sample_env, sample_config, sample_config-ok}
use bladerunner.Boot.{BootFlags}
use bladerunner.Disk.Name.{valid_name, is_name_start, is_name_byte, all_bytes}
use bladerunner.Disk.Tests.{desktop, desktop-ok}
use bladerunner.Cartridge.{
  Output, Tool, sparse_ext, dmg_ext, size_gib, is_busy, is_already_detached, detach, detach_args,
}
use bladerunner.Cartridge.Detach.{WasBusy, StoppedAt, ForcedAfter, detach-Outcome, detach-Releases}
use bladerunner.Cartridge.Image.{Host, resolve_output_path, first_created}
use bladerunner.Cartridge.Image.OutputPath.{IsOutputPath, resolve_output_path-IsOutputPath}
use bladerunner.Cartridge.Pack.{cartridge_name_from_path, apply_boot_cartridge}
use bladerunner.Cartridge.Pack.Valid.{Boots, booted, apply_boot_cartridge-Boots}
use bladerunner.Cartridge.Boot.{Site, Work, run_boot_cartridge, run_start_cartridge}
use bladerunner.Cartridge.Boot.Released.{finish}

abbrev in_use : Output
in_use = record {
  stdout = [];
  stderr = codes "hdiutil: couldn't unmount \"disk4\" - Resource busy";
  fault = some (codes "exit status 16");
}

abbrev done : Output
done = record { stdout = []; stderr = []; fault = none }

abbrev stubborn : Tool
stubborn past (verb ∷ mountpoint ∷ []) = in_use
stubborn past _ = done

abbrev mnt : Text
mnt = codes "/state/mnt/box"

sizes :
    (size_gib (pos 64) ≡ pos 72) × (size_gib (negsuc 4) ≡ pos 10) × (size_gib (negsuc 99) ≡ pos 10)
unfolding size_gib
sizes = (refl, refl, refl)

paths :
    (resolve_output_path (codes "Created: /a/box.dmg ") (codes "x") dmg_ext ≡ codes "/a/box.dmg")
    × (resolve_output_path [] (codes "/a/box") sparse_ext ≡ codes "/a/box.sparseimage")
    × (cartridge_name_from_path (codes "/a/box.sparseimage") ≡ codes "box")
unfolding resolve_output_path split_lines first_created cartridge_name_from_path
paths = (refl, refl, refl)

stubborn-busy : WasBusy in_use
unfolding is_already_detached is_busy
stubborn-busy = ((codes "exit status 16", refl), refl, refl)

detach-Outcome_example :
    ((n : ℕ) × (n < 4) × StoppedAt stubborn mnt [] n (detach stubborn mnt []))
    ⊎ ForcedAfter stubborn mnt [] 4 (detach stubborn mnt [])
detach-Outcome_example = detach-Outcome stubborn mnt []

detach-Releases_example : (detach stubborn mnt []).result ≡ ok tt
unfolding detach_args
detach-Releases_example =
    detach-Releases stubborn mnt [] (λ past. inr stubborn-busy) (λ past. inl refl)

resolve_output_path-IsOutputPath_example :
    IsOutputPath
      (split_lines (codes "created: /a/box.dmg"))
      (codes "/a/box")
      dmg_ext
      (resolve_output_path (codes "created: /a/box.dmg") (codes "/a/box") dmg_ext)
unfolding to_lower
resolve_output_path-IsOutputPath_example =
    resolve_output_path-IsOutputPath (codes "created: /a/box.dmg") (codes "/a/box") dmg_ext refl

box_name : valid_name (codes "box") ≡ true
unfolding valid_name is_name_start is_name_byte all_bytes
box_name = refl

apply_boot_cartridge-Boots_example :
    Boots desktop
      (booted desktop (codes "box") mnt [])
      (apply_boot_cartridge (booted desktop (codes "box") mnt []) sample_config)
apply_boot_cartridge-Boots_example =
    apply_boot_cartridge-Boots desktop (codes "box") mnt [] sample_config desktop-ok box_name
      sample_config-ok (λ h. cc)

abbrev mac : Host
mac = record {
  supported = true;
  make_dirs = λ _. none;
  eval_symlinks = λ p. some (b'/' ∷ p);
  is_dir = λ _. true;
  stat_ok = λ _. true;
  device = λ _. none;
}

abbrev site : Site
site = record {
  host = mac;
  tool = stubborn;
  env = sample_env;
  running = λ _. false;
  load = λ _. some desktop;
}

abbrev no_flags : BootFlags
no_flags = record {
  cpus = 0;
  memory = 0;
  disk = pos 0;
  gui = false;
  headless = false;
  no_restore = false;
}

abbrev no_work : Work
no_work = record { calls = []; removed = [] }

abbrev shipped : Text
shipped = codes "/a/box.dmg"

-- A boot of the shipped form makes a working copy where the packed cartridge stands, and removes
-- it twice.
shipped-removed :
    (finish site (run_boot_cartridge site no_flags shipped no_work)).removed
    ≡ codes "/a/box.sparseimage" ∷ codes "/a/box.sparseimage" ∷ []
unfolding run_boot_cartridge run_start_cartridge
shipped-removed = refl

-- With both images forced, the boot is refused and the working copy stays.
abbrev forced_site : Site
forced_site = record site { env = record site.env { getenv = λ _. codes "1" } }

refused-kept :
    (finish forced_site (run_boot_cartridge forced_site no_flags shipped no_work)).removed
    ≡ codes "/a/box.sparseimage" ∷ []
unfolding run_boot_cartridge run_start_cartridge
refused-kept = refl
