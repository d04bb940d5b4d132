-- ===== src/Cartridge/Mac.antt =====
-- The exported functions of internal/cartridge/cartridge.go, which work only on a Mac.
use bladerunner.Prelude.{Bool, Text, err, false, if◌then◌else◌, ℤ}
use bladerunner.Cartridge.{Runs, Tool, needs_mac, Ended, detach}
use bladerunner.Cartridge.Image
use bladerunner.Cartridge.Image.{Host, Mount}

-- The guard of the exported functions
unfoldable pub on_mac {ℓ} : {A : Type ℓ} → Host → (Runs → Ended A) → Runs → Ended A
on_mac host work calls =
    if host.supported then work calls else record { result = err needs_mac; calls = calls }

module _ (host : Host) (tool : Tool) where
  unfoldable pub create : Text → Text → ℤ → Runs → Ended Text
  unfolding on_mac Image.create
  create path name size = on_mac host (Image.create tool path name size)

  unfoldable pub attach : Text → Text → Runs → Ended Mount
  unfolding on_mac Image.attach
  attach path mountpoint = on_mac host (Image.attach host tool path mountpoint)

  unfoldable pub detach_image : Text → Runs → Ended (Unit {0})
  unfolding on_mac detach
  detach_image mountpoint = on_mac host (detach tool mountpoint)

  unfoldable pub compact : Text → Runs → Ended (Unit {0})
  unfolding on_mac Image.compact
  compact path = on_mac host (Image.compact tool path)

  unfoldable pub convert_to_dmg : Text → Text → Runs → Ended Text
  unfolding on_mac Image.convert_to_dmg
  convert_to_dmg src dst = on_mac host (Image.convert_to_dmg tool src dst)

  unfoldable pub convert_to_sparse : Text → Text → Runs → Ended Text
  unfolding on_mac Image.convert_to_sparse
  convert_to_sparse src dst = on_mac host (Image.convert_to_sparse tool src dst)

-- IsAttached
unfoldable pub is_attached : Host → Text → Bool
unfolding Image.is_attached
is_attached host mountpoint = if host.supported then Image.is_attached host mountpoint else false
