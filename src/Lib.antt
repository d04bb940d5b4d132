-- ===== src/Lib.antt =====
-- bladerunner runs one Linux VM on a Mac. `br` reads a configuration (internal/config), lays the
-- user's settings or a disk manifest over it (internal/disk), brings the base image to the VM's
-- directory (internal/vm/assets.go), and serves a control socket (internal/control) through which
-- other `br` processes ask for the status, read and change the configuration, and stop the VM.
--
-- * Config (internal/config/config.go, settings.go): the record `Config`, `Default`, `Validate` and
--   its parts, the image URLs, `Settings` with `Validate` and `ApplyTo`. Config.Validate.Runnable
--   describes what the runner needs; Config.Settings.Overlay is about `ApplyTo`, and
--   Config.Settings.File about the file and its temporary file; encoding/json is a
--   parameter.
-- * Disk (internal/disk): manifests and their checks (Disk, Disk.Name), `ApplyTo` (Disk.Apply), the
--   catalog of builtin and user disks (Disk.Catalog). Directory listings are arguments, and
--   json.Unmarshal is a parameter.
-- * Boot (cmd/bladerunner/boot.go): what an argument of `br boot` names, the slot name of a URL
--   (Boot.SlotName), the precedence of flags over the manifest. collapseDashes has fuel.
-- * Control (internal/control): the line format (Wire), requests (Request), routing (Router), the
--   controller (Local), the configuration's handlers (ConfigHandler), one connection at the server
--   with the router that cmd/bladerunner/start.go builds (Listener), the client (Client), and the
--   registry of keys that the command line shows (KeyRegistry). The server's state is the
--   controller and the configuration, which a handler takes and returns.
-- * Assets (internal/vm/assets.go): the base image. The file system is a function from paths to
--   bytes; HTTP, the digests and qemu-img are fields of `World`. On the way of a cache entry each call
--   into package os may fail (`CacheCalls`); elsewhere removing a file succeeds.
-- * Update (internal/update): swapBundle, with the directory after each of its steps; minisign
--   signatures (Verify), with Ed25519 as a parameter; the manifest, Check and Apply (Apply), with
--   HTTP and the extraction as parameters and the bundle given; the extraction of a tarball (Extract)
--   by its entries and the calls of the operating system, where a path is its text and no link is
--   followed.
-- * Cartridge (internal/cartridge): images of cartridges through hdiutil, which is a parameter that
--   answers by the runs before it (Cartridge, Cartridge.Image; Cartridge.Mac has the exported
--   functions), and of cmd/bladerunner/cartridge.go the packed manifest (Pack) and the boot of a
--   cartridge (Boot). The retry of a detach counts down the four runs of the source's loop.
-- * Start (cmd/bladerunner/start.go): the configuration of a start, where Config, Disk and Cartridge
--   come together: defaults, settings, manifest, flags, cartridge, keys, and the check before the
--   VM is built. The other calls of runStart between them are taken to succeed.
-- * Stop (cmd/bladerunner/stop.go): `br stop` against a host whose socket and process come and go
--   with the time and the signals. A wait counts the sleeps that begin before its deadline.
-- * SavedState (internal/vm/savestate.go, runner_darwin.go): the save of a guest with its sidecar, and
--   the checks of a restore.
-- * BootStage (internal/bootstage, and its publisher in cmd/bladerunner/start.go): the published
--   phase of a boot, by the runner's progress events in the order of their arrival.
-- * TimeSource (internal/timesource/sntp.go): the timestamps and the reply of the SNTP responder.
--
-- Go strings are lists of bytes, `int` is an integer of unbounded size whose text is read within 64
-- bits, and a Go error is a constructor. A map is an association list; its newest entry stands
-- first, or replaces the old one. White space and letter case are those of ASCII. Handlers run
-- one at a time, as under the mutexes of the source. collapseDashes has the length of its text as
-- fuel, since each round of the source's loop removes a byte.
--
-- Not modelled: the VM itself (internal/vm's calls of the Virtualization framework), the console
-- parser, the target and the restart of a self-update, `br disk pack`, the identity provider, the
-- terminal and menu bar interfaces, deadlines and sockets, and the handlers for save, eject and
-- upgrade.
pub mod Prelude
pub mod Config
pub mod Disk
pub mod Boot
pub mod Control
pub mod Assets
pub mod Update
pub mod TimeSource
pub mod Cartridge
pub mod SavedState
pub mod BootStage
pub mod Start
pub mod Stop
