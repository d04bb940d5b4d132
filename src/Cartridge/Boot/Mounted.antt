-- ===== src/Cartridge/Boot/Mounted.antt =====
-- Where an image is mounted that a boot has attached.
use bladerunner.Prelude.{
  Bool-cases, Option, Text, [], ap, codes, inl, inr, none, ok, ok-injective, refl, some, sym, ◌≡◌,
  ◌≢◌,
}
use bladerunner.Prelude.FilePath.Nonempty.{clean-ne-nil}
use bladerunner.Cartridge.{Output, Runs, Tool, attach_args}
use bladerunner.Cartridge.Image
use bladerunner.Cartridge.Image.{Host, Mount, path_or_clean, resolve_path}
use bladerunner.Cartridge.Mac

-- filepath.EvalSymlinks gives no empty path.
abbrev pub ResolvesToPaths : Host → Type 0
ResolvesToPaths host = (p q : Text) → host.eval_symlinks p ≡ some q → q ≢ []

pub resolve_path-ne-nil :
    (host : Host) → ResolvesToPaths host → (p : Text) → resolve_path host p ≢ []
unfolding resolve_path path_or_clean
resolve_path-ne-nil host resolves p = go (host.eval_symlinks p) (resolves p)
  where
    go : (o : Option Text) → ((q : Text) → o ≡ some q → q ≢ []) → path_or_clean p o ≢ []
    go none h = clean-ne-nil p
    go (some q) h = h q refl

run_result-mount :
    (verb path mountpoint : Text) (out : Output) (fault : Option Text) (mount : Mount)
    → Image.run_result verb
        (λ (o : Output). record { path = path; mountpoint = mountpoint })
        out
        fault
      ≡ ok mount
    → mount.mountpoint ≡ mountpoint
unfolding Image.run_result
run_result-mount verb path mountpoint out none mount h =
    ap (λ (m : Mount). m.mountpoint) (sym (ok-injective h))
run_result-mount verb path mountpoint out (some cause) mount h = cc

attach_made-mount :
    (host : Host) (tool : Tool) (path mountpoint : Text) (made : Option Text) (calls : Runs)
    (mount : Mount)
    → (Image.attach_made host tool path mountpoint made calls).result ≡ ok mount
    → mount.mountpoint ≡ resolve_path host mountpoint
unfolding Image.attach_made Image.run_once
attach_made-mount host tool path mountpoint (some cause) calls mount h = cc
attach_made-mount host tool path mountpoint none calls mount h =
    let out = tool calls (attach_args path mountpoint) in
    run_result-mount (codes "attach") path (resolve_path host mountpoint) out out.fault mount h

pub attach-mount :
    (host : Host) (tool : Tool) (path mountpoint : Text) (calls : Runs) (mount : Mount)
    → (Mac.attach host tool path mountpoint calls).result ≡ ok mount
    → mount.mountpoint ≡ resolve_path host mountpoint
unfolding Mac.attach Mac.on_mac Image.attach
attach-mount host tool path mountpoint calls mount h = elim (Bool-cases host.supported) [
  | inl mac ↦
      attach_made-mount host tool path mountpoint (host.make_dirs mountpoint) calls mount
        (rw mac at h)
  | inr other ↦ (let k = rw other at h in cc)
]
