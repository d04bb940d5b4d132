-- ===== src/Update/Survives.antt =====
-- What is left of the application when a swap fails or is interrupted.
use bladerunner.Prelude.{
  All, Bool, Option, Text, false, inl, inr, is_ok, none, ok, refl, some, subst, sym, true, ◌≡◌, ◌⊎◌,
}
use bladerunner.Update.{Bundles, Renames, Swap, undo, install_over, swap_at, swap_bundle}

-- The old application stands at its place or beside it, or the new one stands at its place.
abbrev pub IsKept : Text → Text → Bundles → Type 0
IsKept old new b = (b.dst ≡ some old) ⊎ (b.backup ≡ some old) ⊎ (b.dst ≡ some new)

-- What a caller finds after the call.
abbrev pub IsSettled : Text → Text → Renames → Swap → Type 0
IsSettled old new r s =
    ((s.result ≡ ok tt) × (s.now.dst ≡ some new) × (s.now.backup ≡ none))
    ⊎ ((is_ok s.result ≡ false)
        × (s.now.staged ≡ some new)
        × ((s.now.dst ≡ some old) ⊎ ((r.restore ≡ false) × (s.now.backup ≡ some old))))

abbrev IsSafe : Text → Text → Renames → Bundles → Type 0
IsSafe old new r b =
    IsSettled old new r (swap_bundle r b)
    × IsKept old new (swap_bundle r b).now
    × All (IsKept old new) (swap_bundle r b).before

abbrev renames : Bool → Bool → Bool → Renames
renames a i r = record { aside = a; install = i; restore = r }

abbrev bundles : Option Text → Option Text → Option Text → Bundles
bundles d b s = record { dst = d; backup = b; staged = s }

swap_bundle-IsSafe :
    (a i r : Bool) (backup : Option Text) (old new : Text)
    → IsSafe old new (renames a i r) (bundles (some old) backup (some new))
unfolding swap_bundle swap_at install_over undo
swap_bundle-IsSafe false i r backup old new = (inr (refl, refl, inl refl), inl refl, (inl refl, tt))
swap_bundle-IsSafe true true r backup old new = (
  inl (refl, refl, refl),
  inr (inr refl),
  (inr (inl refl), (inr (inl refl), (inl refl, (inl refl, tt)))),
)
swap_bundle-IsSafe true false true backup old new = (
  inr (refl, refl, inl refl),
  inl refl,
  (inr (inl refl), (inr (inl refl), (inl refl, (inl refl, tt)))),
)
swap_bundle-IsSafe true false false backup old new = (
  inr (refl, refl, inr (refl, refl)),
  inr (inl refl),
  (inr (inl refl), (inl refl, (inl refl, tt))),
)

-- A swap of an application that is there with one that is staged: if it succeeds, the new one
-- stands at the place and no backup is left; if it fails, the new one is still staged, and the old
-- one is back at its place, or in the backup where the rename that restores it failed too. After
-- each step, so after a crash at any point too, the old one is at its place or in the backup, or
-- the new one is at the place.
pub swap_bundle-IsKept :
    (r : Renames) (b : Bundles) (old new : Text)
    → b.dst ≡ some old
    → b.staged ≡ some new
    → IsSettled old new r (swap_bundle r b)
      × IsKept old new (swap_bundle r b).now
      × All (IsKept old new) (swap_bundle r b).before
swap_bundle-IsKept r b old new d s =
    subst (λ (x : Option Text). IsSafe old new r (bundles x b.backup b.staged)) (sym d)
      (subst (λ (x : Option Text). IsSafe old new r (bundles (some old) b.backup x)) (sym s)
        (swap_bundle-IsSafe r.aside r.install r.restore b.backup old new))
