-- ===== src/Disk/Catalog/Overlay.antt =====
-- A user disk hides the builtin of its name, and the last file of a name wins.
use bladerunner.Prelude.{
  >>=-eq-ok, Bool, Bool-cases, List, Option, Text, [], ap, arith, false, if◌then◌else◌, inl, inr,
  none, ok, ok-injective, refl, some, sym, text_eq, true, ◌++◌, ◌∙◌, ◌∷◌, ◌≡◌,
}
use bladerunner.Disk.{Manifest}
use bladerunner.Disk.Catalog.{
  Catalog, Entry, DirEntry, Unmarshal, listed, user, lookup, load_manifest, is_manifest_file,
  add_user, load_builtins, load_user_files, load_user_dir, load_catalog,
}
use bladerunner.Disk.Catalog.Laws.{lookup-insert}
use bladerunner.Prelude.FilePath.{join}

abbrev pub keep : DirEntry → Option Manifest → List (DirEntry × Manifest)
keep f none = []
keep f (some m) = (f, m) ∷ []

abbrev pub loaded : Unmarshal → DirEntry → List (DirEntry × Manifest)
loaded u f = if is_manifest_file f then keep f (load_manifest u f.content) else []

-- The manifests of the user directory that load, in the order of the listing.
abbrev pub user_manifests : Unmarshal → List DirEntry → List (DirEntry × Manifest)
user_manifests u [] = []
user_manifests u (f ∷ fs) = loaded u f ++ user_manifests u fs

-- The last of them with a given name.
abbrev pub last_named : Text → List (DirEntry × Manifest) → Option (DirEntry × Manifest)
last_named k [] = none
last_named k ((f, m) ∷ l) =
    let rest = last_named k l in
    elim rest [ some x ↦ some x | none ↦ if text_eq m.name k then some (f, m) else none ]

abbrev pub user_entry : Text → DirEntry × Manifest → Entry
user_entry dir (f, m) = record { manifest = m; origin = user; path = join (dir ∷ f.name ∷ []) }

-- The user's entry if there is one, else what was there before.
abbrev pub overlaid : Text → Option (DirEntry × Manifest) → Option Entry → Option Entry
overlaid dir none old = old
overlaid dir (some x) old = some (user_entry dir x)

user_step : Unmarshal → Text → DirEntry → Catalog → Catalog
user_step u dir f c = if is_manifest_file f then add_user dir f (load_manifest u f.content) c else c

lookup-user_step :
    (u : Unmarshal) (dir k : Text) (f : DirEntry) (c : Catalog)
    → lookup k (user_step u dir f c) ≡ overlaid dir (last_named k (loaded u f)) (lookup k c)
unfolding user_step add_user
lookup-user_step u dir k f c = kept (is_manifest_file f) (load_manifest u f.content)
  where
    kept :
        (b : Bool) (o : Option Manifest)
        → lookup k (if b then add_user dir f o c else c)
          ≡ overlaid dir (last_named k (if b then keep f o else [])) (lookup k c)
    kept false o = refl
    kept true none = refl
    kept true (some m) = elim (Bool-cases (text_eq m.name k)) [
      | inl e ↦ rw lookup-insert (rw e refl)
      | inr e ↦ rw lookup-insert (rw e refl)
    ]

abbrev later :
    Option (DirEntry × Manifest) → Option (DirEntry × Manifest) → Option (DirEntry × Manifest)
later (some x) o = some x
later none o = o

last_named-append :
    (k : Text) (xs ys : List (DirEntry × Manifest))
    → last_named k (xs ++ ys) ≡ later (last_named k ys) (last_named k xs)
last_named-append k [] ys = ground arith
last_named-append k (x ∷ xs) ys = ground (arith, last_named-append k xs ys)

overlaid-later :
    (dir : Text) (a b : Option (DirEntry × Manifest)) (old : Option Entry)
    → overlaid dir a (overlaid dir b old) ≡ overlaid dir (later a b) old
overlaid-later dir none b old = refl
overlaid-later dir (some x) b old = refl

lookup-load_user_files :
    (u : Unmarshal) (dir k : Text) (fs : List DirEntry) (c : Catalog)
    → lookup k (load_user_files u dir fs c)
      ≡ overlaid dir (last_named k (user_manifests u fs)) (lookup k c)
unfolding load_user_files user_step
lookup-load_user_files u dir k [] c = refl
lookup-load_user_files u dir k (f ∷ fs) c =
    lookup-load_user_files u dir k fs (user_step u dir f c)
    ∙ ap (overlaid dir (last_named k (user_manifests u fs))) (lookup-user_step u dir k f c)
    ∙ overlaid-later dir (last_named k (user_manifests u fs)) (last_named k (loaded u f))
        (lookup k c)
    ∙ ap (λ (o : Option (DirEntry × Manifest)). overlaid dir o (lookup k c))
        (sym (last_named-append k (loaded u f) (user_manifests u fs)))

-- In a catalog that loads, a name stands for the last user disk of that name that is valid, and
-- for the builtin of that name only where there is none.
pub lookup-load_catalog :
    (u : Unmarshal) (bs : List DirEntry) (dir k : Text) (fs : List DirEntry) {c : Catalog}
    → load_catalog u (some bs) dir (listed fs) ≡ ok c
    → (b : Catalog) × (load_builtins u bs [] ≡ ok b)
      × (lookup k c ≡ overlaid dir (last_named k (user_manifests u fs)) (lookup k b))
unfolding load_catalog load_user_dir
lookup-load_catalog u bs dir k fs {c} h =
    let (b, h₁, h₂) = >>=-eq-ok (load_builtins u bs []) _ h in
    (b, h₁, ap (lookup k) (sym (ok-injective h₂)) ∙ lookup-load_user_files u dir k fs b)
