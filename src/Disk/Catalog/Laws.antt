-- ===== src/Disk/Catalog/Laws.antt =====
-- What the loaded catalog holds: user disks over builtins, each under its own name, all valid.
use bladerunner.Prelude.{
  >>=-eq-ok, All, Bool, Bool-cases, List, Option, Text, [], arith, false, if◌then◌else◌, inl, inr,
  is_ok, is_ok_unit, none, ok, ok-injective, refl, some, subst, sym, text_eq, text_eq_iff,
  text_eq_ne, true, ◌∷◌, ◌≡◌, ◌≢◌,
}
use bladerunner.Disk.{Manifest, validate}
use bladerunner.Disk.Catalog.{
  Catalog, Entry, DirEntry, Unmarshal, Listing, listed, missing, failed, builtin, lookup, insert,
  accept, add_builtin, parse_manifest, load_manifest, is_manifest_file, load_builtin, load_builtins,
  add_user, load_user_files, load_user_dir, load_catalog,
}

pub lookup-insert :
    (k j : Text) (e : Entry) (c : Catalog)
    → lookup j (insert k e c) ≡ (if text_eq k j then some e else lookup j c)
unfolding lookup insert
lookup-insert k j e [] = refl
lookup-insert k j e ((i, x) ∷ c) =
    ground (arith, text_eq_iff k j, text_eq_iff i k, text_eq_iff i j, lookup-insert k j e c)

-- An entry stands under its manifest's name, and the manifest is valid.
abbrev pub IsSound : Text × Entry → Type 0
IsSound (k, e) = (k ≡ e.manifest.name) × (validate e.manifest ≡ ok tt)

abbrev pub Lacks : Text → Catalog → Type 0
Lacks k c = All (λ (p : Text × Entry). p.0 ≢ k) c

abbrev pub IsDistinct : Catalog → Type 0
IsDistinct [] = Unit
IsDistinct ((k, e) ∷ c) = Lacks k c × IsDistinct c

pub record Inv (c : Catalog) : Type 0 where
  pub sound : All IsSound c
  pub distinct : IsDistinct c

insert-Lacks : (k j : Text) (e : Entry) (c : Catalog) → k ≢ j → Lacks j c → Lacks j (insert k e c)
unfolding insert
insert-Lacks k j e [] n l = (n, tt)
insert-Lacks k j e ((i, x) ∷ c) n l = ground (arith, insert-Lacks k j e c n l.1)

insert-IsDistinct : (k : Text) (e : Entry) (c : Catalog) → IsDistinct c → IsDistinct (insert k e c)
unfolding insert
insert-IsDistinct k e [] d = (tt, tt)
insert-IsDistinct k e ((i, x) ∷ c) d = elim (Bool-cases (text_eq i k)) [
  | inl same ↦ rw same (rw ((text_eq_iff i k).0 same) at d)
  | inr other ↦
      rw other
        (insert-Lacks k i e c (λ p. text_eq_ne i k other (sym p)) d.0, insert-IsDistinct k e c d.1)
]

insert-IsSound :
    (k : Text) (e : Entry) (c : Catalog)
    → IsSound (k, e)
    → All IsSound c
    → All IsSound (insert k e c)
unfolding insert
insert-IsSound k e [] h a = (h, tt)
insert-IsSound k e ((i, x) ∷ c) h a = ground (arith, insert-IsSound k e c h a.1)

insert-Inv : (k : Text) (e : Entry) (c : Catalog) → IsSound (k, e) → Inv c → Inv (insert k e c)
insert-Inv k e c h v = record {
  sound = insert-IsSound k e c h v.sound;
  distinct = insert-IsDistinct k e c v.distinct;
}

accept-valid : (o : Option Manifest) {m : Manifest} → accept o ≡ some m → validate m ≡ ok tt
unfolding accept
accept-valid none h = cc
accept-valid (some x) {m} h = elim (Bool-cases (is_ok (validate x))) [
  | inl v ↦
      let q = rw v at h in
      let p : x ≡ m = cc in subst (λ y. validate y ≡ ok tt) p (is_ok_unit (validate x) v)
  | inr r ↦ absurd (let q = rw r at h in cc)
]

parse_manifest-valid :
    (u : Unmarshal) (t : Text) {m : Manifest} → parse_manifest u t ≡ some m → validate m ≡ ok tt
unfolding parse_manifest
parse_manifest-valid u t = accept-valid (u t)

load_manifest-valid :
    (u : Unmarshal) (t : Option Text) {m : Manifest}
    → load_manifest u t ≡ some m
    → validate m ≡ ok tt
unfolding load_manifest
load_manifest-valid u none h = cc
load_manifest-valid u (some t) h = parse_manifest-valid u t h

add_user-Inv :
    (dir : Text) (f : DirEntry) (o : Option Manifest) (c : Catalog)
    → ((m : Manifest) → o ≡ some m → validate m ≡ ok tt)
    → Inv c
    → Inv (add_user dir f o c)
unfolding add_user
add_user-Inv dir f none c h v = v
add_user-Inv dir f (some m) c h v = insert-Inv m.name _ c (refl, h m refl) v

load_user_files-Inv :
    (u : Unmarshal) (dir : Text) (fs : List DirEntry) (c : Catalog)
    → Inv c
    → Inv (load_user_files u dir fs c)
unfolding load_user_files
load_user_files-Inv u dir [] c v = v
load_user_files-Inv u dir (f ∷ fs) c v =
    load_user_files-Inv u dir fs _ (user_step (is_manifest_file f))
  where
    user_step : (b : Bool) → Inv (if b then add_user dir f (load_manifest u f.content) c else c)
    user_step true =
        add_user-Inv dir f (load_manifest u f.content) c (λ m. load_manifest-valid u f.content) v
    user_step false = v

load_builtin-Inv :
    (u : Unmarshal) (f : DirEntry) (o : Option Text) (c : Catalog) {d : Catalog}
    → load_builtin u f o c ≡ ok d
    → Inv c
    → Inv d
unfolding load_builtin
load_builtin-Inv u f none c h v = cc
load_builtin-Inv u f (some t) c h v = added (parse_manifest u t) refl h
  where
    added :
        (o : Option Manifest)
        → parse_manifest u t ≡ o
        → {d : Catalog} → add_builtin f o c ≡ ok d
        → Inv d
    added none e k = cc
    added (some m) e {d} k =
        let entry : Entry = record { manifest = m; origin = builtin; path = [] } in
        let p : insert m.name entry c ≡ d = cc in
        subst Inv p (insert-Inv m.name entry c (refl, parse_manifest-valid u t e) v)

load_builtins-Inv :
    (u : Unmarshal) (fs : List DirEntry) (c : Catalog) {d : Catalog}
    → load_builtins u fs c ≡ ok d
    → Inv c
    → Inv d
unfolding load_builtins
load_builtins-Inv u [] c h v = subst Inv (let p : c ≡ _ = cc in p) v
load_builtins-Inv u (f ∷ fs) c h v =
    let (c', h₁, h₂) = >>=-eq-ok _ (load_builtins u fs) h in
    load_builtins-Inv u fs c' h₂ (builtin_step (is_manifest_file f) h₁)
  where
    builtin_step :
        (b : Bool)
        → {d : Catalog} → (if b then load_builtin u f f.content c else ok c) ≡ ok d
        → Inv d
    builtin_step true k = load_builtin-Inv u f f.content c k v
    builtin_step false k = subst Inv (ok-injective k) v

load_user_dir-Inv :
    (u : Unmarshal) (dir : Text) (l : Listing) (c : Catalog) {d : Catalog}
    → load_user_dir u dir l c ≡ ok d
    → Inv c
    → Inv d
unfolding load_user_dir
load_user_dir-Inv u dir (listed fs) c h v =
    subst Inv (ok-injective h) (load_user_files-Inv u dir fs c v)
load_user_dir-Inv u dir missing c h v = subst Inv (ok-injective h) v
load_user_dir-Inv u dir failed c h v = cc

-- Whatever the directories hold, a catalog that loads has distinct names, and each entry is a valid
-- manifest under its own name.
pub load_catalog-Inv :
    (u : Unmarshal) (builtins : Option (List DirEntry)) (dir : Text) (users : Listing) {c : Catalog}
    → load_catalog u builtins dir users ≡ ok c
    → Inv c
unfolding load_catalog
load_catalog-Inv u none dir users h = cc
load_catalog-Inv u (some fs) dir users h =
    let (c', h₁, h₂) = >>=-eq-ok (load_builtins u fs []) _ h in
    load_user_dir-Inv u dir users c' h₂
      (load_builtins-Inv u fs [] h₁ (record { sound = tt; distinct = tt }))
