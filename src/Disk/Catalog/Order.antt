-- ===== src/Disk/Catalog/Order.antt =====
-- `List` gives every entry once, in the order of the names.
use bladerunner.Prelude.{
  All, Bool-cases, List, Option, Text, [], arith, false, inl, inr, ok, refl, subst, true, ◌∙◌, ◌∷◌,
  ◌≡◌, ◌≢◌,
}
use mathlib.Core.List.{Perm}
use mathlib.Core.List.Perm
use bladerunner.Disk.Catalog.{
  Catalog, Entry, text_lt, insert_sorted, list, load_catalog, Unmarshal, DirEntry, Listing,
}
use bladerunner.Disk.Catalog.Laws.{IsSound, Lacks, IsDistinct, load_catalog-Inv}

-- Of two names that differ one is the smaller.
text_lt-connected : (a b : Text) → text_lt a b ≡ false → a ≢ b → text_lt b a ≡ true
unfolding text_lt
text_lt-connected [] [] h n = absurd (n refl)
text_lt-connected [] (y ∷ b) h n = cc
text_lt-connected (x ∷ a) [] h n = refl
text_lt-connected (x ∷ a) (y ∷ b) h n = ground (arith, text_lt-connected a b)

-- Each name before the next.
abbrev pub IsSorted : List Entry → Type 0
IsSorted [] = Unit
IsSorted (x ∷ []) = Unit
IsSorted (x ∷ y ∷ l) = (text_lt x.manifest.name y.manifest.name ≡ true) × IsSorted (y ∷ l)

abbrev Avoids : Entry → List Entry → Type 0
Avoids e = All (λ (x : Entry). x.manifest.name ≢ e.manifest.name)

insert_sorted-IsSorted :
    (e : Entry) (l : List Entry) → Avoids e l → IsSorted l → IsSorted (insert_sorted e l)
unfolding insert_sorted
insert_sorted-IsSorted e [] a s = tt
insert_sorted-IsSorted e (x ∷ []) a s =
    ground (arith, text_lt-connected x.manifest.name e.manifest.name)
insert_sorted-IsSorted e (x ∷ y ∷ l) a s = ground (
  arith,
  text_lt-connected x.manifest.name e.manifest.name,
  insert_sorted-IsSorted e (y ∷ l) a.1 s.1,
)

insert_sorted-perm : (e : Entry) (l : List Entry) → Perm (insert_sorted e l) (e ∷ l)
unfolding insert_sorted
insert_sorted-perm e [] = Perm.refl (e ∷ [])
insert_sorted-perm e (x ∷ l) = elim (Bool-cases (text_lt x.manifest.name e.manifest.name)) [
  | inl lt ↦ rw lt (Perm.trans (Perm.cons x (insert_sorted-perm e l)) (Perm.swap e x l))
  | inr ge ↦ rw ge (Perm.refl (e ∷ x ∷ l))
]

abbrev pub entries : Catalog → List Entry
entries [] = []
entries ((_, e) ∷ c) = e ∷ entries c

list-perm : (c : Catalog) → Perm (list c) (entries c)
unfolding list
list-perm [] = Perm.refl []
list-perm ((k, e) ∷ c) = Perm.trans (insert_sorted-perm e (list c)) (Perm.cons e (list-perm c))

Avoids-insert_sorted :
    (e x : Entry) (l : List Entry)
    → x.manifest.name ≢ e.manifest.name
    → Avoids e l
    → Avoids e (insert_sorted x l)
unfolding insert_sorted
Avoids-insert_sorted e x [] n a = (n, tt)
Avoids-insert_sorted e x (y ∷ l) n a = ground (arith, Avoids-insert_sorted e x l n a.1)

Avoids-list :
    (e : Entry) (c : Catalog) → All IsSound c → Lacks e.manifest.name c → Avoids e (list c)
unfolding list
Avoids-list e [] s l = tt
Avoids-list e ((k, x) ∷ c) s l =
    Avoids-insert_sorted e x (list c) (λ p. l.0 (s.0.0 ∙ p)) (Avoids-list e c s.1 l.1)

list-IsSorted : (c : Catalog) → All IsSound c → IsDistinct c → IsSorted (list c)
unfolding list
list-IsSorted [] s d = tt
list-IsSorted ((k, e) ∷ c) s d =
    insert_sorted-IsSorted e (list c) (Avoids-list e c s.1 (subst (λ n. Lacks n c) s.0.0 d.0))
      (list-IsSorted c s.1 d.1)

-- The listing of a loaded catalog holds each of its entries once, in strict order of names.
pub list-load_catalog :
    (u : Unmarshal) (builtins : Option (List DirEntry)) (dir : Text) (users : Listing) {c : Catalog}
    → load_catalog u builtins dir users ≡ ok c
    → Perm (list c) (entries c) × IsSorted (list c)
list-load_catalog u builtins dir users {c} h =
    let v = load_catalog-Inv u builtins dir users h in
    (list-perm c, list-IsSorted c v.sound v.distinct)
