-- ===== src/Disk/Catalog.antt =====
-- internal/disk/catalog.go: the builtin manifests with the user's laid over them. The directory
-- listings and the file contents are arguments; `unmarshal` is json.Unmarshal.
pub mod Laws
pub mod Overlay
pub mod Order
use bladerunner.Prelude.{
  &&-eq-true, ==_iff, ==_refl, >>-eq-ok, >>=-eq-ok, All, All-append, AtLeast, AtMost, Bool,
  Bool-cases, Check, List, Option, Option-cases, Result, String, Text, [], ap, append-nil,
  append_assoc, arith, codes, contains, cut_byte, cut_prefix, drop, drop-length-append, err,
  fail_if, fail_if-eq-ok, false, fun_ext, get_elem?, has_prefix, has_suffix, if◌then◌else◌, inl,
  inr, int_eq, int_eq_iff, int_gt, int_gt_iff, int_lt, int_lt_iff, is_empty, is_ok, is_ok_unit,
  is_space, leb, length, length-append, length-drop, length-take, ltb, map, map_err, min,
  ne_text_eq, negsuc, none, not, ok, ok-injective, pos, refl, replicate, reverse, some, subst, suc,
  sym, take, take-length-append, text_eq, text_eq_iff, text_eq_ne, text_eq_refl, to_lower,
  to_lower_byte, trim_left, trim_right, trim_space, true, zero, ||-eq-false, ℕ, ℤ, ◌%◌, ◌&&◌, ◌*◌,
  ◌++◌, ◌+◌, ◌-◌, ◌/◌, ◌<◌, ◌==◌, ◌>>=◌, ◌>>◌, ◌^◌, ◌||◌, ◌↔◌, ◌∙◌, ◌∷◌, ◌≡◌, ◌≢◌, ◌≤◌, ◌⊎◌,
}
use bladerunner.Prelude.FilePath.{join}
use bladerunner.Disk.{Manifest, validate}

pub data Origin : Type 0 where
  builtin user : Origin

pub record Entry : Type 0 where
  pub manifest : Manifest
  pub origin : Origin
  pub path : Text

-- `byName`, a map with string keys
abbrev pub Catalog : Type 0
Catalog = List (Text × Entry)

unfoldable pub lookup : Text → Catalog → Option Entry
lookup k [] = none
lookup k ((j, e) ∷ c) = if text_eq j k then some e else lookup k c

unfoldable pub insert : Text → Entry → Catalog → Catalog
insert k e [] = (k, e) ∷ []
insert k e ((j, x) ∷ c) =
    let rest = insert k e c in if text_eq j k then (k, e) ∷ c else (j, x) ∷ rest

-- A directory entry with what reading it gives (`none` is a read error).
pub record DirEntry : Type 0 where
  pub name : Text
  pub is_dir : Bool
  pub content : Option Text

pub data CatalogError : Type 0 where
  read_builtin_dir read_user_dir : CatalogError
  read_builtin : Text → CatalogError
  parse_builtin : Text → CatalogError

abbrev pub Unmarshal : Type 0
Unmarshal = Text → Option Manifest

unfoldable pub accept : Option Manifest → Option Manifest
accept none = none
accept (some m) = if is_ok (validate m) then some m else none

-- `Parse`; the message of a refused file is dropped by every caller but for its name.
unfoldable pub parse_manifest : Unmarshal → Text → Option Manifest
unfolding accept
parse_manifest unmarshal text = accept (unmarshal text)

-- `Load`
unfoldable pub load_manifest : Unmarshal → Option Text → Option Manifest
unfolding parse_manifest
load_manifest unmarshal none = none
load_manifest unmarshal (some text) = parse_manifest unmarshal text

-- not a directory, and a name that ends in ".disk"
unfoldable pub is_manifest_file : DirEntry → Bool
is_manifest_file f = not f.is_dir && has_suffix f.name (codes ".disk")

unfoldable pub add_builtin : DirEntry → Option Manifest → Catalog → Result CatalogError Catalog
add_builtin f none c = err (parse_builtin f.name)
add_builtin f (some m) c =
    ok (insert m.name (record { manifest = m; origin = builtin; path = [] }) c)

unfoldable pub load_builtin :
    Unmarshal → DirEntry → Option Text → Catalog → Result CatalogError Catalog
unfolding parse_manifest add_builtin
load_builtin unmarshal f none c = err (read_builtin f.name)
load_builtin unmarshal f (some text) c = add_builtin f (parse_manifest unmarshal text) c

-- The loop of `loadBuiltins`.
unfoldable pub load_builtins : Unmarshal → List DirEntry → Catalog → Result CatalogError Catalog
unfolding is_manifest_file load_builtin
load_builtins unmarshal [] c = ok c
load_builtins unmarshal (f ∷ fs) c =
    (if is_manifest_file f then load_builtin unmarshal f f.content c else ok c) >>= λ c'.
    load_builtins unmarshal fs c'

unfoldable pub add_user : Text → DirEntry → Option Manifest → Catalog → Catalog
add_user dir f none c = c
add_user dir f (some m) c =
    insert m.name (record { manifest = m; origin = user; path = join (dir ∷ f.name ∷ []) }) c

-- The loop of `loadUserDir`: malformed files are skipped.
unfoldable pub load_user_files : Unmarshal → Text → List DirEntry → Catalog → Catalog
unfolding is_manifest_file load_manifest add_user
load_user_files unmarshal dir [] c = c
load_user_files unmarshal dir (f ∷ fs) c =
    load_user_files unmarshal dir fs
      (if is_manifest_file f then add_user dir f (load_manifest unmarshal f.content) c else c)

-- What os.ReadDir gives.
pub data Listing : Type 0 where
  listed : List DirEntry → Listing
  missing failed : Listing

unfoldable pub load_user_dir : Unmarshal → Text → Listing → Catalog → Result CatalogError Catalog
unfolding load_user_files
load_user_dir unmarshal dir (listed fs) c = ok (load_user_files unmarshal dir fs c)
load_user_dir unmarshal dir missing c = ok c
load_user_dir unmarshal dir failed c = err read_user_dir

unfoldable pub load_catalog :
    Unmarshal → Option (List DirEntry) → Text → Listing → Result CatalogError Catalog
unfolding load_builtins load_user_dir
load_catalog unmarshal none dir users = err read_builtin_dir
load_catalog unmarshal (some fs) dir users = do
  c ← load_builtins unmarshal fs []
  load_user_dir unmarshal dir users c

-- sort.Slice by name, on the map's values; the names are distinct.
unfoldable pub text_lt : Text → Text → Bool
text_lt [] [] = false
text_lt [] (_ ∷ _) = true
text_lt (_ ∷ _) [] = false
text_lt (x ∷ xs) (y ∷ ys) = if x == y then text_lt xs ys else ltb x y

unfoldable pub insert_sorted : Entry → List Entry → List Entry
unfolding text_lt
insert_sorted e [] = e ∷ []
insert_sorted e (x ∷ xs) =
    let rest = insert_sorted e xs in
    if text_lt x.manifest.name e.manifest.name then x ∷ rest else e ∷ x ∷ xs

unfoldable pub list : Catalog → List Entry
unfolding insert_sorted
list [] = []
list ((_, e) ∷ c) = insert_sorted e (list c)
