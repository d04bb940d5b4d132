-- ===== src/Update/Extract.antt =====
-- The extraction of an update's tarball (internal/update/install.go). The entries of the archive, as
-- gzip and tar read them, and the operating system, which answers by the calls before, are given.
pub mod Root
pub mod Inside
use bladerunner.Prelude.{
  &&-eq-true, ==_iff, ==_refl, >>-eq-ok, >>=-eq-ok, All, All-append, AtLeast, AtMost, Bool,
  Bool-cases, Check, IsDigit, List, Option, Option-cases, Result, String, Text, [], ap, append-nil,
  append_assoc, arith, atoi, atoi-decimal, codes, contains, cut_byte, cut_prefix, decimal,
  decimal-cons, decimal-digits, drop, drop-length-append, err, fail_if, fail_if-eq-ok, false,
  fun_ext, get_elem?, has_prefix, has_suffix, if◌then◌else◌, in_int64, inl, inr, int_eq, int_eq_iff,
  int_gt, int_gt_iff, int_lt, int_lt_iff, is_empty, is_ok, is_ok_unit, is_space, itoa, leb, length,
  length-append, length-drop, length-take, lines_onto, ltb, map, map_err, min, ne_text_eq, negsuc,
  none, not, ok, ok-injective, parse_digits, parse_nat, pos, refl, replicate, reverse, some,
  split_lines, subst, suc, sym, take, take-length-append, text_eq, text_eq_iff, text_eq_ne,
  text_eq_refl, to_lower, to_lower_byte, trim_left, trim_right, trim_space, true, zero, ||-eq-false,
  ℕ, ℤ, ◌%◌, ◌&&◌, ◌*◌, ◌++◌, ◌+◌, ◌-◌, ◌/◌, ◌<◌, ◌==◌, ◌>>=◌, ◌>>◌, ◌^◌, ◌||◌, ◌↔◌, ◌∙◌, ◌∷◌, ◌≡◌,
  ◌≢◌, ◌≤◌, ◌⊎◌,
}
use bladerunner.Prelude.FilePath.{clean, dir, join}

pub data EntryKind : Type 0 where
  directory regular symlink other_kind : EntryKind

pub record Header : Type 0 where
  pub name : Text
  pub kind : EntryKind
  pub link : Text
  pub mode : ℕ
  pub content : Text

-- What Next of the archive's reader gives before its end
pub data TarEntry : Type 0 where
  entry : Header → TarEntry
  broken : TarEntry

pub data OsCall : Type 0 where
  mkdir_all : Text → OsCall
  write_file : Text → ℕ → Text → OsCall
  make_link : Text → Text → OsCall

pub data ExtractError : Type 0 where
  not_gzip bad_tar no_app : ExtractError
  escapes unsafe_symlink mkdir_failed write_failed symlink_failed : Text → ExtractError

-- Whether a call succeeds, by the calls before it, the last one first
abbrev pub Os : Type 0
Os = List OsCall → OsCall → Bool

-- What a step returns, and the calls until its end
pub record Step : Type 0 where
  pub result : Check ExtractError
  pub calls : List OsCall

abbrev pub os_call : Os → OsCall → ExtractError → List OsCall → Step
os_call os c e calls = record { result = if os calls c then ok tt else err e; calls = c ∷ calls }

abbrev pub then_call : Os → OsCall → ExtractError → List OsCall → Check ExtractError → Step
then_call os c e calls (err f) = record { result = err f; calls = calls }
then_call os c e calls (ok _) = os_call os c e calls

-- A call behind the creation of the parent of `target`
unfoldable pub in_parent : Os → Text → OsCall → ExtractError → List OsCall → Step
in_parent os target c e calls =
    let s = os_call os (mkdir_all (dir target)) (mkdir_failed target) calls in
    then_call os c e s.calls s.result

abbrev pub is_abs : Text → Bool
is_abs p = has_prefix p (codes "/")

-- extractSymlink
unfoldable pub extract_symlink : Os → Header → Text → List OsCall → Step
unfolding in_parent has_prefix
extract_symlink os h target calls =
    if is_abs h.link || has_prefix h.link (codes "..")
    then record { result = err (unsafe_symlink h.name); calls = calls }
    else in_parent os target (make_link h.link target) (symlink_failed target) calls

-- extractEntry with writeRegular
unfoldable pub extract_kind : Os → Header → Text → List OsCall → EntryKind → Step
unfolding extract_symlink in_parent
extract_kind os h target calls directory = os_call os (mkdir_all target) (mkdir_failed target) calls
extract_kind os h target calls regular =
    in_parent os target (write_file target (h.mode % 2 ^ 9) h.content) (write_failed target) calls
extract_kind os h target calls symlink = extract_symlink os h target calls
extract_kind os h target calls other_kind = record { result = ok tt; calls = calls }

unfoldable pub extract_entry : Os → Header → Text → List OsCall → Step
unfolding extract_kind
extract_entry os h target calls = extract_kind os h target calls h.kind

-- safeJoin
unfoldable pub safe_join : Text → Text → Result ExtractError Text
unfolding join text_eq has_prefix
safe_join clean_dest name =
    let target = join (clean_dest ∷ name ∷ []) in
    if not (text_eq target clean_dest) && not (has_prefix target (clean_dest ++ codes "/"))
    then err (escapes name)
    else ok target

abbrev pub without_prefix : Text → Option Text → Text
without_prefix s none = s
without_prefix s (some rest) = rest

abbrev pub before_slash : Text → Option (Text × Text) → Text
before_slash s none = s
before_slash s (some (first, _)) = first

abbrev pub is_app : Text → Bool
is_app name = has_suffix (to_lower name) (codes ".app")

unfoldable pub first_element : Text → Text
unfolding cut_prefix cut_byte
first_element name =
    let path = without_prefix name (cut_prefix name (codes "./")) in
    before_slash path (cut_byte b'/' path)

-- topAppComponent
unfoldable pub top_app_component : Text → Text
unfolding first_element has_suffix to_lower
top_app_component name = let first = first_element name in if is_app first then first else []

-- The application that the entries so far name, and the calls
pub record Progress : Type 0 where
  pub root : Option Text
  pub calls : List OsCall

abbrev pub first_app : Text → Text → Option Text
first_app clean_dest [] = none
first_app clean_dest (c ∷ top) = some (join (clean_dest ∷ (c ∷ top) ∷ []))

abbrev pub note_root : Text → Text → Option Text → Option Text
note_root clean_dest name (some root) = some root
note_root clean_dest name none = first_app clean_dest (top_app_component name)

-- What an entry returns, and the state behind it
pub record OneEntry : Type 0 where
  pub result : Check ExtractError
  pub progress : Progress

unfoldable pub extract_target : Os → Text → Progress → Header → Result ExtractError Text → OneEntry
unfolding extract_entry top_app_component join
extract_target os clean_dest p h (err e) = record { result = err e; progress = p }
extract_target os clean_dest p h (ok target) =
    let s = extract_entry os h target p.calls in
    record {
      result = s.result;
      progress = record { root = note_root clean_dest h.name p.root; calls = s.calls };
    }

pub record Extraction : Type 0 where
  pub result : Result ExtractError Text
  pub calls : List OsCall

abbrev pub go_on : Check ExtractError → Progress → Extraction → Extraction
go_on (err e) p rest = record { result = err e; calls = p.calls }
go_on (ok _) p rest = rest

abbrev pub found_root : Option Text → Result ExtractError Text
found_root none = err no_app
found_root (some root) = ok root

-- The loop over the entries
unfoldable pub extract_entries : Os → Text → Progress → List TarEntry → Extraction
unfolding extract_target safe_join
extract_entries os clean_dest p [] = record { result = found_root p.root; calls = p.calls }
extract_entries os clean_dest p (broken ∷ es) = record { result = err bad_tar; calls = p.calls }
extract_entries os clean_dest p (entry h ∷ es) =
    let one = extract_target os clean_dest p h (safe_join clean_dest h.name) in
    let rest = extract_entries os clean_dest one.progress es in go_on one.result one.progress rest

-- extractAppBundle, of the entries of the tarball if it is a gzip file
unfoldable pub extract_app_bundle : Os → Text → Option (List TarEntry) → Extraction
unfolding extract_entries clean
extract_app_bundle os dest none = record { result = err not_gzip; calls = [] }
extract_app_bundle os dest (some es) =
    extract_entries os (clean dest) (record { root = none; calls = [] }) es
