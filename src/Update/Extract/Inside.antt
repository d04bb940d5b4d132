-- ===== src/Update/Extract/Inside.antt =====
-- Where the extraction of an update writes (internal/update/install.go).
use bladerunner.Prelude.{
  All, List, Option, Text, [], codes, false, has_prefix, none, ok, some, ◌++◌, ◌<◌, ◌^◌, ◌≡◌, ◌⊎◌,
}
use bladerunner.Prelude.FilePath.{dir}
use bladerunner.Update.Extract.Root.{IsNamed}
use bladerunner.Update.Extract.{
  TarEntry, OsCall, mkdir_all, write_file, make_link, is_abs, Extraction,
}

-- A path that is the directory or continues it behind a slash
abbrev pub IsInside : Text → Text → Type 0
IsInside dest p = (p ≡ dest) ⊎ ((rest : Text) × (p ≡ dest ++ codes "/" ++ rest))

-- A call makes a directory that is inside or the parent of a path inside, writes a file inside with
-- permission bits alone, or makes a link inside that is relative and does not begin by going up.
abbrev pub Confined : Text → OsCall → Type 0
Confined dest (mkdir_all p) = IsInside dest p ⊎ ((q : Text) × IsInside dest q × (p ≡ dir q))
Confined dest (write_file p mode _) = IsInside dest p × (mode < 2 ^ 9)
Confined dest (make_link link p) =
    IsInside dest p × (is_abs link ≡ false) × (has_prefix link (codes "..") ≡ false)

-- A returned application is that of an entry.
abbrev pub Extracts : Text → List TarEntry → Extraction → Type 0
Extracts dest es x =
    All (Confined dest) x.calls × ((root : Text) → x.result ≡ ok root → IsNamed dest es root)

abbrev pub entries_of : Option (List TarEntry) → List TarEntry
entries_of none = []
entries_of (some es) = es
