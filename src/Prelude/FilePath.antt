-- ===== src/Prelude/FilePath.antt =====
-- What the program uses of package `path/filepath`, on Unix.
pub mod Nonempty
use bladerunner.Prelude.Strings.{Text, is_empty, text_eq, codes}
use bladerunner.Prelude.Tests.{◌==◌, if◌then◌else◌}
use mathlib.Core.Path.{◌≡◌, refl}
use mathlib.Core.Bool.{Bool, true, false, ◌||◌}
use mathlib.Core.List.{List, [], ◌∷◌, ◌++◌, reverse}

-- strings.Split(s, "/"), with the part that is being read
unfoldable pub split_onto : Text → Text → List Text
split_onto cur [] = reverse cur ∷ []
split_onto cur (c ∷ s) = elim (c == b'/') [
  | true ↦ reverse cur ∷ split_onto [] s
  | false ↦ split_onto (c ∷ cur) s
]

unfoldable pub split : Text → List Text
unfolding split_onto
split = split_onto []

-- strings.Join(parts, "/")
unfoldable pub join_slash : List Text → Text
join_slash [] = []
join_slash (p ∷ []) = p
join_slash (p ∷ q ∷ ps) = p ++ (b'/' ∷ join_slash (q ∷ ps))

abbrev pub dot_dot : Text
dot_dot = codes ".."

-- What `..` does to the elements so far, the last one first.
unfoldable pub go_up : Bool → List Text → List Text
go_up true [] = []
go_up false [] = dot_dot ∷ []
go_up rooted (e ∷ out) = if text_eq e dot_dot then dot_dot ∷ e ∷ out else out

-- One element of a path: empty and `.` elements are dropped.
unfoldable pub add_element : Bool → List Text → Text → List Text
unfolding go_up
add_element rooted out e =
    if is_empty e || text_eq e (codes ".")
    then out
    else if text_eq e dot_dot
    then go_up rooted out
    else e ∷ out

unfoldable pub add_elements : Bool → List Text → List Text → List Text
unfolding add_element
add_elements rooted out [] = out
add_elements rooted out (e ∷ es) = add_elements rooted (add_element rooted out e) es

abbrev pub is_rooted : Text → Bool
is_rooted [] = false
is_rooted (c ∷ _) = c == b'/'

-- The elements of the cleaned path, in order.
unfoldable pub elements : Text → List Text
unfolding split add_elements
elements p = reverse (add_elements (is_rooted p) [] (split p))

unfoldable pub render : Bool → List Text → Text
unfolding join_slash
render true es = b'/' ∷ join_slash es
render false [] = codes "."
render false (e ∷ es) = join_slash (e ∷ es)

-- filepath.Clean
unfoldable pub clean : Text → Text
unfolding elements render
clean p = render (is_rooted p) (elements p)

-- filepath.Join: leading empty arguments are ignored.
unfoldable pub join : List Text → Text
unfolding clean join_slash
join [] = []
join ([] ∷ ps) = join ps
join ((c ∷ p) ∷ ps) = clean (join_slash ((c ∷ p) ∷ ps))

-- The text up to and with its last slash, from the reversed text.
unfoldable pub drop_base : Text → Text
drop_base [] = []
drop_base (c ∷ s) = let rest = drop_base s in if c == b'/' then c ∷ s else rest

-- filepath.Dir
unfoldable pub dir : Text → Text
unfolding clean drop_base
dir p = clean (reverse (drop_base (reverse p)))

-- A text without its trailing slashes, from the reversed text
unfoldable pub drop_slashes : Text → Text
drop_slashes [] = []
drop_slashes (c ∷ s) = let rest = drop_slashes s in if c == b'/' then rest else c ∷ s

-- The text behind its last slash, reversed, from the reversed text
unfoldable pub last_part : Text → Text
last_part [] = []
last_part (c ∷ s) = let rest = last_part s in if c == b'/' then [] else c ∷ rest

-- filepath.Base
unfoldable pub base : Text → Text
unfolding drop_slashes last_part
base [] = codes "."
base (c ∷ s) =
    let name = reverse (last_part (drop_slashes (reverse (c ∷ s)))) in
    if is_empty name then codes "/" else name

-- What stands from the last dot of the last element on, or nothing, from the reversed text
unfoldable pub take_ext : Text → Text → Text
take_ext past [] = []
take_ext past (c ∷ s) =
    let rest = take_ext (c ∷ past) s in
    if c == b'/' then [] else if c == b'.' then c ∷ past else rest

-- filepath.Ext
unfoldable pub ext : Text → Text
unfolding take_ext
ext p = take_ext [] (reverse p)

clean_tests :
    (clean (codes "/a/./b//../c/") ≡ codes "/a/c")
    × (clean (codes "../../x/..") ≡ codes "../..")
    × (clean [] ≡ codes ".")
    × (clean (codes "/..") ≡ codes "/")
    × (dir (codes "/Applications/Bladerunner.app") ≡ codes "/Applications")
    × (dir (codes "br") ≡ codes ".")
    × (base (codes "/a/box.dmg/") ≡ codes "box.dmg")
    × (ext (codes "/a.b/box") ≡ [])
    × (ext (codes "/a.b/box.dmg") ≡ codes ".dmg")
    × (join (codes "/state" ∷ codes "disk.raw" ∷ []) ≡ codes "/state/disk.raw")
unfolding clean dir base ext join text_eq
clean_tests = (refl, refl, refl, refl, refl, refl, refl, refl, refl, refl)
