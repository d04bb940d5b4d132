-- ===== src/Update/Extract/Root.antt =====
-- Which application the extraction of an update returns (internal/update/install.go).
use bladerunner.Prelude.{
  ==_iff, Bool, Check, List, Option, Result, Text, [], ap, append-nil, codes, cut_byte, cut_prefix,
  cut_prefix-some, err, false, has_suffix, if◌then◌else◌, inl, inr, none, ok, ok-injective, refl,
  some, sym, to_lower, true, ℕ, ◌++◌, ◌==◌, ◌∙◌, ◌∷◌, ◌≡◌, ◌⊎◌,
}
use bladerunner.Prelude.FilePath.{join}
use bladerunner.Update.Extract.{
  Header, TarEntry, entry, broken, Os, ExtractError, is_app, first_element, without_prefix,
  before_slash, top_app_component, first_app, note_root, Progress, extract_target, go_on,
  found_root, extract_entries, safe_join, Extraction,
}

some-injective {ℓ} : {A : Type ℓ} {a b : A} → some a ≡ some b → a ≡ b
some-injective h = cc

-- The name of an entry begins, behind a `./` or not, with an element `top` that ends in `.app` in
-- any case of letters.
abbrev pub BeginsWithApp : Text → Text → Type 0
BeginsWithApp name top =
    (has_suffix (to_lower top) (codes ".app") ≡ true)
    × ((rest : Text) × ((name ≡ top ++ rest) ⊎ (name ≡ codes "./" ++ (top ++ rest)))
        × ((rest ≡ []) ⊎ ((inner : Text) × (rest ≡ b'/' ∷ inner))))

-- The root is the application of that name below the destination.
abbrev pub IsRootOf : Text → Text → Text → Type 0
IsRootOf dest name root = (top : Text) × BeginsWithApp name top × (root ≡ join (dest ∷ top ∷ []))

-- The root is that of one of the entries.
abbrev pub IsNamed : Text → List TarEntry → Text → Type 0
IsNamed dest [] root = ⊥
IsNamed dest (broken ∷ es) root = IsNamed dest es root
IsNamed dest (entry h ∷ es) root = IsRootOf dest h.name root ⊎ IsNamed dest es root

-- The text before a slash, and what stands from the slash on.
abbrev CutsAt : Text → Text → Type 0
CutsAt path first =
    (rest : Text) × (path ≡ first ++ rest)
    × ((rest ≡ []) ⊎ ((inner : Text) × (rest ≡ b'/' ∷ inner)))

-- One step of the cut
abbrev cut_at : Bool → ℕ → Text → Option (Text × Text) → Option (Text × Text)
cut_at t c s o = if t then some ([], s) else elim o [ none ↦ none | some (a, z) ↦ some (c ∷ a, z) ]

cut_byte-some : (s u v : Text) → cut_byte b'/' s ≡ some (u, v) → s ≡ u ++ (b'/' ∷ v)
unfolding cut_byte
cut_byte-some [] u v h = cc
cut_byte-some (c ∷ s) u v h =
    go (c == b'/') refl (cut_byte b'/' s) refl h (λ w k. cut_byte-some s w v k)
  where
    go :
        (t : Bool)
        → (c == b'/') ≡ t
        → (o : Option (Text × Text)) → cut_byte b'/' s ≡ o
        → cut_at t c s o ≡ some (u, v)
        → ((w : Text) → cut_byte b'/' s ≡ some (w, v) → s ≡ w ++ (b'/' ∷ v))
        → (c ∷ s) ≡ u ++ (b'/' ∷ v)
    go true e o k h ih =
        let here : c ≡ b'/' = (==_iff c b'/').0 e in
        let first : [] ≡ u = ap (λ (x : Text × Text). x.0) (some-injective h) in
        let last : s ≡ v = ap (λ (x : Text × Text). x.1) (some-injective h) in
        ap (λ x. x ∷ s) here ∙ ap (◌∷◌ b'/') last ∙ ap (λ (x : Text). x ++ (b'/' ∷ v)) first
    go false e none k h ih = cc
    go false e (some (a, z)) k h ih =
        let first : (c ∷ a) ≡ u = ap (λ (x : Text × Text). x.0) (some-injective h) in
        let last : z ≡ v = ap (λ (x : Text × Text). x.1) (some-injective h) in
        ap (◌∷◌ c) (ih a (k ∙ ap (λ (x : Text). some (a, x)) last))
        ∙ ap (λ (x : Text). x ++ (b'/' ∷ v)) first

before_slash-CutsAt :
    (path : Text) (o : Option (Text × Text))
    → cut_byte b'/' path ≡ o
    → CutsAt path (before_slash path o)
before_slash-CutsAt path none h = ([], sym (append-nil path), inl refl)
before_slash-CutsAt path (some (u, v)) h = (b'/' ∷ v, cut_byte-some path u v h, inr (v, refl))

abbrev BeginsWith : Text → Text → Type 0
BeginsWith name first =
    (rest : Text) × ((name ≡ first ++ rest) ⊎ (name ≡ codes "./" ++ (first ++ rest)))
    × ((rest ≡ []) ⊎ ((inner : Text) × (rest ≡ b'/' ∷ inner)))

without_prefix-BeginsWith :
    (name first : Text) (o : Option Text)
    → cut_prefix name (codes "./") ≡ o
    → CutsAt (without_prefix name o) first
    → BeginsWith name first
without_prefix-BeginsWith name first none h (rest, e, end) = (rest, inl e, end)
without_prefix-BeginsWith name first (some path) h (rest, e, end) =
    (rest, inr (cut_prefix-some name (codes "./") h ∙ ap (◌++◌ (codes "./")) e), end)

first_element-BeginsWith : (name : Text) → BeginsWith name (first_element name)
unfolding first_element
first_element-BeginsWith name =
    let path = without_prefix name (cut_prefix name (codes "./")) in
    without_prefix-BeginsWith name (before_slash path (cut_byte b'/' path))
      (cut_prefix name (codes "./")) refl (before_slash-CutsAt path (cut_byte b'/' path) refl)

module _ (dest : Text) where
  first_app-IsRootOf :
      (name first : Text) (t : Bool) (root : Text)
      → is_app first ≡ t
      → BeginsWith name first
      → first_app dest (if t then first else []) ≡ some root
      → IsRootOf dest name root
  first_app-IsRootOf name first false root e b h = cc
  first_app-IsRootOf name [] true root e b h = cc
  first_app-IsRootOf name (c ∷ first) true root e b h = (c ∷ first, (e, b), sym (some-injective h))

  note_root-IsRootOf :
      (name : Text) (before : Option Text) (root : Text)
      → note_root dest name before ≡ some root
      → (before ≡ some root) ⊎ IsRootOf dest name root
  unfolding top_app_component
  note_root-IsRootOf name (some b) root h = inl h
  note_root-IsRootOf name none root h = inr (
      first_app-IsRootOf name (first_element name) (is_app (first_element name)) root refl
        (first_element-BeginsWith name) h)

  target-IsRootOf :
      (os : Os) (p : Progress) (h : Header) (o : Result ExtractError Text) (root : Text)
      → (extract_target os dest p h o).progress.root ≡ some root
      → (p.root ≡ some root) ⊎ IsRootOf dest h.name root
  unfolding extract_target
  target-IsRootOf os p h (err e) root k = inl k
  target-IsRootOf os p h (ok target) root k = note_root-IsRootOf h.name p.root root k

found_root-some : (o : Option Text) (root : Text) → found_root o ≡ ok root → o ≡ some root
found_root-some none root h = cc
found_root-some (some r) root h = ap some (ok-injective h)

go_on-ok :
    (r : Check ExtractError) (p : Progress) (rest : Extraction) (root : Text)
    → (go_on r p rest).result ≡ ok root
    → rest.result ≡ ok root
go_on-ok (err e) p rest root h = cc
go_on-ok (ok _) p rest root h = h

pub extract_entries-IsNamed :
    (os : Os) (dest : Text) (p : Progress) (es : List TarEntry) (root : Text)
    → (extract_entries os dest p es).result ≡ ok root
    → (p.root ≡ some root) ⊎ IsNamed dest es root
unfolding extract_entries
extract_entries-IsNamed os dest p [] root h = inl (found_root-some p.root root h)
extract_entries-IsNamed os dest p (broken ∷ es) root h = cc
extract_entries-IsNamed os dest p (entry e ∷ es) root h =
    let one = extract_target os dest p e (safe_join dest e.name) in
    elim (extract_entries-IsNamed os dest one.progress es root
      (go_on-ok one.result one.progress (extract_entries os dest one.progress es) root h)) [
        | inr later ↦ inr (inr later)
        | inl k ↦ elim (target-IsRootOf dest os p e (safe_join dest e.name) root k) [
          | inl earlier ↦ inl earlier
          | inr here ↦ inr (inl here)
        ]
      ]
