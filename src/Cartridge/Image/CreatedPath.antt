-- ===== src/Cartridge/Image/CreatedPath.antt =====
-- Which path a line of hdiutil's output names.
use bladerunner.Prelude.{
  ==_refl, Bool-cases, Option, Text, [], ap, append_assoc, arith, codes, cut_prefix, drop,
  drop-length-append, false, has_prefix, has_prefix-rest, inl, inr, is_empty, length, length-append,
  map, none, refl, some, subst, suc, sym, to_lower, to_lower_byte, trim_space, true, ℕ, ◌++◌, ◌+◌,
  ◌∙◌, ◌∷◌, ◌≡◌, ◌≢◌, ◌≤◌, ◌⊎◌,
}
use bladerunner.Cartridge.Image.{index, one_later, path_after, created_path}

cut_prefix-append : (p s : Text) → cut_prefix (p ++ s) p ≡ some s
unfolding cut_prefix
cut_prefix-append [] s = refl
cut_prefix-append (c ∷ p) s = (rw (==_refl c) (cut_prefix-append p s))

pub has_prefix-append : (p s : Text) → has_prefix (p ++ s) p ≡ true
unfolding has_prefix
has_prefix-append p s = (rw (cut_prefix-append p s, has_prefix) refl)

abbrev pub created_mark : Text
created_mark = codes "created:"

-- The first `created:` of a line, in any case of letters: `rest` is what stands behind it, and
-- nothing that stands before its place begins with another.
abbrev pub MarkedBefore : Text → Text → Type 0
MarkedBefore line rest =
    (before : Text) × (mark : Text) × (line ≡ before ++ (mark ++ rest))
    × (to_lower mark ≡ created_mark)
    × ((v x : Text) → to_lower line ≡ v ++ (created_mark ++ x) → length before ≤ length v)

-- The line has a `created:` with a path behind it.
abbrev pub Names : Text → Text → Type 0
Names line p =
    (rest : Text) × MarkedBefore (trim_space line) rest
    × (p ≡ trim_space rest)
    × (is_empty p ≡ false)

-- The line has no `created:`, or nothing but white space stands behind the first.
abbrev pub NamesNothing : Text → Type 0
NamesNothing line =
    ((v x : Text) → to_lower (trim_space line) ≢ v ++ (created_mark ++ x))
    ⊎ ((rest : Text) × MarkedBefore (trim_space line) rest × (is_empty (trim_space rest) ≡ true))

not_prefix : (s p x : Text) → has_prefix s p ≡ false → s ≢ p ++ x
not_prefix s p x h e =
    let yes = has_prefix-append p x in
    let no = subst (λ (t : Text). has_prefix t p ≡ false) e h in cc

-- What index tells of a text
IndexOf : Text → Text → Option ℕ → Type 0
IndexOf s p none = (v x : Text) → s ≢ v ++ (p ++ x)
IndexOf s p (some n) =
    (u : Text) × (x : Text) × (s ≡ u ++ (p ++ x))
    × (length u ≡ n)
    × ((v y : Text) → s ≡ v ++ (p ++ y) → length u ≤ length v)

one_later-IndexOf :
    (c : ℕ) (s p : Text) (o : Option ℕ)
    → has_prefix (c ∷ s) p ≡ false
    → IndexOf s p o
    → IndexOf (c ∷ s) p (one_later o)
unfolding IndexOf one_later
one_later-IndexOf c s p none h k = absent
  where
    absent : (v x : Text) → (c ∷ s) ≢ v ++ (p ++ x)
    absent [] x e = not_prefix (c ∷ s) p x h e
    absent (d ∷ v) x e = (let tail : s ≡ v ++ (p ++ x) = cc in k v x tail)
one_later-IndexOf c s p (some n) h (u, x, e, l, first) = (c ∷ u, x, ap (◌∷◌ c) e, ap suc l, later)
  where
    later : (v y : Text) → (c ∷ s) ≡ v ++ (p ++ y) → length (c ∷ u) ≤ length v
    later [] y e = absurd (not_prefix (c ∷ s) p y h e)
    later (d ∷ v) y e =
        (let tail : s ≡ v ++ (p ++ y) = cc in let le = first v y tail in omega arith)

index-IndexOf : (s p : Text) → IndexOf s p (index s p)
unfolding index IndexOf
index-IndexOf [] [] = ([], [], refl, refl, λ v y e. omega arith)
index-IndexOf [] (c ∷ p) = absent
  where
    absent : (v x : Text) → [] ≢ v ++ ((c ∷ p) ++ x)
    absent [] x e = cc
    absent (d ∷ v) x e = cc
index-IndexOf (c ∷ s) p = elim (Bool-cases (has_prefix (c ∷ s) p)) [
  | inl here ↦
      (let (x, e) = has_prefix-rest (c ∷ s) p here in
        (rw here ([], x, e, refl, λ v y k. omega arith)))
  | inr past ↦ (rw past (one_later-IndexOf c s p (index s p) past (index-IndexOf s p)))
]

-- A text whose lower case is split is split itself.
to_lower-split :
    (line a b : Text)
    → to_lower line ≡ a ++ b
    → (u : Text) × (w : Text) × (line ≡ u ++ w)
      × (to_lower u ≡ a)
      × (to_lower w ≡ b)
      × (length u ≡ length a)
unfolding to_lower
to_lower-split line [] b h = ([], line, refl, refl, h, refl)
to_lower-split [] (c ∷ a) b h = cc
to_lower-split (d ∷ line) (c ∷ a) b h =
    let head : to_lower_byte d ≡ c = cc in
    let tail : map to_lower_byte line ≡ a ++ b = cc in
    let (u, w, e, lu, lw, l) = to_lower-split line a b tail in
    (d ∷ u, w, ap (◌∷◌ d) e, ap (λ x. x ∷ map to_lower_byte u) head ∙ ap (◌∷◌ c) lu, lw, ap suc l)

drop_marked :
    (u mark rest : Text) (n : ℕ)
    → length u ≡ n
    → length mark ≡ 8
    → drop (n + 8) (u ++ (mark ++ rest)) ≡ rest
drop_marked u mark rest n l k =
    let size : length (u ++ mark) ≡ n + 8 = length-append u mark ∙ (omega arith) in
    subst (λ j. drop j (u ++ (mark ++ rest)) ≡ rest) size
      (ap (drop (length (u ++ mark))) (sym (append_assoc u mark rest))
        ∙ drop-length-append (u ++ mark) rest)

-- What the line tells, by where the mark was found
unfoldable pub Told : Text → Option Text → Type 0
Told line none = NamesNothing line
Told line (some p) = Names line p

path_after-Told :
    (raw : Text) (o : Option ℕ)
    → IndexOf (to_lower (trim_space raw)) created_mark o
    → Told raw (path_after (trim_space raw) o)
unfolding path_after IndexOf Told
path_after-Told raw none h = inl h
path_after-Told raw (some n) (u, x, e, l, first) =
    let line = trim_space raw in
    let (before, behind, cut, lu, lb, lub) = to_lower-split line u (created_mark ++ x) e in
    let (mark, rest, cut₂, lm, lr, lmk) = to_lower-split behind created_mark x lb in
    let whole : line ≡ before ++ (mark ++ rest) = cut ∙ ap (◌++◌ before) cut₂ in
    let left : drop (n + 8) line ≡ rest =
      ap (drop (n + 8)) whole ∙ drop_marked before mark rest n (lub ∙ l) lmk in
    let marked : MarkedBefore line rest =
      (before, mark, whole, lm, λ v y k. (let le = first v y k in omega arith)) in
    (rw left (elim (Bool-cases (is_empty (trim_space rest))) [
      | inl gone ↦ (rw gone (inr (rest, marked, gone)))
      | inr path ↦ (rw path (rest, marked, refl, path))
    ]))

pub created_path-Told : (line : Text) → Told line (created_path line)
unfolding created_path
created_path-Told line =
    path_after-Told line (index (to_lower (trim_space line)) created_mark)
      (index-IndexOf (to_lower (trim_space line)) created_mark)
