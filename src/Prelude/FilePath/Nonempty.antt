-- ===== src/Prelude/FilePath/Nonempty.antt =====
-- A cleaned path is never the empty text.
use bladerunner.Prelude.Lists.{All, All-append}
use bladerunner.Prelude.Strings.{Text, is_empty, text_eq, codes}
use bladerunner.Prelude.Tests.{Bool-cases}
use bladerunner.Prelude.FilePath.{
  join_slash, dot_dot, go_up, add_element, add_elements, is_rooted, elements, split, render, clean,
  join,
}
use mathlib.Core.Path.{◌≡◌, refl}
use mathlib.Core.Logic.{◌≢◌, inl, inr}
use mathlib.Core.Bool.{Bool, true, false}
use mathlib.Core.List.{List, [], ◌∷◌, reverse, reverse-cons}

abbrev IsElement : Text → Type 0
IsElement e = is_empty e ≡ false

All-reverse : (es : List Text) → All IsElement es → All IsElement (reverse es)
All-reverse [] h = tt
All-reverse (e ∷ es) h =
    (rw (reverse-cons e es)
      (All-append IsElement (reverse es) (e ∷ []) (All-reverse es h.1) (h.0, tt)))

go_up-elements :
    (rooted : Bool) (out : List Text) → All IsElement out → All IsElement (go_up rooted out)
unfolding go_up
go_up-elements true [] h = tt
go_up-elements false [] h = (refl, tt)
go_up-elements rooted (e ∷ out) h = elim (Bool-cases (text_eq e dot_dot)) [
  | inl up ↦ (rw up (refl, h))
  | inr kept ↦ (rw kept h.1)
]

add_element-elements :
    (rooted : Bool) (out : List Text) (e : Text)
    → All IsElement out
    → All IsElement (add_element rooted out e)
unfolding add_element
add_element-elements rooted out [] h = h
add_element-elements rooted out (c ∷ s) h = elim (Bool-cases (text_eq (c ∷ s) (codes "."))) [
  | inl here ↦ (rw here h)
  | inr other ↦ elim (Bool-cases (text_eq (c ∷ s) dot_dot)) [
    | inl up ↦ (rw other (rw up (go_up-elements rooted out h)))
    | inr down ↦ (rw other (rw down (refl, h)))
  ]
]

add_elements-elements :
    (rooted : Bool) (out es : List Text)
    → All IsElement out
    → All IsElement (add_elements rooted out es)
unfolding add_elements
add_elements-elements rooted out [] h = h
add_elements-elements rooted out (e ∷ es) h =
    add_elements-elements rooted (add_element rooted out e) es (add_element-elements rooted out e h)

join_slash-ne-nil : (e : Text) (es : List Text) → is_empty e ≡ false → join_slash (e ∷ es) ≢ []
unfolding join_slash
join_slash-ne-nil [] es h = cc
join_slash-ne-nil (c ∷ e) [] h = λ k. cc
join_slash-ne-nil (c ∷ e) (d ∷ es) h = λ k. cc

render-ne-nil : (rooted : Bool) (es : List Text) → All IsElement es → render rooted es ≢ []
unfolding render
render-ne-nil true es h = λ k. cc
render-ne-nil false [] h = λ k. cc
render-ne-nil false (e ∷ es) h = join_slash-ne-nil e es h.0

pub clean-ne-nil : (p : Text) → clean p ≢ []
unfolding clean elements
clean-ne-nil p = render-ne-nil (is_rooted p) (elements p) (
    All-reverse (add_elements (is_rooted p) [] (split p))
      (add_elements-elements (is_rooted p) [] (split p) tt))

pub join-ne-nil : (p : Text) (ps : List Text) → p ≢ [] → join (p ∷ ps) ≢ []
unfolding join
join-ne-nil [] ps h = absurd (h refl)
join-ne-nil (c ∷ p) ps h = clean-ne-nil (join_slash ((c ∷ p) ∷ ps))
