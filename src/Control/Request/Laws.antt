-- ===== src/Control/Request/Laws.antt =====
-- The words that a client joins into a command are the words that the server reads.
use bladerunner.Prelude.{
  &&-eq-true, All, Bool, List, Text, [], ap, append-nil, arith, false, is_empty, is_space, not,
  refl, reverse, subst, sym, true, ◌&&◌, ◌++◌, ◌∙◌, ◌∷◌, ◌≡◌,
}
use mathlib.Core.List.{reverse_aux, reverse-reverse}
use bladerunner.Control.Request.{
  emit, fields_onto, fields, from_words, new_request, join_space, build_command,
}

-- A word is not empty and has no white space.
abbrev pub IsWord : Text → Type 0
IsWord w = (is_empty w ≡ false) × All (λ c. is_space c ≡ false) w

abbrev no_space : Text → Bool
no_space [] = true
no_space (c ∷ w) = not (is_space c) && no_space w

no_space-All : (w : Text) → no_space w ≡ true → All (λ c. is_space c ≡ false) w
no_space-All [] h = tt
no_space-All (c ∷ w) h =
    (ground arith, no_space-All w (&&-eq-true (not (is_space c)) (no_space w) h).1)

-- A literal is a word by computation.
pub word : (w : Text) → (not (is_empty w) && no_space w) ≡ true → IsWord w
word w h =
    let (some_byte, plain) = &&-eq-true (not (is_empty w)) (no_space w) h in
    (ground arith, no_space-All w plain)

fields_onto-word :
    (w cur rest : Text)
    → All (λ c. is_space c ≡ false) w
    → fields_onto cur (w ++ rest) ≡ fields_onto (reverse_aux w cur) rest
unfolding fields_onto
fields_onto-word [] cur rest h = refl
fields_onto-word (c ∷ w) cur rest h = rw h.0 (fields_onto-word w (c ∷ cur) rest h.1)

emit-cons : (cur : Text) (ws : List Text) → is_empty cur ≡ false → emit cur ws ≡ reverse cur ∷ ws
emit-cons [] ws h = cc
emit-cons (d ∷ ds) ws h = refl

is_empty-reverse : (w r : Text) → reverse w ≡ r → is_empty w ≡ false → is_empty r ≡ false
is_empty-reverse w [] e h =
    let gone : w ≡ [] = sym (reverse-reverse w) ∙ ap (λ (t : Text). reverse t) e in
    subst (λ (t : Text). is_empty t ≡ false) gone h
is_empty-reverse w (c ∷ r) e h = refl

emit-reverse : (w : Text) (ws : List Text) → is_empty w ≡ false → emit (reverse w) ws ≡ w ∷ ws
emit-reverse w ws h =
    emit-cons (reverse w) ws (is_empty-reverse w (reverse w) refl h)
    ∙ ap (λ (t : Text). t ∷ ws) (reverse-reverse w)

pub fields-join_space : (ws : List Text) → All IsWord ws → fields (join_space ws) ≡ ws
unfolding fields join_space fields_onto
fields-join_space [] h = refl
fields-join_space (w ∷ []) h =
    ap (λ (t : Text). fields_onto [] t) (sym (append-nil w))
    ∙ fields_onto-word w [] [] h.0.1
    ∙ emit-reverse w [] h.0.0
fields-join_space (w ∷ v ∷ ws) h =
    fields_onto-word w [] (b' ' ∷ join_space (v ∷ ws)) h.0.1
    ∙ emit-reverse w (fields_onto [] (join_space (v ∷ ws))) h.0.0
    ∙ ap (◌∷◌ w) (fields-join_space (v ∷ ws) h.1)

-- The text that joins a command and its arguments, each a word, is parsed as those words.
pub new_request-build_command :
    (cmd : Text) (args : List Text)
    → IsWord cmd
    → All IsWord args
    → new_request (build_command cmd args) ≡ from_words (build_command cmd args) (cmd ∷ args)
unfolding new_request build_command
new_request-build_command cmd args c a =
    ap (from_words (build_command cmd args)) (fields-join_space (cmd ∷ args) (c, a))
