-- ===== src/Control/Request/Positions.antt =====
-- Which arguments a request has when its words are no `key=value` pairs.
use bladerunner.Prelude.{
  parse-decimal, All, List, Text, [], ap, arith, cut_byte, decimal, false, ne_text_eq, none,
  parse_digits, refl, some, subst, suc, sym, text_eq_refl, zero, ℕ, ◌+◌, ◌<◌, ◌==◌, ◌∙◌, ◌∷◌, ◌≡◌,
  ◌≢◌, ◌≤◌,
}
use bladerunner.Control.Request.{
  Request, get_arg, arg_of, add_args, from_words, new_request, build_command,
}
use bladerunner.Control.Request.Laws.{IsWord, new_request-build_command}

-- The word has no `=`.
abbrev pub IsPlain : Text → Type 0
IsPlain w = All (λ c. (c == b'=') ≡ false) w

-- The word at a position, empty behind the last one
abbrev pub word_at : ℕ → List Text → Text
word_at n [] = []
word_at zero (w ∷ ws) = w
word_at (suc n) (w ∷ ws) = word_at n ws

cut_byte-IsPlain : (w : Text) → IsPlain w → cut_byte b'=' w ≡ none
unfolding cut_byte
cut_byte-IsPlain [] h = refl
cut_byte-IsPlain (c ∷ w) h = (rw h.0 (rw (cut_byte-IsPlain w h.1) refl))

arg_of-IsPlain : (i : ℕ) (w : Text) → IsPlain w → arg_of i w ≡ (decimal i, w)
unfolding arg_of
arg_of-IsPlain i w h = (rw (cut_byte-IsPlain w h) refl)

decimal-injective : (i j : ℕ) → decimal i ≡ decimal j → i ≡ j
decimal-injective i j e =
    some-injective (sym (parse-decimal i) ∙ ap (parse_digits 0) e ∙ parse-decimal j)
  where
    some-injective : {a b : ℕ} → some a ≡ some b → a ≡ b
    some-injective h = cc

get_arg-same : (k v : Text) (m : List (Text × Text)) → get_arg k ((k, v) ∷ m) ≡ v
unfolding get_arg
get_arg-same k v m = (rw (text_eq_refl k) refl)

get_arg-other :
    (i j : ℕ) (v : Text) (m : List (Text × Text))
    → i ≢ j
    → get_arg (decimal j) ((decimal i, v) ∷ m) ≡ get_arg (decimal j) m
unfolding get_arg
get_arg-other i j v m h =
    (rw (ne_text_eq (decimal i) (decimal j) (λ e. h (decimal-injective i j e))) refl)

add_args-before :
    (i k : ℕ) (parts : List Text) (m : List (Text × Text))
    → All IsPlain parts
    → k < i
    → get_arg (decimal k) (add_args i parts m) ≡ get_arg (decimal k) m
unfolding add_args
add_args-before i k [] m h l = refl
add_args-before i k (w ∷ ws) m h l =
    (rw (arg_of-IsPlain i w h.0) (
      add_args-before (suc i) k ws ((decimal i, w) ∷ m) h.1 (omega arith)
      ∙ get_arg-other i k w m (λ e. omega arith)))

add_args-word_at :
    (i j n : ℕ) (parts : List Text) (m : List (Text × Text))
    → j ≡ i + n
    → All IsPlain parts
    → ((k : ℕ) → i ≤ k → get_arg (decimal k) m ≡ [])
    → get_arg (decimal j) (add_args i parts m) ≡ word_at n parts
unfolding add_args
add_args-word_at i j n [] m e h unset = unset j (omega arith)
add_args-word_at i j zero (w ∷ ws) m e h unset =
    let same : i ≡ j = omega arith in
    (rw (arg_of-IsPlain i w h.0) (
      subst (λ k. get_arg (decimal k) (add_args (suc i) ws ((decimal i, w) ∷ m)) ≡ w) same
        (add_args-before (suc i) i ws ((decimal i, w) ∷ m) h.1 (omega arith)
          ∙ get_arg-same (decimal i) w m)))
add_args-word_at i j (suc n) (w ∷ ws) m e h unset =
    (rw (arg_of-IsPlain i w h.0) (
      add_args-word_at (suc i) j n ws ((decimal i, w) ∷ m) (omega arith) h.1
        (λ k l. get_arg-other i k w m (λ e. omega arith) ∙ unset k (omega arith))))

-- The request is the command with the words as its positional arguments.
abbrev pub IsPositional : Text → List Text → Request → Type 0
IsPositional cmd args r =
    (r.command ≡ cmd) × ((n : ℕ) → get_arg (decimal n) r.args ≡ word_at n args)

from_words-IsPositional :
    (raw cmd : Text) (args : List Text)
    → All IsPlain args
    → IsPositional cmd args (from_words raw (cmd ∷ args))
unfolding from_words
from_words-IsPositional raw cmd args h =
    (refl, λ n. add_args-word_at 0 n n args [] (omega arith) h (λ j l. unfold get_arg in refl))

-- A command and its arguments, each a word and no argument with a `=`, are parsed back from the
-- text that BuildCommand joins: the request has the command, and at the decimal text of each
-- position from 0 the argument of that position, and the empty text behind the last one.
pub new_request-IsPositional :
    (cmd : Text) (args : List Text)
    → IsWord cmd
    → All IsWord args
    → All IsPlain args
    → IsPositional cmd args (new_request (build_command cmd args))
new_request-IsPositional cmd args c a p =
    subst (IsPositional cmd args) (sym (new_request-build_command cmd args c a))
      (from_words-IsPositional (build_command cmd args) cmd args p)
