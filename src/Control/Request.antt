-- ===== src/Control/Request.antt =====
-- Requests (internal/control/command.go). `Args` is a map: later words write over earlier ones.
pub mod Laws
pub mod Positions
use bladerunner.Prelude.{
  &&-eq-true, ==_iff, ==_refl, >>-eq-ok, >>=-eq-ok, All, All-append, AtLeast, AtMost, Bool,
  Bool-cases, Check, IsDigit, List, Option, Option-cases, Result, String, Text, [], ap, append-nil,
  append_assoc, arith, atoi, atoi-decimal, codes, contains, cut_byte, cut_prefix, decimal,
  decimal-cons, decimal-digits, drop, drop-length-append, err, fail_if, fail_if-eq-ok, false,
  fun_ext, get_elem?, has_prefix, has_suffix, if◌then◌else◌, in_int64, inl, inr, int_eq, int_eq_iff,
  int_gt, int_gt_iff, int_lt, int_lt_iff, is_empty, is_ok, is_ok_unit, is_space, itoa, leb, length,
  length-append, length-drop, length-take, ltb, map, map_err, min, ne_text_eq, negsuc, none, not,
  ok, ok-injective, parse_digits, parse_nat, pos, refl, replicate, reverse, some, subst, suc, sym,
  take, take-length-append, text_eq, text_eq_iff, text_eq_ne, text_eq_refl, to_lower, to_lower_byte,
  trim_left, trim_right, trim_space, true, zero, ||-eq-false, ℕ, ℤ, ◌%◌, ◌&&◌, ◌*◌, ◌++◌, ◌+◌, ◌-◌,
  ◌/◌, ◌<◌, ◌==◌, ◌>>=◌, ◌>>◌, ◌^◌, ◌||◌, ◌↔◌, ◌∙◌, ◌∷◌, ◌≡◌, ◌≢◌, ◌≤◌, ◌⊎◌,
}

pub record Request : Type 0 where
  pub command : Text
  pub args : List (Text × Text)
  pub raw : Text

-- The word that was read (reversed), if it is one, before the words that follow.
abbrev pub emit : Text → List Text → List Text
emit [] ws = ws
emit (d ∷ ds) ws = reverse (d ∷ ds) ∷ ws

-- strings.Fields, with the word that is being read (reversed)
unfoldable pub fields_onto : Text → Text → List Text
fields_onto cur [] = emit cur []
fields_onto cur (c ∷ s) =
    let more = fields_onto (c ∷ cur) s in
    let next = fields_onto [] s in if is_space c then emit cur next else more

unfoldable pub fields : Text → List Text
unfolding fields_onto
fields = fields_onto []

-- The read of a missing key is the empty string.
unfoldable pub get_arg : Text → List (Text × Text) → Text
get_arg k [] = []
get_arg k ((j, v) ∷ m) = if text_eq j k then v else get_arg k m

-- The newest entry stands first.
abbrev pub put_arg : Text → Text → List (Text × Text) → List (Text × Text)
put_arg k v m = (k, v) ∷ m

abbrev pub keyed : ℕ → Text → Option (Text × Text) → Text × Text
keyed i part none = (decimal i, part)
keyed i part (some (k, v)) = if is_empty k then (decimal i, part) else (k, v)

-- "key=value" with a key, or the position of the word.
unfoldable pub arg_of : ℕ → Text → Text × Text
arg_of i part = keyed i part (cut_byte b'=' part)

unfoldable pub add_args : ℕ → List Text → List (Text × Text) → List (Text × Text)
unfolding arg_of
add_args i [] m = m
add_args i (part ∷ parts) m = add_args (suc i) parts (put_arg (arg_of i part).0 (arg_of i part).1 m)

unfoldable pub from_words : Text → List Text → Request
unfolding add_args
from_words raw [] = record { command = []; args = []; raw = raw }
from_words raw (cmd ∷ parts) = record { command = cmd; args = add_args 0 parts []; raw = raw }

-- NewRequest
unfoldable pub new_request : Text → Request
unfolding from_words
new_request raw = from_words raw (fields raw)

-- strings.Join(parts, " ")
unfoldable pub join_space : List Text → Text
join_space [] = []
join_space (p ∷ []) = p
join_space (p ∷ q ∷ ps) = p ++ (b' ' ∷ join_space (q ∷ ps))

-- BuildCommand
unfoldable pub build_command : Text → List Text → Text
unfolding join_space
build_command cmd args = join_space (cmd ∷ args)
