-- ===== src/Control/Wire.antt =====
-- `LineFormat` (internal/control/wire.go). A stream is the bytes that will be read from it; what
-- `Encode` writes is the bytes, or its error.
pub mod RoundTrip
use bladerunner.Prelude.{
  &&-eq-true, ==_iff, ==_refl, >>-eq-ok, >>=-eq-ok, All, All-append, AtLeast, AtMost, Bool,
  Bool-cases, Check, IsDigit, List, Option, Option-cases, Result, String, Text, [], ap, append-nil,
  append_assoc, arith, atoi, atoi-decimal, codes, contains, cut_byte, cut_prefix, decimal,
  decimal-cons, decimal-digits, drop, drop-length-append, err, fail_if, fail_if-eq-ok, false,
  fun_ext, get_elem?, has_prefix, has_suffix, if◌then◌else◌, in_int64, inl, inr, int_eq, int_eq_iff,
  int_gt, int_gt_iff, int_lt, int_lt_iff, is_empty, is_ok, is_ok_unit, is_space, itoa, leb, length,
  length-append, length-drop, length-take, ltb, map, map_err, min, ne_text_eq, negsuc, none, not,
  ok, ok-injective, parse_digits, parse_nat, pos, refl, replicate, reverse, some, subst, suc, sym,
  take, take-length-append, text_eq, text_eq_iff, text_eq_ne, text_eq_refl, to_lower, to_lower_byte,
  trim_left, trim_right, trim_space, true, zero, ||-eq-false, ℕ, ℤ, ◌%◌, ◌&&◌, ◌*◌, ◌++◌, ◌+◌, ◌-◌,
  ◌/◌, ◌<◌, ◌==◌, ◌>>=◌, ◌>>◌, ◌^◌, ◌||◌, ◌↔◌, ◌∙◌, ◌∷◌, ◌≡◌, ◌≢◌, ◌≤◌, ◌⊎◌,
}
use bladerunner.Control.{Message}

abbrev pub error_prefix : Text
error_prefix = codes "error: "

-- The line of a message without its version; `none` is "empty message".
unfoldable pub body : Message → Option Text
body m =
    if not (is_empty m.error)
    then some (error_prefix ++ m.error)
    else if not (is_empty m.response)
    then some m.response
    else if not (is_empty m.command)
    then some m.command
    else none

-- "v%d %s"
unfoldable pub versioned : ℤ → Text → Text
versioned v line = if int_gt v 0 then b'v' ∷ (itoa v ++ (b' ' ∷ line)) else line

unfoldable pub encode : Message → Option Text
unfolding body versioned
encode m = elim (body m) [
  | none ↦ none
  | some line ↦ some (versioned m.version line ++ (b'\n' ∷ []))
]

-- What is behind the prefix "v1 " and the version that it names; a text that has no such prefix is
-- left as it is, with version 0.
unfoldable pub version_at : Text → Option (Text × Text) → ℤ × Text
version_at text none = (pos 0, text)
version_at text (some (number, rest)) = elim (atoi number) [
  | none ↦ (pos 0, text)
  | some v ↦ (v, rest)
]

unfoldable pub split_version : Text → ℤ × Text
unfolding version_at
split_version [] = (pos 0, [])
split_version (c ∷ []) = (pos 0, c ∷ [])
split_version (c ∷ d ∷ s) =
    if c == b'v' then version_at (c ∷ d ∷ s) (cut_byte b' ' (d ∷ s)) else (pos 0, c ∷ d ∷ s)

unfoldable pub parse_body : ℤ → Text → Message
parse_body v text = elim (cut_prefix text error_prefix) [
  | none ↦ record { version = v; command = text; response = text; error = [] }
  | some e ↦ record { version = v; command = []; response = []; error = e }
]

-- `none` is the read error of a stream that ends before a newline.
unfoldable pub decode_line : Option (Text × Text) → Option Message
unfolding split_version parse_body
decode_line none = none
decode_line (some (line, _)) =
    let (v, text) = split_version (trim_space line) in some (parse_body v text)

unfoldable pub decode : Text → Option Message
unfolding decode_line
decode stream = decode_line (cut_byte b'\n' stream)
