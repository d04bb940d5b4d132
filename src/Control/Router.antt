-- ===== src/Control/Router.antt =====
-- Command routing (internal/control/router.go). A handler may change the state `S` of the server.
pub mod Dispatch
use bladerunner.Prelude.{
  &&-eq-true, ==_iff, ==_refl, >>-eq-ok, >>=-eq-ok, All, All-append, AtLeast, AtMost, Bool,
  Bool-cases, Check, IsDigit, List, Option, Option-cases, Result, String, Text, [], ap, append-nil,
  append_assoc, arith, atoi, atoi-decimal, codes, contains, cut_byte, cut_prefix, decimal,
  decimal-cons, decimal-digits, drop, drop-length-append, err, fail_if, fail_if-eq-ok, false,
  fun_ext, get_elem?, has_prefix, has_suffix, if◌then◌else◌, in_int64, inl, inr, int_eq, int_eq_iff,
  int_gt, int_gt_iff, int_lt, int_lt_iff, is_empty, is_ok, is_ok_unit, is_space, itoa, leb, length,
  length-append, length-drop, length-take, ltb, map, map_err, min, ne_text_eq, negsuc, none, not,
  ok, ok-injective, parse_digits, parse_nat, pos, refl, replicate, reverse, some, subst, suc, sym,
  take, take-length-append, text_eq, text_eq_iff, text_eq_ne, text_eq_refl, to_lower, to_lower_byte,
  trim_left, trim_right, trim_space, true, zero, ||-eq-false, ℕ, ℤ, ◌%◌, ◌&&◌, ◌*◌, ◌++◌, ◌+◌, ◌-◌,
  ◌/◌, ◌<◌, ◌==◌, ◌>>=◌, ◌>>◌, ◌^◌, ◌||◌, ◌↔◌, ◌∙◌, ◌∷◌, ◌≡◌, ◌≢◌, ◌≤◌, ◌⊎◌,
}
use bladerunner.Control.{Message, failure}
use bladerunner.Control.Request.{Request}

abbrev pub Handler : Type 0 → Type 0
Handler S = Request → S → Message × S

mutual
  pub data Router (S : Type 0) : Type 0 where
    router : List (Text × Handler S) → Mounts S → Router S

  -- the map `prefix`
  pub data Mounts (S : Type 0) : Type 0 where
    unmounted : Mounts S
    mount : Text → Router S → Mounts S → Mounts S

-- "config.get" ↦ "config", "get"; a leading dot is no separator.
unfoldable pub namespace : Text → Option (Text × Text)
namespace command = elim (cut_byte b'.' command) [
  | none ↦ none
  | some (p, rest) ↦ if is_empty p then none else some (p, rest)
]

abbrev pub unknown_command : Text → Message
unknown_command command = failure (codes "unknown command: " ++ command)

abbrev pub with_command : Text → Request → Request
with_command c req = record { command = c; args = req.args; raw = req.raw }

unfoldable pub find_handler : {S : Type 0} → Text → List (Text × Handler S) → Option (Handler S)
find_handler k [] = none
find_handler k ((j, h) ∷ hs) = if text_eq j k then some h else find_handler k hs

abbrev pub handled : {S : Type 0} → Option (Handler S) → Request → S → Message × S → Message × S
handled (some h) req s otherwise = h req s
handled none req s otherwise = otherwise

unfoldable mutual
  pub dispatch : {S : Type 0} → Router S → Request → S → Message × S
  dispatch (router handlers mounts) req s =
      let otherwise = dispatch_mount mounts (namespace req.command) req s in
      handled (find_handler req.command handlers) req s otherwise

  pub dispatch_mount : {S : Type 0} → Mounts S → Option (Text × Text) → Request → S → Message × S
  dispatch_mount unmounted target req s = (unknown_command req.command, s)
  dispatch_mount (mount q r ms) none req s = (unknown_command req.command, s)
  dispatch_mount (mount q r ms) (some (p, rest)) req s =
      let here = dispatch r (with_command rest req) s in
      let later = dispatch_mount ms (some (p, rest)) req s in if text_eq q p then here else later

unfoldable mutual
  pub commands : {S : Type 0} → Router S → List Text
  commands (router handlers mounts) = map (λ entry. entry.0) handlers ++ mounted_commands mounts

  pub mounted_commands : {S : Type 0} → Mounts S → List Text
  mounted_commands unmounted = []
  mounted_commands (mount p r ms) = map (λ c. p ++ (b'.' ∷ c)) (commands r) ++ mounted_commands ms

abbrev pub new_router : {S : Type 0} → Router S
new_router = router [] unmounted

-- `Handle` and `HandleFunc`: the newest stands first.
abbrev pub handle : {S : Type 0} → Text → Handler S → Router S → Router S
handle c h (router handlers mounts) = router ((c, h) ∷ handlers) mounts

-- `Mount`
abbrev pub mount_at : {S : Type 0} → Text → Router S → Router S → Router S
mount_at p sub (router handlers mounts) = router handlers (mount p sub mounts)
