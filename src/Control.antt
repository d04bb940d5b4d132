-- ===== src/Control.antt =====
-- internal/control: the control plane of a running VM. The protocol, its words, and its parts.
pub mod Wire
pub mod Request
pub mod Router
pub mod Local
pub mod ConfigHandler
pub mod Listener
pub mod Client
pub mod KeyRegistry
pub mod Tests
use bladerunner.Prelude.{
  &&-eq-true, ==_iff, ==_refl, >>-eq-ok, >>=-eq-ok, All, All-append, AtLeast, AtMost, Bool,
  Bool-cases, Check, IsDigit, List, Option, Option-cases, Result, String, Text, [], ap, append-nil,
  append_assoc, arith, atoi, atoi-decimal, codes, contains, cut_byte, cut_prefix, decimal,
  decimal-cons, decimal-digits, drop, drop-length-append, err, fail_if, fail_if-eq-ok, false,
  fun_ext, get_elem?, has_prefix, has_suffix, if◌then◌else◌, in_int64, inl, inr, int_eq, int_eq_iff,
  int_gt, int_gt_iff, int_lt, int_lt_iff, is_empty, is_ok, is_ok_unit, is_space, itoa, leb, length,
  length-append, length-drop, length-take, ltb, map, map_err, min, ne_text_eq, negsuc, none, not,
  ok, ok-injective, parse_digits, parse_nat, pos, refl, replicate, reverse, some, subst, suc, sym,
  take, take-length-append, text_eq, text_eq_iff, text_eq_ne, text_eq_refl, to_lower, to_lower_byte,
  trim_left, trim_right, trim_space, true, zero, ||-eq-false, ℕ, ℤ, ◌%◌, ◌&&◌, ◌*◌, ◌++◌, ◌+◌, ◌-◌,
  ◌/◌, ◌<◌, ◌==◌, ◌>>=◌, ◌>>◌, ◌^◌, ◌||◌, ◌↔◌, ◌∙◌, ◌∷◌, ◌≡◌, ◌≢◌, ◌≤◌, ◌⊎◌,
}

-- `Message` (wire.go)
pub record Message : Type 0 where
  pub version : ℤ
  pub command : Text
  pub response : Text
  pub error : Text

abbrev pub failure : Text → Message
failure e = record { version = pos 0; command = []; response = []; error = e }

abbrev pub reply : Text → Message
reply r = record { version = pos 0; command = []; response = r; error = [] }

-- ProtocolVersion
abbrev pub protocol_version : ℤ
protocol_version = pos 1

abbrev pub resp_ok : Text
resp_ok = codes "ok"

abbrev pub resp_pong : Text
resp_pong = codes "pong"

abbrev pub status_running : Text
status_running = codes "running"

abbrev pub status_stopped : Text
status_stopped = codes "stopped"

abbrev pub status_unreachable : Text
status_unreachable = codes "unreachable"
