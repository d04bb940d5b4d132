-- ===== src/Control/Local.antt =====
-- `LocalController` (internal/control/local.go). The calls of the stop function are counted.
pub mod Once
use bladerunner.Prelude.{
  &&-eq-true, ==_iff, ==_refl, >>-eq-ok, >>=-eq-ok, All, All-append, AtLeast, AtMost, Bool,
  Bool-cases, Check, IsDigit, List, Option, Option-cases, Result, String, Text, [], ap, append-nil,
  append_assoc, arith, atoi, atoi-decimal, codes, contains, cut_byte, cut_prefix, decimal,
  decimal-cons, decimal-digits, drop, drop-length-append, err, fail_if, fail_if-eq-ok, false,
  fun_ext, get_elem?, has_prefix, has_suffix, if◌then◌else◌, in_int64, inl, inr, int_eq, int_eq_iff,
  int_gt, int_gt_iff, int_lt, int_lt_iff, is_empty, is_ok, is_ok_unit, is_space, itoa, leb, length,
  length-append, length-drop, length-take, ltb, map, map_err, min, ne_text_eq, negsuc, none, not,
  ok, ok-injective, parse_digits, parse_nat, pos, refl, replicate, reverse, some, subst, suc, sym,
  take, take-length-append, text_eq, text_eq_iff, text_eq_ne, text_eq_refl, to_lower, to_lower_byte,
  trim_left, trim_right, trim_space, true, zero, ||-eq-false, ℕ, ℤ, ◌%◌, ◌&&◌, ◌*◌, ◌++◌, ◌+◌, ◌-◌,
  ◌/◌, ◌<◌, ◌==◌, ◌>>=◌, ◌>>◌, ◌^◌, ◌||◌, ◌↔◌, ◌∙◌, ◌∷◌, ◌≡◌, ◌≢◌, ◌≤◌, ◌⊎◌,
}
use bladerunner.Control.{status_running, status_stopped, status_unreachable}

-- `has_stop` is `stopFunc != nil`, `has_probe` is `probe != nil`.
pub record LocalController : Type 0 where
  pub has_stop : Bool
  pub stopped : Bool
  pub has_probe : Bool
  pub stop_calls : ℕ

unfoldable pub new_local_controller : Bool → LocalController
new_local_controller has_stop = record {
  has_stop = has_stop;
  stopped = false;
  has_probe = false;
  stop_calls = 0;
}

unfoldable pub set_probe : Bool → LocalController → LocalController
set_probe has_probe c = record {
  has_stop = c.has_stop;
  stopped = c.stopped;
  has_probe = has_probe;
  stop_calls = c.stop_calls;
}

-- `answers` is what the probe finds: the guest answers.
unfoldable pub status : Bool → LocalController → Text
status answers c =
    if c.stopped
    then status_stopped
    else if c.has_probe && not answers
    then status_unreachable
    else status_running

unfoldable pub stop : LocalController → LocalController
stop c = if c.stopped then c else record {
  has_stop = c.has_stop;
  stopped = true;
  has_probe = c.has_probe;
  stop_calls = if c.has_stop then suc c.stop_calls else c.stop_calls;
}

-- Calls of several clients, each under the mutex.
pub data Call : Type 0 where
  call_stop : Call
  call_set_probe : Bool → Call
  call_status : Call

unfoldable pub perform : Call → LocalController → LocalController
unfolding stop set_probe
perform call_stop c = stop c
perform (call_set_probe p) c = set_probe p c
perform call_status c = c

unfoldable pub perform_all : List Call → LocalController → LocalController
unfolding perform
perform_all [] c = c
perform_all (k ∷ ks) c = perform_all ks (perform k c)

unfoldable pub asks_stop : List Call → Bool
asks_stop [] = false
asks_stop (call_stop ∷ ks) = true
asks_stop (call_set_probe _ ∷ ks) = asks_stop ks
asks_stop (call_status ∷ ks) = asks_stop ks
