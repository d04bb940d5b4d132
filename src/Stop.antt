-- ===== src/Stop.antt =====
-- `br stop` (cmd/bladerunner/stop.go): the wait for the control socket to go, and with --force the
-- signals to the host process. Time is in milliseconds and passes in the sleeps between two looks
-- alone. What is printed is not modelled.
pub mod Honest
pub mod Tests
use bladerunner.Prelude.{
  &&-eq-true, ==_iff, ==_refl, >>-eq-ok, >>=-eq-ok, All, All-append, AtLeast, AtMost, Bool,
  Bool-cases, Check, IsDigit, List, Option, Option-cases, Result, String, Text, [], ap, append-nil,
  append_assoc, arith, atoi, atoi-decimal, codes, contains, cut_byte, cut_prefix, decimal,
  decimal-cons, decimal-digits, drop, drop-length-append, err, fail_if, fail_if-eq-ok, false,
  fun_ext, get_elem?, has_prefix, has_suffix, if◌then◌else◌, in_int64, inl, inr, int_eq, int_eq_iff,
  int_gt, int_gt_iff, int_lt, int_lt_iff, is_empty, is_ok, is_ok_unit, is_space, itoa, leb, length,
  length-append, length-drop, length-take, ltb, map, map_err, min, ne_text_eq, negsuc, none, not,
  ok, ok-injective, parse_digits, parse_nat, pos, refl, replicate, reverse, some, subst, suc, sym,
  take, take-length-append, text_eq, text_eq_iff, text_eq_ne, text_eq_refl, to_lower, to_lower_byte,
  trim_left, trim_right, trim_space, true, zero, ||-eq-false, ℕ, ℤ, ◌%◌, ◌&&◌, ◌*◌, ◌++◌, ◌+◌, ◌-◌,
  ◌/◌, ◌<◌, ◌==◌, ◌>>=◌, ◌>>◌, ◌^◌, ◌||◌, ◌↔◌, ◌∙◌, ◌∷◌, ◌≡◌, ◌≢◌, ◌≤◌, ◌⊎◌,
}

pub data Signal : Type 0 where
  sigterm sigkill : Signal

-- The socket and the host process, by the signals sent, the last one first, and the time.
pub record HostWorld : Type 0 where
  pub socket : List Signal → ℕ → Bool
  pub alive : List Signal → ℕ → Bool

abbrev pub socket_interval : ℕ
socket_interval = 500

abbrev pub process_interval : ℕ
process_interval = 200

-- forceGracePeriod, sigtermGrace and sigkillGrace
abbrev pub force_grace_period : ℕ
force_grace_period = 5000

abbrev pub sigterm_grace : ℕ
sigterm_grace = 3000

abbrev pub sigkill_grace : ℕ
sigkill_grace = 2000

-- How a wait ended, and when.
pub record Waited : Type 0 where
  pub gone : Bool
  pub at : ℕ

-- A loop that looks, sleeps, and looks once more behind the deadline, for `n` sleeps
unfoldable pub wait_gone : (ℕ → Bool) → ℕ → ℕ → ℕ → Waited
wait_gone present interval now zero = record { gone = not (present now); at = now }
wait_gone present interval now (suc n) =
    let rest = wait_gone present interval (now + interval) n in
    if not (present now) then record { gone = true; at = now } else rest

-- The sleeps that begin before the deadline
abbrev pub sleeps : ℕ → ℕ → ℕ
sleeps within interval = (within + (interval - 1)) / interval

unfoldable pub wait_for_socket_gone : HostWorld → List Signal → ℕ → ℕ → Waited
unfolding wait_gone
wait_for_socket_gone w sent now within =
    wait_gone (w.socket sent) socket_interval now (sleeps within socket_interval)

unfoldable pub wait_for_process_gone : HostWorld → List Signal → ℕ → ℕ → Waited
unfolding wait_gone
wait_for_process_gone w sent now within =
    wait_gone (w.alive sent) process_interval now (sleeps within process_interval)

pub data Stopped : Type 0 where
  gracefully : Stopped
  by_signal : Signal → Stopped

pub data StopError : Type 0 where
  not_running timed_out pid_unknown not_terminated : StopError
  stop_refused : Text → StopError

-- What the command returns, the signals it sent, when it ended, and whether it called
-- cleanupSocket.
pub record StopOutcome : Type 0 where
  pub result : Result StopError Stopped
  pub signals : List Signal
  pub at : ℕ
  pub socket_removed : Bool

-- The wait behind the second signal
unfoldable pub after_sigkill : Waited → StopOutcome
after_sigkill t =
    if t.gone
    then record {
      result = ok (by_signal sigkill);
      signals = sigkill ∷ sigterm ∷ [];
      at = t.at;
      socket_removed = true;
    }
    else record {
      result = err not_terminated;
      signals = sigkill ∷ sigterm ∷ [];
      at = t.at;
      socket_removed = false;
    }

-- The wait behind the first signal
unfoldable pub after_sigterm : HostWorld → Waited → StopOutcome
unfolding after_sigkill wait_for_process_gone
after_sigterm w t =
    if t.gone
    then record {
      result = ok (by_signal sigterm);
      signals = sigterm ∷ [];
      at = t.at;
      socket_removed = true;
    }
    else after_sigkill (wait_for_process_gone w (sigkill ∷ sigterm ∷ []) t.at sigkill_grace)

-- forceTerminate
unfoldable pub force_terminate : HostWorld → ℤ → ℕ → StopOutcome
unfolding after_sigterm wait_for_process_gone
force_terminate w pid now =
    if int_gt pid 0
    then after_sigterm w (wait_for_process_gone w (sigterm ∷ []) now sigterm_grace)
    else record { result = err pid_unknown; signals = []; at = now; socket_removed = false }

unfoldable pub pid_or_zero : Option ℤ → ℤ
pid_or_zero none = pos 0
pid_or_zero (some n) = n

-- readHostPID, of what Client.GetConfig gives
unfoldable pub read_host_pid : Option Text → ℤ
unfolding pid_or_zero atoi
read_host_pid none = pos 0
read_host_pid (some v) = pid_or_zero (atoi v)

-- The graceful wait, in milliseconds, of a number of seconds that is no overflow as a duration; a
-- negative one has no sleeps.
unfoldable pub graceful_wait : ℤ → Bool → ℕ
graceful_wait (negsuc _) force = 0
graceful_wait (pos seconds) force =
    if force && ltb force_grace_period (seconds * 1000) then force_grace_period else seconds * 1000

unfoldable pub after_grace : HostWorld → Bool → ℤ → Waited → StopOutcome
unfolding force_terminate
after_grace w force pid t =
    if t.gone
    then record { result = ok gracefully; signals = []; at = t.at; socket_removed = false }
    else if not force
    then record { result = err timed_out; signals = []; at = t.at; socket_removed = false }
    else force_terminate w pid t.at

unfoldable pub after_request : HostWorld → Check Text → Bool → ℤ → ℕ → StopOutcome
unfolding after_grace wait_for_socket_gone
after_request w (err e) false pid wait = record {
  result = err (stop_refused e);
  signals = [];
  at = 0;
  socket_removed = false;
}
after_request w (err e) true pid wait = after_grace w true pid (wait_for_socket_gone w [] 0 wait)
after_request w (ok _) force pid wait = after_grace w force pid (wait_for_socket_gone w [] 0 wait)

-- runStop: whether the server runs, its pid key, what StopVM returns, and the flags
unfoldable pub run_stop : HostWorld → Bool → Option Text → Check Text → ℤ → Bool → StopOutcome
unfolding after_request read_host_pid graceful_wait
run_stop w running pid_value request timeout force =
    if not running
    then record { result = err not_running; signals = []; at = 0; socket_removed = false }
    else after_request w request force (read_host_pid pid_value) (graceful_wait timeout force)
