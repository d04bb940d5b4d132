-- ===== src/Control/Client.antt =====
-- The commands of the client (internal/control/client.go) beside those of the configuration.
-- `isSocketNotAvailable` holds for a connection that cannot be dialled.
pub mod Views
use bladerunner.Prelude.{
  &&-eq-true, ==_iff, ==_refl, >>-eq-ok, >>=-eq-ok, All, All-append, AtLeast, AtMost, Bool,
  Bool-cases, Check, IsDigit, List, Option, Option-cases, Result, String, Text, [], ap, append-nil,
  append_assoc, arith, atoi, atoi-decimal, codes, contains, cut_byte, cut_prefix, decimal,
  decimal-cons, decimal-digits, drop, drop-length-append, err, fail_if, fail_if-eq-ok, false,
  fun_ext, get_elem?, has_prefix, has_suffix, if◌then◌else◌, in_int64, inl, inr, int_eq, int_eq_iff,
  int_gt, int_gt_iff, int_lt, int_lt_iff, is_empty, is_ok, is_ok_unit, is_space, itoa, leb, length,
  length-append, length-drop, length-take, ltb, map, map_err, min, ne_text_eq, negsuc, none, not,
  ok, ok-injective, parse_digits, parse_nat, pos, refl, replicate, reverse, some, subst, suc, sym,
  take, take-length-append, text_eq, text_eq_iff, text_eq_ne, text_eq_refl, to_lower, to_lower_byte,
  trim_left, trim_right, trim_space, true, zero, ||-eq-false, ℕ, ℤ, ◌%◌, ◌&&◌, ◌*◌, ◌++◌, ◌+◌, ◌-◌,
  ◌/◌, ◌<◌, ◌==◌, ◌>>=◌, ◌>>◌, ◌^◌, ◌||◌, ◌↔◌, ◌∙◌, ◌∷◌, ◌≡◌, ◌≢◌, ◌≤◌, ◌⊎◌,
}
use bladerunner.Control.{Message, resp_ok, status_stopped}
use bladerunner.Control.Request.{fields, build_command}
use bladerunner.Control.Listener.{Conn, ClientError, dial_failed, send_command}

pub data CallError : Type 0 where
  not_running : CallError
  transport : ClientError → CallError
  server_error unexpected_response : Text → CallError

-- `resp.Error`, or the body of the reply
abbrev pub response_of : Message → Result CallError Text
response_of m = if not (is_empty m.error) then err (server_error m.error) else ok m.response

abbrev pub call : {S : Type 0} → Conn S → Text → S → Result CallError Text × S
call conn cmd s =
    let (resp, t) = send_command conn cmd s in (map_err transport resp >>= response_of, t)

-- PingContext and IsRunning
unfoldable pub ping : {S : Type 0} → Conn S → S → Check CallError × S
unfolding send_command
ping conn s = let (r, t) = call conn (codes "ping") s in (r >>= (λ _. ok tt), t)

unfoldable pub is_running : {S : Type 0} → Conn S → S → Bool
unfolding ping
is_running conn s = is_ok (ping conn s).0

-- A socket that is not available has its own meaning in StopContext and StatusContext.
abbrev pub unavailable : ClientError → Bool
unavailable dial_failed = true
unavailable _ = false

abbrev pub stop_reply : Result ClientError Message → Check CallError
stop_reply (err e) = if unavailable e then err not_running else err (transport e)
stop_reply (ok m) = do r ← response_of m; fail_if (not (text_eq r resp_ok)) (unexpected_response r)

-- StopContext
unfoldable pub stop_vm : {S : Type 0} → Conn S → S → Check CallError × S
unfolding send_command
stop_vm conn s = let (resp, t) = send_command conn (codes "stop") s in (stop_reply resp, t)

abbrev pub status_reply : Result ClientError Message → Result CallError Text
status_reply (err e) = if unavailable e then ok status_stopped else err (transport e)
status_reply (ok m) = response_of m

-- StatusContext
unfoldable pub get_status : {S : Type 0} → Conn S → S → Result CallError Text × S
unfolding send_command
get_status conn s = let (resp, t) = send_command conn (codes "status") s in (status_reply resp, t)

-- ServerVersion
unfoldable pub server_version : {S : Type 0} → Conn S → S → Result CallError Text × S
unfolding send_command
server_version conn s = call conn (codes "version") s

-- SaveState
unfoldable pub save_state : {S : Type 0} → Conn S → Bool → S → Result CallError Text × S
unfolding send_command build_command
save_state conn keep_paused s =
    call conn
      (if keep_paused then build_command (codes "save") (codes "pause" ∷ []) else codes "save") s

-- Eject
unfoldable pub eject : {S : Type 0} → Conn S → Bool → ℤ → S → Check CallError × S
unfolding send_command build_command itoa
eject conn force timeout_seconds s =
    let words = itoa timeout_seconds ∷ (if force then codes "force" ∷ [] else []) in
    let (r, t) = call conn (build_command (codes "eject") words) s in (r >>= (λ _. ok tt), t)

-- GetConfigKeys
unfoldable pub get_config_keys : {S : Type 0} → Conn S → S → Result CallError (List Text) × S
unfolding send_command fields
get_config_keys conn s =
    let (r, t) = call conn (codes "config.keys") s in (r >>= (λ body. ok (fields body)), t)
