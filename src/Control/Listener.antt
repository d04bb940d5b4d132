-- ===== src/Control/Listener.antt =====
-- The server's side of a connection (internal/control/listener.go, the handlers of
-- Router.RegisterController, and the mount of cmd/bladerunner/start.go), and the client's
-- (internal/control/client.go). A connection is the bytes that the client sends and the bytes that
-- the server answers; deadlines are not modelled.
pub mod Gate
pub mod Session
pub mod SetGet
pub mod Newer
use bladerunner.Prelude.{
  &&-eq-true, ==_iff, ==_refl, >>-eq-ok, >>=-eq-ok, All, All-append, AtLeast, AtMost, Bool,
  Bool-cases, Check, IsDigit, List, Option, Option-cases, Result, String, Text, [], ap, append-nil,
  append_assoc, arith, atoi, atoi-decimal, codes, contains, cut_byte, cut_prefix, decimal,
  decimal-cons, decimal-digits, drop, drop-length-append, err, fail_if, fail_if-eq-ok, false,
  fun_ext, get_elem?, has_prefix, has_suffix, if◌then◌else◌, in_int64, inl, inr, int_eq, int_eq_iff,
  int_gt, int_gt_iff, int_lt, int_lt_iff, is_empty, is_ok, is_ok_unit, is_space, itoa, leb, length,
  length-append, length-drop, length-take, ltb, map, map_err, min, ne_text_eq, negsuc, none, not,
  ok, ok-injective, parse_digits, parse_nat, pos, refl, replicate, reverse, some, subst, suc, sym,
  take, take-length-append, text_eq, text_eq_iff, text_eq_ne, text_eq_refl, to_lower, to_lower_byte,
  trim_left, trim_right, trim_space, true, zero, ||-eq-false, ℕ, ℤ, ◌%◌, ◌&&◌, ◌*◌, ◌++◌, ◌+◌, ◌-◌,
  ◌/◌, ◌<◌, ◌==◌, ◌>>=◌, ◌>>◌, ◌^◌, ◌||◌, ◌↔◌, ◌∙◌, ◌∷◌, ◌≡◌, ◌≢◌, ◌≤◌, ◌⊎◌,
}
use bladerunner.Config.{Config}
use bladerunner.Control.{Message, reply, failure, protocol_version, resp_ok, resp_pong}
use bladerunner.Control.Wire.{encode, decode}
use bladerunner.Control.Request.{Request, new_request, build_command}
use bladerunner.Control.Router.{
  Handler, Router, router, unmounted, handle, mount_at, new_router, dispatch,
}
use bladerunner.Control.Local.{LocalController, status, stop}
use bladerunner.Control.ConfigHandler.{config_handlers}

abbrev pub with_version : ℤ → Message → Message
with_version v m = record m { version = v }

-- A reply that cannot be encoded is not written.
abbrev pub written : Option Text → Text
written none = []
written (some bytes) = bytes

abbrev pub unsupported : ℤ → Message
unsupported v = failure (
    codes "unsupported protocol version "
    ++ (itoa v ++ (codes " (server supports up to " ++ (itoa protocol_version ++ codes ")"))))

unfoldable pub answer : {S : Type 0} → Router S → Message → S → Message × S
unfolding dispatch new_request
answer r m s =
    let (resp, t) = dispatch r (new_request m.command) s in
    if int_gt m.version 1
    then (with_version protocol_version (unsupported m.version), s)
    else (with_version protocol_version resp, t)

unfoldable pub respond : {S : Type 0} → Router S → Option Message → S → Text × S
unfolding answer encode
respond r none s = ([], s)
respond r (some m) s = let (resp, t) = answer r m s in (written (encode resp), t)

-- handleConnection
unfoldable pub handle_connection : {S : Type 0} → Router S → Text → S → Text × S
unfolding respond decode
handle_connection r stream s = respond r (decode stream) s

-- What the process that owns the VM shares with its handlers.
pub record Server : Type 0 where
  pub controller : LocalController
  pub config : Config

-- RegisterController with a `LocalController`; `answers` is what the probe finds.
unfoldable pub register_controller : Bool → Router Server → Router Server
unfolding status stop
register_controller answers r =
    handle (codes "stop") (λ req s. (reply resp_ok, record s { controller = stop s.controller }))
      (handle (codes "status") (λ req s. (reply (status answers s.controller), s))
        (handle (codes "ping") (λ req s. (reply resp_pong, s)) r))

abbrev pub on_config : Handler Config → Handler Server
on_config h req s = let (m, cfg) = h req s.config in (m, record s { config = cfg })

-- The handlers of the configuration, on the state of the server.
abbrev pub on_configs : List (Text × Handler Config) → List (Text × Handler Server)
on_configs [] = []
on_configs ((c, h) ∷ hs) = (c, on_config h) ∷ on_configs hs

unfoldable pub server_router : Bool → ℕ → Router Server
unfolding register_controller config_handlers
server_router answers pid =
    mount_at (codes "config") (router (on_configs (config_handlers pid)) unmounted)
      (register_controller answers new_router)

pub data ClientError : Type 0 where
  dial_failed send_failed read_failed : ClientError
  newer_server : ℤ → ClientError
  config_error : Text → ClientError

-- The connection, if the socket can be dialled: what the server answers, and its state after it.
abbrev pub Conn : Type 0 → Type 0
Conn S = Option (Text → S → Text × S)

unfoldable pub read_reply : Option Message → Result ClientError Message
read_reply none = err read_failed
read_reply (some m) = if int_gt m.version 1 then err (newer_server m.version) else ok m

unfoldable pub exchange :
    {S : Type 0} → (Text → S → Text × S) → Option Text → S → Result ClientError Message × S
unfolding read_reply decode
exchange conn none s = (err send_failed, s)
exchange conn (some bytes) s = let (back, t) = conn bytes s in (read_reply (decode back), t)

-- Client.sendCommand
unfoldable pub send_command : {S : Type 0} → Conn S → Text → S → Result ClientError Message × S
unfolding exchange encode
send_command none cmd s = (err dial_failed, s)
send_command (some conn) cmd s =
    exchange conn
      (encode (record { version = protocol_version; command = cmd; response = []; error = [] })) s

unfoldable pub config_reply : Message → Result ClientError Text
config_reply m = if not (is_empty m.error) then err (config_error m.error) else ok m.response

-- Client.GetConfig
unfoldable pub get_config : {S : Type 0} → Conn S → Text → S → Result ClientError Text × S
unfolding send_command config_reply build_command
get_config conn key s =
    let (resp, t) = send_command conn (build_command (codes "config.get") (key ∷ [])) s in
    (resp >>= config_reply, t)

-- Client.SetConfig
unfoldable pub set_config : {S : Type 0} → Conn S → Text → Text → S → Check ClientError × S
unfolding send_command config_reply build_command
set_config conn key value s =
    let (resp, t) = send_command conn (build_command (codes "config.set") (key ∷ value ∷ [])) s in
    (resp >>= (λ m. config_reply m >>= (λ _. ok tt)), t)
