-- ===== src/Control/Tests.antt =====
-- Concrete commands, messages and servers, and the theorems at them.
use bladerunner.Prelude.{
  List, Text, [], arith, atoi, codes, cut_byte, cut_prefix, decimal, if◌then◌else◌, map, none, ok,
  pos, refl, some, text_eq, trim_space, true, ◌&&◌, ◌++◌, ◌↔◌, ◌∷◌, ◌≡◌,
}
use bladerunner.Config.Tests.{sample_config}
use bladerunner.Control.{Message, reply, resp_pong, status_stopped}
use bladerunner.Control.Wire.{error_prefix, body, encode, decode}
use bladerunner.Control.Wire.RoundTrip.{received, decode-encode}
use bladerunner.Control.Request.{from_words, new_request, build_command, join_space, arg_of}
use bladerunner.Control.Request.Laws.{word}
use bladerunner.Control.Request.Positions.{IsPositional, new_request-IsPositional}
use bladerunner.Control.Router.{dispatch, find_handler}
use bladerunner.Control.Local.{
  Call, call_stop, call_status, new_local_controller, perform_all, asks_stop, status, stop,
}
use bladerunner.Control.Local.Once.{perform_all-once}
use bladerunner.Control.ConfigHandler.{
  config_entries, find_entry, sort_texts, new_config_router, key_base_image_url,
}
use bladerunner.Control.ConfigHandler.ReadOnly.{Outcome, dispatch-set_only}
use bladerunner.Control.Listener.{
  Server, handle_connection, server_router, register_controller, send_command, set_config,
  get_config,
}
use bladerunner.Control.KeyRegistry.{config_key_registry, find_meta}
use bladerunner.Control.KeyRegistry.Entries.{Agree, find_meta-Agree}
use bladerunner.Control.Listener.{unsupported}
use bladerunner.Control.Listener.Newer.{handle_connection-newer}
use bladerunner.Control.Listener.Gate.{Allowed, handle_connection-Allowed}
use bladerunner.Control.Listener.Session.{send_command-dispatch, word-no_newline}
use bladerunner.Control.Listener.SetGet.{with_url, get_config-set_config}
use bladerunner.Control.Client.{stop_vm, get_status}
use bladerunner.Control.Client.Views.{get_status-stop_vm}

abbrev sample_server : Server
sample_server = record { controller = new_local_controller true; config = sample_config }

abbrev pong_message : Message
pong_message = record { version = pos 1; command = []; response = resp_pong; error = [] }

pong-body : body pong_message ≡ some resp_pong
unfolding body
pong-body = refl

pong_reply-body : body (reply resp_pong) ≡ some resp_pong
unfolding body
pong_reply-body = refl

pong-plain : cut_prefix resp_pong error_prefix ≡ none
unfolding cut_prefix
pong-plain = refl

decode-encode_example :
    (bytes : Text) × (encode pong_message ≡ some bytes)
    × (decode (bytes ++ codes "v1 ok") ≡ some (received 1 pong_message resp_pong))
decode-encode_example =
    decode-encode 1 pong_message resp_pong (codes "v1 ok") (omega arith) (omega arith) refl
      pong-body (word-no_newline resp_pong (word resp_pong refl).1) refl (λ e. pong-plain)

abbrev two_calls : List Call
two_calls = call_stop ∷ call_status ∷ call_stop ∷ []

perform_all-once_example :
    ((perform_all two_calls (new_local_controller true)).stop_calls
      ≡ (if true && asks_stop two_calls then 1 else 0))
    × ((status true (perform_all two_calls (new_local_controller true)) ≡ status_stopped)
        ↔ (asks_stop two_calls ≡ true))
perform_all-once_example = perform_all-once two_calls true true

dispatch-set_only_example :
    Outcome (new_request (codes "set base-image-url https://host/i.raw")) sample_config (
      dispatch
        (new_config_router 42)
        (new_request (codes "set base-image-url https://host/i.raw"))
        sample_config)
dispatch-set_only_example =
    dispatch-set_only 42 (new_request (codes "set base-image-url https://host/i.raw")) sample_config

handle_connection-Allowed_example :
    Allowed sample_server
      (handle_connection (server_router true 42) (codes "v1 stop\n") sample_server).1
handle_connection-Allowed_example =
    handle_connection-Allowed true 42 (codes "v1 stop\n") sample_server

new_request-IsPositional_example :
    IsPositional
      (codes "eject")
      (codes "60" ∷ codes "force" ∷ [])
      (new_request (build_command (codes "eject") (codes "60" ∷ codes "force" ∷ [])))
new_request-IsPositional_example =
    new_request-IsPositional (codes "eject") (codes "60" ∷ codes "force" ∷ [])
      (word (codes "eject") refl) (word (codes "60") refl, (word (codes "force") refl, tt))
      ((refl, (refl, tt)), ((refl, (refl, (refl, (refl, (refl, tt))))), tt))

ping-plain : cut_prefix (build_command (codes "ping") []) error_prefix ≡ none
unfolding build_command join_space cut_prefix
ping-plain = refl

ping-dispatched :
    dispatch
      (server_router true 42)
      (from_words (build_command (codes "ping") []) (codes "ping" ∷ []))
      sample_server
    ≡ (reply resp_pong, sample_server)
unfolding dispatch server_router register_controller find_handler from_words text_eq
ping-dispatched = refl

send_command-dispatch_example :
    send_command
      (some (handle_connection (server_router true 42)))
      (build_command (codes "ping") [])
      sample_server
    ≡ (ok (received 1 (reply resp_pong) resp_pong), sample_server)
send_command-dispatch_example =
    send_command-dispatch (server_router true 42) (codes "ping") [] sample_server sample_server
      (reply resp_pong) resp_pong (word (codes "ping") refl) tt ping-plain ping-dispatched
      pong_reply-body (word-no_newline resp_pong (word resp_pong refl).1) refl (λ e. pong-plain)

abbrev new_url : Text
new_url = codes "https://host/i.raw"

new_url-positional : arg_of 1 new_url ≡ (decimal 1, new_url)
unfolding arg_of cut_byte
new_url-positional = refl

get_config-set_config_example :
    (set_config
        (some (handle_connection (server_router true 42)))
        key_base_image_url
        new_url
        sample_server
      ≡ (ok tt, with_url new_url sample_server))
    × (get_config
          (some (handle_connection (server_router true 42)))
          key_base_image_url
          (with_url new_url sample_server)
        ≡ (ok new_url, with_url new_url sample_server))
get_config-set_config_example =
    get_config-set_config true 42 new_url sample_server (word new_url refl) new_url-positional

get_status-stop_vm_example :
    (stop_vm (some (handle_connection (server_router true 42))) sample_server
      ≡ (ok tt, record sample_server { controller = stop sample_server.controller }))
    × (get_status
          (some (handle_connection (server_router true 42)))
          (record sample_server { controller = stop sample_server.controller })
        ≡ (ok status_stopped, record sample_server { controller = stop sample_server.controller }))
get_status-stop_vm_example = get_status-stop_vm true 42 sample_server

find_meta-Agree_example :
    Agree
      (find_meta (codes "cpus") config_key_registry)
      (find_entry (codes "cpus") (config_entries 42))
    × (sort_texts (map (λ e. e.key) (config_entries 42)) ≡ map (λ m. m.key) config_key_registry)
find_meta-Agree_example = find_meta-Agree 42 (codes "cpus")

abbrev newer_message : Message
newer_message = record {
  version = pos 2;
  command = codes "ping";
  response = codes "ping";
  error = [];
}

newer-decoded : decode (codes "v2 ping\n") ≡ some newer_message
unfolding decode cut_byte cut_prefix trim_space atoi
newer-decoded = refl

handle_connection-newer_example :
    (bytes : Text) × (handle_connection (server_router true 42) (codes "v2 ping\n") sample_server
      ≡ (bytes, sample_server))
    × (decode bytes
        ≡ some (record {
          version = pos 1;
          command = [];
          response = [];
          error = (unsupported (pos 2)).error;
        }))
handle_connection-newer_example =
    handle_connection-newer (server_router true 42) (codes "v2 ping\n") newer_message 2
      sample_server newer-decoded refl (omega arith)
