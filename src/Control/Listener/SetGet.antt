-- ===== src/Control/Listener/SetGet.antt =====
-- A client that sets the base image's URL and then gets it.
use bladerunner.Prelude.{
  All, Bool, Bool-cases, Result, Text, [], ap, arith, codes, cut_byte, cut_prefix, decimal, false,
  inl, inr, is_empty, is_space, none, ok, refl, some, text_eq, ℕ, ◌++◌, ◌>>=◌, ◌∷◌, ◌≡◌,
}
use bladerunner.Control.{Message, reply, resp_ok}
use bladerunner.Control.Request.{from_words, arg_of, add_args, get_arg, join_space, build_command}
use bladerunner.Control.Request.Laws.{IsWord, word}
use bladerunner.Control.Wire.{body, error_prefix}
use bladerunner.Control.Router.{dispatch, find_handler, namespace}
use bladerunner.Control.ConfigHandler.{
  set_base_image_url, key_base_image_url, find_entry, get_entry, handle_get, set_result, set_with,
  set_entry, handle_set, config_handlers,
}
use bladerunner.Control.Listener.{
  Server, handle_connection, server_router, get_config, set_config, config_reply, ClientError,
}
use bladerunner.Control.Listener.Session.{send_command-dispatch, word-no_newline, word-ends_in_word}

abbrev pub with_url : Text → Server → Server
with_url v s = record s { config = record s.config { base_image_url = v } }

dispatch-set :
    (answers : Bool) (pid : ℕ) (v raw : Text) (s : Server)
    → is_empty v ≡ false
    → arg_of 1 v ≡ (decimal 1, v)
    → dispatch
        (server_router answers pid)
        (from_words raw (codes "config.set" ∷ key_base_image_url ∷ v ∷ []))
        s
      ≡ (reply resp_ok, with_url v s)
unfolding dispatch server_router from_words add_args handle_set set_entry set_with config_handlers
    find_handler namespace cut_byte text_eq get_arg decimal find_entry set_result set_base_image_url
dispatch-set answers pid v raw s h a = rw a (rw h refl)

dispatch-get :
    (answers : Bool) (pid : ℕ) (raw : Text) (s : Server)
    → dispatch
        (server_router answers pid)
        (from_words raw (codes "config.get" ∷ key_base_image_url ∷ []))
        s
      ≡ (reply s.config.base_image_url, s)
unfolding dispatch server_router from_words add_args handle_get get_entry config_handlers
    find_handler namespace cut_byte text_eq get_arg decimal find_entry arg_of
dispatch-get answers pid raw s = elim (Bool-cases (is_empty s.config.base_image_url)) [
  | inl e ↦ rw e refl
  | inr e ↦ rw e refl
]

pub cut_prefix-space :
    (s q : Text) → All (λ c. is_space c ≡ false) s → cut_prefix s (q ++ (b' ' ∷ [])) ≡ none
unfolding cut_prefix
cut_prefix-space [] [] h = refl
cut_prefix-space [] (y ∷ q) h = refl
cut_prefix-space (x ∷ s) [] h = ground (arith, h.0)
cut_prefix-space (x ∷ s) (y ∷ q) h = ground (arith, cut_prefix-space s q h.1)

pub body-reply : (v : Text) → is_empty v ≡ false → body (reply v) ≡ some v
unfolding body
body-reply v h = rw h refl

set_plain :
    (v : Text)
    → cut_prefix (build_command (codes "config.set") (key_base_image_url ∷ v ∷ [])) error_prefix
      ≡ none
unfolding build_command join_space cut_prefix
set_plain v = refl

get_plain :
    cut_prefix (build_command (codes "config.get") (key_base_image_url ∷ [])) error_prefix ≡ none
unfolding build_command join_space cut_prefix
get_plain = refl

ok_plain : cut_prefix resp_ok error_prefix ≡ none
unfolding cut_prefix
ok_plain = refl

-- On a running VM, a client sets the base image's URL to a word that is not "key=value" and
-- then asks for it: both calls succeed, the second returns the word,
-- and nothing else of the server's state has changed.
pub get_config-set_config :
    (answers : Bool) (pid : ℕ) (v : Text) (s : Server)
    → IsWord v
    → arg_of 1 v ≡ (decimal 1, v)
    → (set_config (some (handle_connection (server_router answers pid))) key_base_image_url v s
        ≡ (ok tt, with_url v s))
      × (get_config
            (some (handle_connection (server_router answers pid)))
            key_base_image_url
            (with_url v s)
          ≡ (ok v, with_url v s))
unfolding set_config get_config config_reply
get_config-set_config answers pid v s w a = (
  ap
      (λ (x : Result ClientError Message × Server).
        (x.0 >>= (λ m. config_reply m >>= (λ _. ok tt)), x.1))
      (send_command-dispatch (server_router answers pid) (codes "config.set")
        (key_base_image_url ∷ v ∷ []) s (with_url v s) (reply resp_ok) resp_ok
        (word (codes "config.set") refl) (word key_base_image_url refl, (w, tt)) (set_plain v)
        (dispatch-set answers pid v _ s w.0 a) (body-reply resp_ok refl)
        (word-no_newline resp_ok (word resp_ok refl).1) refl (λ e. ok_plain)),
  ap (λ (x : Result ClientError Message × Server). (x.0 >>= config_reply, x.1))
      (send_command-dispatch (server_router answers pid) (codes "config.get")
        (key_base_image_url ∷ []) (with_url v s) (with_url v s) (reply v) v
        (word (codes "config.get") refl) (word key_base_image_url refl, tt) get_plain
        (dispatch-get answers pid _ (with_url v s)) (body-reply v w.0) (word-no_newline v w.1)
        (word-ends_in_word v w) (λ e. cut_prefix-space v (codes "error:") w.1)),
)
