-- ===== src/Control/Client/Views.antt =====
-- What a client learns of the VM and does to it, against the server's own state.
use bladerunner.Prelude.{
  Bool, Bool-cases, Result, Text, [], ap, arith, codes, cut_prefix, inl, inr, none, not, ok, refl,
  some, text_eq, ℕ, ◌&&◌, ◌∙◌, ◌∷◌, ◌≡◌,
}
use bladerunner.Control.{
  Message, reply, resp_ok, status_running, status_stopped, status_unreachable,
}
use bladerunner.Control.Wire.{error_prefix}
use bladerunner.Control.Wire.RoundTrip.{received}
use bladerunner.Control.Request.{from_words, build_command, join_space}
use bladerunner.Control.Request.Laws.{IsWord, word}
use bladerunner.Control.Router.{dispatch, find_handler}
use bladerunner.Control.Local.{LocalController, status, stop}
use bladerunner.Control.Listener.{
  Server, ClientError, handle_connection, register_controller, send_command, server_router,
}
use bladerunner.Control.Listener.Session.{send_command-dispatch, word-no_newline, word-ends_in_word}
use bladerunner.Control.Listener.SetGet.{cut_prefix-space, body-reply}
use bladerunner.Control.Client.{stop_vm, stop_reply, get_status, status_reply}

-- The server's router on a command without arguments.
abbrev Simple : Text → Text → Server → Message → Server → Bool → ℕ → Type 0
Simple raw cmd s m t answers pid =
    dispatch (server_router answers pid) (from_words raw (cmd ∷ [])) s ≡ (m, t)

dispatch-stop :
    (raw : Text) (s : Server) (answers : Bool) (pid : ℕ)
    → Simple raw
        (codes "stop")
        s
        (reply resp_ok)
        (record s { controller = stop s.controller })
        answers
        pid
unfolding dispatch server_router register_controller find_handler from_words text_eq
dispatch-stop raw s answers pid = refl

dispatch-status :
    (raw : Text) (s : Server) (answers : Bool) (pid : ℕ)
    → Simple raw (codes "status") s (reply (status answers s.controller)) s answers pid
unfolding dispatch server_router register_controller find_handler from_words text_eq
dispatch-status raw s answers pid = refl

plain_word : (cmd : Text) → IsWord cmd → cut_prefix (build_command cmd []) error_prefix ≡ none
unfolding build_command join_space
plain_word cmd w = cut_prefix-space cmd (codes "error:") w.1

-- A command that is one word, answered by one word.
send_word :
    (cmd answer_text : Text) (s t : Server) (answers : Bool) (pid : ℕ)
    → IsWord cmd
    → IsWord answer_text
    → Simple (build_command cmd []) cmd s (reply answer_text) t answers pid
    → send_command (some (handle_connection (server_router answers pid))) (build_command cmd []) s
      ≡ (ok (received 1 (reply answer_text) answer_text), t)
send_word cmd answer_text s t answers pid w v d =
    send_command-dispatch (server_router answers pid) cmd [] s t (reply answer_text) answer_text w
      tt (plain_word cmd w) d (body-reply answer_text v.0) (word-no_newline answer_text v.1)
      (word-ends_in_word answer_text v) (λ e. cut_prefix-space answer_text (codes "error:") v.1)

status-IsWord : (answers : Bool) (c : LocalController) → IsWord (status answers c)
unfolding status
status-IsWord answers c = elim (Bool-cases c.stopped) [
  | inl e ↦ rw e (word status_stopped refl)
  | inr e ↦ elim (Bool-cases (c.has_probe && not answers)) [
    | inl p ↦ rw e (rw p (word status_unreachable refl))
    | inr p ↦ rw e (rw p (word status_running refl))
  ]
]

send_word_plain :
    (cmd answer_text : Text) (s t : Server) (answers : Bool) (pid : ℕ)
    → IsWord cmd
    → IsWord answer_text
    → Simple cmd cmd s (reply answer_text) t answers pid
    → send_command (some (handle_connection (server_router answers pid))) cmd s
      ≡ (ok (received 1 (reply answer_text) answer_text), t)
unfolding build_command join_space
send_word_plain cmd answer_text s t answers pid w v d =
    send_word cmd answer_text s t answers pid w v d

status-stop : (answers : Bool) (c : LocalController) → status answers (stop c) ≡ status_stopped
unfolding status stop
status-stop answers c = ground arith

-- A client's stop over the socket succeeds and stops the controller, and the status that a client
-- asks for afterwards is "stopped", whatever the guest's probe would find; the configuration of the
-- server does not change.
pub get_status-stop_vm :
    (answers : Bool) (pid : ℕ) (s : Server)
    → (stop_vm (some (handle_connection (server_router answers pid))) s
        ≡ (ok tt, record s { controller = stop s.controller }))
      × (get_status
            (some (handle_connection (server_router answers pid)))
            (record s { controller = stop s.controller })
          ≡ (ok status_stopped, record s { controller = stop s.controller }))
unfolding stop_vm get_status text_eq
get_status-stop_vm answers pid s =
    let t : Server = record s { controller = stop s.controller } in
    (
      ap (λ (x : Result ClientError Message × Server). (stop_reply x.0, x.1))
          (send_word_plain (codes "stop") resp_ok s t answers pid (word (codes "stop") refl)
            (word resp_ok refl) (dispatch-stop (codes "stop") s answers pid)),
      ap (λ (x : Result ClientError Message × Server). (status_reply x.0, x.1))
            (send_word_plain (codes "status") (status answers t.controller) t t answers pid
              (word (codes "status") refl) (status-IsWord answers t.controller)
              (dispatch-status (codes "status") t answers pid))
          ∙ ap (λ (a : Text). (ok a, t)) (status-stop answers s.controller),
    )
