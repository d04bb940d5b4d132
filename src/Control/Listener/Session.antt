-- ===== src/Control/Listener/Session.antt =====
-- A command that a client sends reaches its handler, and the reply comes back.
use bladerunner.Prelude.{
  All, All-append, List, Option, Result, Text, [], ap, append-nil, arith, cut_prefix, false, int_gt,
  is_empty, is_space, none, ok, pos, refl, some, sym, true, ℕ, ℤ, ◌∙◌, ◌∷◌, ◌≡◌,
}
use bladerunner.Control.{Message, protocol_version}
use bladerunner.Control.Wire.{error_prefix, body, encode, decode}
use bladerunner.Control.Wire.RoundTrip.{
  IsNot, ends_in_word, received, decode-encode, ends_in_word-append,
}
use bladerunner.Control.Request.{Request, from_words, new_request, join_space, build_command}
use bladerunner.Control.Request.Laws.{IsWord, new_request-build_command}
use bladerunner.Control.Router.{Router, dispatch}
use bladerunner.Control.Listener.{
  ClientError, answer, respond, written, handle_connection, exchange, send_command, read_reply,
  with_version,
}

pub word-no_newline : (w : Text) → All (λ c. is_space c ≡ false) w → All (IsNot b'\n') w
word-no_newline [] h = tt
word-no_newline (c ∷ w) h = ((λ e. ground arith), word-no_newline w h.1)

pub word-ends_in_word : (w : Text) → IsWord w → ends_in_word w ≡ true
word-ends_in_word [] h = cc h.0
word-ends_in_word (c ∷ []) h = ground arith
word-ends_in_word (c ∷ d ∷ w) h = word-ends_in_word (d ∷ w) (refl, h.1.1)

join_space-no_newline : (ws : List Text) → All IsWord ws → All (IsNot b'\n') (join_space ws)
unfolding join_space
join_space-no_newline [] h = tt
join_space-no_newline (w ∷ []) h = word-no_newline w h.0.1
join_space-no_newline (w ∷ v ∷ ws) h =
    All-append (IsNot b'\n') w (b' ' ∷ join_space (v ∷ ws)) (word-no_newline w h.0.1)
      ((λ e. omega arith), join_space-no_newline (v ∷ ws) h.1)

ends_in_word-cons : (c : ℕ) (v : Text) → ends_in_word v ≡ true → ends_in_word (c ∷ v) ≡ true
ends_in_word-cons c v h = ends_in_word-append (c ∷ []) v h

join_space-ends_in_word :
    (w : Text) (ws : List Text)
    → IsWord w
    → All IsWord ws
    → ends_in_word (join_space (w ∷ ws)) ≡ true
unfolding join_space
join_space-ends_in_word w [] h k = word-ends_in_word w h
join_space-ends_in_word w (v ∷ ws) h k =
    ends_in_word-append w (b' ' ∷ join_space (v ∷ ws))
      (ends_in_word-cons b' ' (join_space (v ∷ ws)) (join_space-ends_in_word v ws k.0 k.1))

-- The message that the client sends.
abbrev command_message : Text → Message
command_message cmd = record {
  version = protocol_version;
  command = cmd;
  response = [];
  error = [];
}

nonempty : (s : Text) → ends_in_word s ≡ true → is_empty s ≡ false
nonempty [] h = cc
nonempty (c ∷ s) h = refl

body-command : (cmd : Text) → ends_in_word cmd ≡ true → body (command_message cmd) ≡ some cmd
unfolding body
body-command cmd h = let e = nonempty cmd h in rw e refl

body-with_version : (m : Message) (v : ℤ) → body (with_version v m) ≡ body m
unfolding body
body-with_version m v = refl

-- What a message of this version with the line `text` becomes.
abbrev command_received : Text → Message
command_received text = record { version = pos 1; command = text; response = text; error = [] }

handle_connection-reply :
    {S : Type 0} (r : Router S) (stream text : Text) (s t : S) (m : Message) (back : Text)
    → decode stream ≡ some (command_received text)
    → dispatch r (new_request text) s ≡ (m, t)
    → encode (with_version protocol_version m) ≡ some back
    → handle_connection r stream s ≡ (back, t)
unfolding handle_connection respond answer
handle_connection-reply {S} r stream text s t m back e d w =
    ap (λ (o : Option Message). respond r o s) e
    ∙ ap (λ (q : Message × S). (written (encode (with_version protocol_version q.0)), q.1)) d
    ∙ ap (λ (o : Option Text). (written o, t)) w

read_reply-current : (q : Message) → q.version ≡ pos 1 → read_reply (some q) ≡ ok q
unfolding read_reply
read_reply-current q v =
    let current : int_gt q.version 1 ≡ false = ap (λ (z : ℤ). int_gt z 1) v in rw current refl

exchange-reply :
    {S : Type 0} (conn : Text → S → Text × S) (o : Option Text) (s t : S) (sent back : Text)
    (q : Message)
    → o ≡ some sent
    → conn sent s ≡ (back, t)
    → decode back ≡ some q
    → q.version ≡ pos 1
    → exchange conn o s ≡ (ok q, t)
unfolding exchange
exchange-reply {S} conn o s t sent back q e c d v =
    ap (λ (x : Option Text). exchange conn x s) e
    ∙ ap (λ (x : Text × S). (read_reply (decode x.0), x.1)) c
    ∙ ap (λ (x : Option Message). (read_reply x, t)) d
    ∙ ap (λ (x : Result ClientError Message). (x, t)) (read_reply-current q v)

received-version : (m : Message) (line : Text) → (received 1 m line).version ≡ pos 1
received-version m line = ground arith

build_command-ends_in_word :
    (cmd : Text) (args : List Text)
    → IsWord cmd
    → All IsWord args
    → ends_in_word (build_command cmd args) ≡ true
unfolding build_command
build_command-ends_in_word cmd args c a = join_space-ends_in_word cmd args c a

build_command-no_newline :
    (cmd : Text) (args : List Text)
    → IsWord cmd
    → All IsWord args
    → All (IsNot b'\n') (build_command cmd args)
unfolding build_command
build_command-no_newline cmd args c a = join_space-no_newline (cmd ∷ args) (c, a)

-- A client sends a command and its arguments, each a word, that do not start with "error: ", to a
-- server. If the reply of the server's router has a line without a newline that ends in no white
-- space, and starts with "error: " only if the reply is an error, then the client receives that
-- reply, with version 1, and the server's state is the one that the handler left.
pub send_command-dispatch :
    {S : Type 0} (r : Router S) (cmd : Text) (args : List Text) (s t : S) (m : Message)
    (line : Text)
    → IsWord cmd
    → All IsWord args
    → cut_prefix (build_command cmd args) error_prefix ≡ none
    → dispatch r (from_words (build_command cmd args) (cmd ∷ args)) s ≡ (m, t)
    → body m ≡ some line
    → All (IsNot b'\n') line
    → ends_in_word line ≡ true
    → (is_empty m.error ≡ true → cut_prefix line error_prefix ≡ none)
    → send_command (some (handle_connection r)) (build_command cmd args) s
      ≡ (ok (received 1 m line), t)
unfolding send_command
send_command-dispatch r cmd args s t m line c a plain d b no_newline word p =
    let text : Text = build_command cmd args in
    let sent =
      decode-encode 1 (command_message text) text [] (omega arith) (omega arith) refl
        (body-command text (build_command-ends_in_word cmd args c a))
        (build_command-no_newline cmd args c a) (build_command-ends_in_word cmd args c a)
        (λ e. plain) in
    let back =
      decode-encode 1 (with_version protocol_version m) line [] (omega arith) (omega arith) refl
        (body-with_version m protocol_version ∙ b) no_newline word p in
    exchange-reply (handle_connection r) (encode (command_message text)) s t sent.0 back.0
      (received 1 m line) sent.1
      (handle_connection-reply r sent.0 text s t m back.0
        (ap decode (sym (append-nil sent.0)) ∙ sent.2)
        (ap (λ (q : Request). dispatch r q s) (new_request-build_command cmd args c a) ∙ d) back.1)
      (ap decode (sym (append-nil back.0)) ∙ back.2) (received-version m line)
