-- ===== src/Control/Listener/Newer.antt =====
-- A client of a newer protocol is refused (handleConnection's check of the version).
use bladerunner.Prelude.{
  &&-eq-true, All, All-append, Bool, Option, Text, [], ap, append-nil, arith, codes, decimal,
  decimal-digits, int_gt, itoa, not, pos, refl, some, sym, true, ℕ, ℤ, ◌&&◌, ◌++◌, ◌<◌, ◌==◌, ◌∙◌,
  ◌∷◌, ◌≡◌,
}
use bladerunner.Control.{Message, protocol_version}
use bladerunner.Control.Wire.{error_prefix, body, encode, decode}
use bladerunner.Control.Wire.RoundTrip.{IsNot, decode-encode, digits_avoid, ends_in_word-append}
use bladerunner.Control.Router.{Router}
use bladerunner.Control.Listener.{
  answer, respond, handle_connection, with_version, written, unsupported,
}

abbrev avoids : ℕ → Text → Bool
avoids b [] = true
avoids b (c ∷ s) = not (c == b) && avoids b s

avoids-IsNot : (b : ℕ) (s : Text) → avoids b s ≡ true → All (IsNot b) s
avoids-IsNot b [] h = tt
avoids-IsNot b (c ∷ s) h =
    let (x, y) = &&-eq-true (not (c == b)) (avoids b s) h in
    ((λ e. ground arith), avoids-IsNot b s y)

abbrev before_version : Text
before_version = error_prefix ++ codes "unsupported protocol version "

abbrev after_version : Text
after_version = codes " (server supports up to 1)"

refusal-line :
    (n : ℕ)
    → body (with_version protocol_version (unsupported (pos n)))
      ≡ some (before_version ++ (decimal n ++ after_version))
unfolding body itoa decimal
refusal-line n = refl

answer-newer :
    {S : Type 0} (r : Router S) (m : Message) (n : ℕ) (s : S)
    → m.version ≡ pos n
    → 1 < n
    → answer r m s ≡ (with_version protocol_version (unsupported (pos n)), s)
unfolding answer
answer-newer {S} r m n s v h =
    let newer : int_gt m.version 1 ≡ true = ap (λ (z : ℤ). int_gt z 1) v ∙ ground arith in
    rw newer (ap (λ (z : ℤ). (with_version protocol_version (unsupported z), s)) v)

-- A message of a protocol version above 1 is answered with version 1 and the error that names the
-- version and the one that is supported, and the server's state does not change.
pub handle_connection-newer :
    {S : Type 0} (r : Router S) (stream : Text) (m : Message) (n : ℕ) (s : S)
    → decode stream ≡ some m
    → m.version ≡ pos n
    → 1 < n
    → (bytes : Text) × (handle_connection r stream s ≡ (bytes, s))
      × (decode bytes
          ≡ some (record {
            version = pos 1;
            command = [];
            response = [];
            error = (unsupported (pos n)).error;
          }))
unfolding handle_connection respond
handle_connection-newer {S} r stream m n s d v h =
    let refusal : Message = with_version protocol_version (unsupported (pos n)) in
    let back =
      decode-encode 1 refusal (before_version ++ (decimal n ++ after_version)) [] (omega arith)
        (omega arith) refl (refusal-line n)
        (All-append (IsNot b'\n') before_version (decimal n ++ after_version)
          (avoids-IsNot b'\n' before_version refl)
          (All-append (IsNot b'\n') (decimal n) after_version
            (digits_avoid b'\n' (decimal n) (omega arith) (decimal-digits n))
            (avoids-IsNot b'\n' after_version refl)))
        (ends_in_word-append before_version (decimal n ++ after_version)
          (ends_in_word-append (decimal n) after_version refl))
        (λ e. cc e) in
    (
      back.0,
      ap (λ (o : Option Message). respond r o s) d
          ∙ ap (λ (x : Message × S). (written (encode x.0), x.1)) (answer-newer r m n s v h)
          ∙ ap (λ (o : Option Text). (written o, s)) back.1,
      ap decode (sym (append-nil back.0)) ∙ back.2,
    )
