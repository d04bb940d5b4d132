-- ===== src/Control/Router/Dispatch.antt =====
-- What `Dispatch` does with a request, by what the table of handlers holds.
use bladerunner.Prelude.{
  All, Bool-cases, List, Text, [], inl, inr, none, refl, some, subst, text_eq, text_eq_iff,
  text_eq_refl, ◌∷◌, ◌≡◌,
}
use bladerunner.Control.Request.{Request}
use bladerunner.Control.Router.{
  Handler, Router, router, Mounts, mount, unmounted, unknown_command, with_command, find_handler,
  namespace, dispatch,
}

module _ {S : Type 0} where
  pub dispatch-handler :
      (hs : List (Text × Handler S)) (ms : Mounts S) (req : Request) (s : S) (h : Handler S)
      → find_handler req.command hs ≡ some h
      → dispatch (router hs ms) req s ≡ h req s
  unfolding dispatch
  dispatch-handler hs ms req s h e = rw e refl

  pub dispatch-unmounted :
      (hs : List (Text × Handler S)) (req : Request) (s : S)
      → find_handler req.command hs ≡ none
      → dispatch (router hs unmounted) req s ≡ (unknown_command req.command, s)
  unfolding dispatch
  dispatch-unmounted hs req s e = rw e refl

  -- A command with the prefix of the router that is mounted first.
  pub dispatch-mounted :
      (hs : List (Text × Handler S)) (p rest : Text) (sub : Router S) (ms : Mounts S)
      (req : Request) (s : S)
      → find_handler req.command hs ≡ none
      → namespace req.command ≡ some (p, rest)
      → dispatch (router hs (mount p sub ms)) req s ≡ dispatch sub (with_command rest req) s
  unfolding dispatch
  dispatch-mounted hs p rest sub ms req s e n = rw e (rw n (rw (text_eq_refl p) refl))

  pub find_handler-All :
      (P : Text → Handler S → Type 0) (k : Text) (hs : List (Text × Handler S)) (h : Handler S)
      → All (λ e. P e.0 e.1) hs
      → find_handler k hs ≡ some h
      → P k h
  unfolding find_handler
  find_handler-All P k [] h a e = cc
  find_handler-All P k ((j, g) ∷ hs) h a e = elim (Bool-cases (text_eq j k)) [
    | inl same ↦
        let found : ◌≡◌ {A = Handler S} g h = cc (rw same at e) in
        subst (λ (x : Handler S). P k x) found
          (subst (λ (i : Text). P i g) ((text_eq_iff j k).0 same) a.0)
    | inr other ↦ find_handler-All P k hs h a.1 (rw other at e)
  ]
