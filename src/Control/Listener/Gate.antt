-- ===== src/Control/Listener/Gate.antt =====
-- What bytes from a client can do to the server.
use bladerunner.Prelude.{
  Bool, Bool-cases, List, Option, Option-cases, Text, [], codes, false, inl, inr, int_gt, is_empty,
  none, refl, some, subst, sym, text_eq, ℕ, ◌∷◌, ◌≡◌, ◌⊎◌,
}
use bladerunner.Config.{Config}
use bladerunner.Control.{Message}
use bladerunner.Control.Wire.{decode}
use bladerunner.Control.Request.{Request, new_request}
use bladerunner.Control.Router.{
  Handler, router, unmounted, mount, find_handler, namespace, dispatch, dispatch_mount,
  with_command,
}
use bladerunner.Control.Router.Dispatch.{dispatch-handler, dispatch-unmounted}
use bladerunner.Control.Local.{stop}
use bladerunner.Control.ConfigHandler.{config_handlers}
use bladerunner.Control.ConfigHandler.ReadOnly.{Outcome, find_handler-outcome}
use bladerunner.Control.Listener.{
  Server, answer, respond, handle_connection, register_controller, on_config, on_configs,
  server_router,
}

find_handler-on_configs :
    (k : Text) (hs : List (Text × Handler Config)) (g : Handler Server)
    → find_handler k (on_configs hs) ≡ some g
    → (h : Handler Config) × (find_handler k hs ≡ some h) × (on_config h ≡ g)
unfolding find_handler
find_handler-on_configs k [] g e = cc
find_handler-on_configs k ((j, h) ∷ hs) g e = elim (Bool-cases (text_eq j k)) [
  | inl same ↦ (h, rw same refl, cc (rw same at e))
  | inr other ↦ rw other (find_handler-on_configs k hs g (rw other at e))
]

-- The configuration is as it was, or its base image's URL is another text that is not empty; the
-- controller is as it was, or stopped.
abbrev pub Allowed : Server → Server → Type 0
Allowed s t =
    ((t.config ≡ s.config)
      ⊎ ((v : Text) × (is_empty v ≡ false) × (t.config ≡ record s.config { base_image_url = v })))
    × ((t.controller ≡ s.controller) ⊎ (t.controller ≡ stop s.controller))

Allowed-outcome :
    (req : Request) (s : Server) (m : Message) (cfg : Config)
    → Outcome req s.config (m, cfg)
    → Allowed s (record s { config = cfg })
Allowed-outcome req s m cfg (inl same) = (inl same, inl refl)
Allowed-outcome req s m cfg (inr (c, k, v, o, e)) = (inr (_, v, e), inl refl)

Allowed-configs :
    (pid : ℕ) (req : Request) (s : Server)
    → Allowed s (dispatch (router (on_configs (config_handlers pid)) unmounted) req s).1
Allowed-configs pid req s =
    elim (Option-cases (find_handler req.command (on_configs (config_handlers pid)))) [
      | inl missing ↦
          subst (λ (x : Message × Server). Allowed s x.1)
            (sym (dispatch-unmounted (on_configs (config_handlers pid)) req s missing))
            (inl refl, inl refl)
      | inr (g, found) ↦
          let (h, known, same) =
            find_handler-on_configs req.command (config_handlers pid) g found in
          subst (λ (x : Message × Server). Allowed s x.1)
            (sym (dispatch-handler (on_configs (config_handlers pid)) unmounted req s g found))
            (subst (λ (f : Handler Server). Allowed s (f req s).1) same
              (Allowed-outcome req s (h req s.config).0 (h req s.config).1
                (find_handler-outcome pid req s.config h known)))
    ]

Allowed-mounted :
    (pid : ℕ) (target : Option (Text × Text)) (req : Request) (s : Server)
    → Allowed s
        (dispatch_mount
          (mount (codes "config") (router (on_configs (config_handlers pid)) unmounted) unmounted)
          target
          req
          s).1
unfolding dispatch_mount
Allowed-mounted pid none req s = (inl refl, inl refl)
Allowed-mounted pid (some (p, rest)) req s = elim (Bool-cases (text_eq (codes "config") p)) [
  | inl same ↦ rw same (Allowed-configs pid (with_command rest req) s)
  | inr other ↦ rw other (inl refl, inl refl)
]

Allowed-dispatch :
    (answers : Bool) (pid : ℕ) (req : Request) (s : Server)
    → Allowed s (dispatch (server_router answers pid) req s).1
unfolding server_router register_controller dispatch find_handler
Allowed-dispatch answers pid req s = elim (Bool-cases (text_eq (codes "stop") req.command)) [
  | inl is_stop ↦ rw is_stop (inl refl, inr refl)
  | inr n ↦ rw n (elim (Bool-cases (text_eq (codes "status") req.command)) [
    | inl is_status ↦ rw is_status (inl refl, inl refl)
    | inr k ↦ rw k (elim (Bool-cases (text_eq (codes "ping") req.command)) [
      | inl is_ping ↦ rw is_ping (inl refl, inl refl)
      | inr l ↦ rw l (Allowed-mounted pid (namespace req.command) req s)
    ])
  ])
]

Allowed-respond :
    (answers : Bool) (pid : ℕ) (m : Option Message) (s : Server)
    → Allowed s (respond (server_router answers pid) m s).1
unfolding respond answer
Allowed-respond answers pid none s = (inl refl, inl refl)
Allowed-respond answers pid (some m) s = elim (Bool-cases (int_gt m.version 1)) [
  | inl newer ↦ rw newer (inl refl, inl refl)
  | inr current ↦ rw current (Allowed-dispatch answers pid (new_request m.command) s)
]

-- Whatever bytes a client sends to a server with the handlers of the controller and of the
-- configuration, the configuration of the server is the one before or differs from
-- it in the base image's URL only, which is then not empty; and the controller is the one before or
-- the one before after a stop.
pub handle_connection-Allowed :
    (answers : Bool) (pid : ℕ) (stream : Text) (s : Server)
    → Allowed s (handle_connection (server_router answers pid) stream s).1
unfolding handle_connection
handle_connection-Allowed answers pid stream s = Allowed-respond answers pid (decode stream) s
