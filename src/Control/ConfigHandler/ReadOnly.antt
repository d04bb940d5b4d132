-- ===== src/Control/ConfigHandler/ReadOnly.antt =====
-- What a client can change of a running VM's configuration.
use bladerunner.Prelude.{
  All, Bool-cases, List, Option, Option-cases, Result, Text, [], arith, codes, false, inl, inr,
  is_empty, none, refl, some, subst, sym, text_eq, text_eq_iff, ||-eq-false, ℕ, ◌||◌, ◌∙◌, ◌∷◌, ◌≡◌,
  ◌⊎◌,
}
use bladerunner.Config.{Config}
use bladerunner.Control.{Message, reply, resp_ok}
use bladerunner.Control.Request.{Request, get_arg}
use bladerunner.Control.Router.{Handler, dispatch, find_handler}
use bladerunner.Control.Router.Dispatch.{dispatch-handler, dispatch-unmounted, find_handler-All}
use bladerunner.Control.Router.{unmounted}
use bladerunner.Control.ConfigHandler.{
  ConfigEntry, set_base_image_url, key_base_image_url, config_entries, find_entry, handle_get,
  set_with, set_entry, handle_set, config_handlers, new_config_router,
}

-- An entry has no setter, or is that of the base image's URL with its setter.
IsSafe : ConfigEntry → Type 0
IsSafe e = (e.setter ≡ none) ⊎ ((e.setter ≡ some set_base_image_url) × (e.key ≡ key_base_image_url))

config_entries-IsSafe : (pid : ℕ) → All IsSafe (config_entries pid)
unfolding IsSafe config_entries
config_entries-IsSafe pid = (
  inl refl,
  (
    inl refl,
    (
      inl refl,
      (
        inl refl,
        (
          inl refl,
          (
            inl refl,
            (
              inl refl,
              (
                inl refl,
                (
                  inl refl,
                  (
                    inl refl,
                    (
                      inl refl,
                      (
                        inl refl,
                        (
                          inl refl,
                          (
                            inl refl,
                            (
                              inl refl,
                              (
                                inl refl,
                                (
                                  inl refl,
                                  (
                                    inl refl,
                                    (
                                      inl refl,
                                      (
                                        inr (refl, refl),
                                        (
                                          inl refl,
                                          (
                                            inl refl,
                                            (inl refl, (inl refl, (inl refl, (inl refl, (tt))))),
                                          ),
                                        ),
                                      ),
                                    ),
                                  ),
                                ),
                              ),
                            ),
                          ),
                        ),
                      ),
                    ),
                  ),
                ),
              ),
            ),
          ),
        ),
      ),
    ),
  ),
)

find_entry-IsSafe :
    (k : Text) (es : List ConfigEntry) (e : ConfigEntry)
    → All IsSafe es
    → find_entry k es ≡ some e
    → IsSafe e × (e.key ≡ k)
unfolding find_entry
find_entry-IsSafe k [] e h p = cc
find_entry-IsSafe k (d ∷ es) e h p = elim (Bool-cases (text_eq d.key k)) [
  | inl same ↦
      let found : d ≡ e = cc (rw same at p) in
      (
        subst IsSafe found h.0,
        subst (λ (x : ConfigEntry). x.key ≡ k) found ((text_eq_iff d.key k).0 same),
      )
  | inr other ↦ find_entry-IsSafe k es e h.1 (rw other at p)
]

-- What a request did: nothing to `cfg`, or it was `set base-image-url value`.
abbrev pub Outcome : Request → Config → Message × Config → Type 0
Outcome req cfg (m, new) =
    (new ≡ cfg)
    ⊎ ((req.command ≡ codes "set")
        × (get_arg (codes "0") req.args ≡ key_base_image_url)
        × (is_empty (get_arg (codes "1") req.args) ≡ false)
        × (m ≡ reply resp_ok)
        × (new ≡ record cfg { base_image_url = get_arg (codes "1") req.args }))

set_with-outcome :
    (req : Request) (cfg : Config) (setter : Option (Text → Config → Result Text Config))
    → req.command ≡ codes "set"
    → is_empty (get_arg (codes "1") req.args) ≡ false
    → (setter ≡ none)
      ⊎ ((setter ≡ some set_base_image_url) × (get_arg (codes "0") req.args ≡ key_base_image_url))
    → Outcome req cfg
        (set_with (get_arg (codes "0") req.args) (get_arg (codes "1") req.args) cfg setter)
unfolding set_with set_base_image_url
set_with-outcome req cfg setter c v (inl absent) = rw absent (inl refl)
set_with-outcome req cfg setter c v (inr (present, key)) = rw present (inr (c, key, v, refl, refl))

set_entry-outcome :
    (pid : ℕ) (req : Request) (cfg : Config) (entry : Option ConfigEntry)
    → req.command ≡ codes "set"
    → is_empty (get_arg (codes "1") req.args) ≡ false
    → find_entry (get_arg (codes "0") req.args) (config_entries pid) ≡ entry
    → Outcome req cfg
        (set_entry (get_arg (codes "0") req.args) (get_arg (codes "1") req.args) cfg entry)
unfolding set_entry IsSafe
set_entry-outcome pid req cfg none c v f = inl refl
set_entry-outcome pid req cfg (some e) c v f =
    let (safe, key) =
      find_entry-IsSafe (get_arg (codes "0") req.args) (config_entries pid) e
        (config_entries-IsSafe pid) f in
    set_with-outcome req cfg e.setter c v
      (elim safe [ inl a ↦ inl a | inr (p, k) ↦ inr (p, sym key ∙ k) ])

handle_set-outcome :
    (pid : ℕ) (req : Request) (cfg : Config)
    → req.command ≡ codes "set"
    → Outcome req cfg (handle_set (config_entries pid) req cfg)
unfolding handle_set
handle_set-outcome pid req cfg c =
    elim (Bool-cases
      (is_empty (get_arg (codes "0") req.args) || is_empty (get_arg (codes "1") req.args))) [
        | inl usage ↦ rw usage (inl refl)
        | inr given ↦ rw given (
            set_entry-outcome pid req cfg
              (find_entry (get_arg (codes "0") req.args) (config_entries pid)) c
              (||-eq-false _ _ given).1 refl)
      ]

handle_get-frame :
    (es : List ConfigEntry) (req : Request) (cfg : Config) → (handle_get es req cfg).1 ≡ cfg
unfolding handle_get
handle_get-frame es req cfg = ground arith

pub find_handler-outcome :
    (pid : ℕ) (req : Request) (cfg : Config) (h : Handler Config)
    → find_handler req.command (config_handlers pid) ≡ some h
    → Outcome req cfg (h req cfg)
unfolding config_handlers
find_handler-outcome pid req cfg h found =
    find_handler-All
      (λ (c : Text) (g : Handler Config). req.command ≡ c → Outcome req cfg (g req cfg)) req.command
      (config_handlers pid) h
      (
        (λ e. inl refl),
        (
          (λ e. handle_set-outcome pid req cfg e),
          ((λ e. inl (handle_get-frame (config_entries pid) req cfg)), tt),
        ),
      )
      found refl

-- A request to the router of the configuration either leaves the configuration as it is, or it is
-- "set base-image-url <value>" with a value that is not empty; then the answer is "ok" and the
-- base image's URL, and no other field, becomes the value.
pub dispatch-set_only :
    (pid : ℕ) (req : Request) (cfg : Config)
    → Outcome req cfg (dispatch (new_config_router pid) req cfg)
unfolding new_config_router
dispatch-set_only pid req cfg =
    elim (Option-cases (find_handler req.command (config_handlers pid))) [
      | inl missing ↦
          subst (Outcome req cfg) (sym (dispatch-unmounted (config_handlers pid) req cfg missing))
            (inl refl)
      | inr (h, found) ↦
          subst (Outcome req cfg)
            (sym (dispatch-handler (config_handlers pid) unmounted req cfg h found))
            (find_handler-outcome pid req cfg h found)
    ]
