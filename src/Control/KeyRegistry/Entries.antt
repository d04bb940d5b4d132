-- ===== src/Control/KeyRegistry/Entries.antt =====
-- The registry that the command line shows agrees with the handlers of the server.
use bladerunner.Prelude.{
  All, Bool, Bool-cases, List, Option, Option-cases, Text, [], false, inl, inr, map, none, refl,
  some, subst, sym, text_eq, text_eq_iff, true, ℕ, ◌∷◌, ◌≡◌,
}
use bladerunner.Control.KeyRegistry.{ConfigKeyMeta, config_key_registry, find_meta}
use bladerunner.Control.ConfigHandler.{
  ConfigEntry, config_entries, find_entry, sort_texts, insert_text,
}
use bladerunner.Disk.Catalog.{text_lt}

abbrev pub settable : ConfigEntry → Bool
settable e = elim (e.setter) [ none ↦ false | some _ ↦ true ]

-- Neither knows the key, or both do and agree whether it can be set.
pub data Agree : Option ConfigKeyMeta → Option ConfigEntry → Type 0 where
  neither : Agree none none
  both : (m : ConfigKeyMeta) (e : ConfigEntry) → m.writable ≡ settable e → Agree (some m) (some e)

abbrev Knows : List ConfigKeyMeta → ConfigEntry → Type 0
Knows ms e = (m : ConfigKeyMeta) × (find_meta e.key ms ≡ some m) × (m.writable ≡ settable e)

abbrev Handles : List ConfigEntry → ConfigKeyMeta → Type 0
Handles es m = (e : ConfigEntry) × (find_entry m.key es ≡ some e)

find_entry-found :
    (k : Text) (es : List ConfigEntry) (ms : List ConfigKeyMeta) (e : ConfigEntry)
    → All (Knows ms) es
    → find_entry k es ≡ some e
    → Agree (find_meta k ms) (some e)
unfolding find_entry
find_entry-found k [] ms e h p = cc
find_entry-found k (d ∷ es) ms e h p = elim (Bool-cases (text_eq d.key k)) [
  | inl same ↦
      let found : d ≡ e = cc (rw same at p) in
      let (m, q, w) = h.0 in
      subst (λ (x : ConfigEntry). Agree (find_meta k ms) (some x)) found
        (subst (λ (j : Text). Agree (find_meta j ms) (some d)) ((text_eq_iff d.key k).0 same)
          (subst (λ (o : Option ConfigKeyMeta). Agree o (some d)) (sym q) (both m d w)))
  | inr other ↦ find_entry-found k es ms e h.1 (rw other at p)
]

find_meta-missing :
    (k : Text) (ms : List ConfigKeyMeta) (es : List ConfigEntry)
    → All (Handles es) ms
    → find_entry k es ≡ none
    → find_meta k ms ≡ none
unfolding find_meta
find_meta-missing k [] es h p = refl
find_meta-missing k (m ∷ ms) es h p = elim (Bool-cases (text_eq m.key k)) [
  | inl same ↦
      let (e, q) = h.0 in
      let r : find_entry k es ≡ some e =
        subst (λ (j : Text). find_entry j es ≡ some e) ((text_eq_iff m.key k).0 same) q in
      cc (r, p)
  | inr other ↦ rw other (find_meta-missing k ms es h.1 p)
]

config_entries-Knows : (pid : ℕ) → All (Knows config_key_registry) (config_entries pid)
unfolding config_key_registry config_entries find_meta text_eq
config_entries-Knows pid = (
  (_, refl, refl),
  (
    (_, refl, refl),
    (
      (_, refl, refl),
      (
        (_, refl, refl),
        (
          (_, refl, refl),
          (
            (_, refl, refl),
            (
              (_, refl, refl),
              (
                (_, refl, refl),
                (
                  (_, refl, refl),
                  (
                    (_, refl, refl),
                    (
                      (_, refl, refl),
                      (
                        (_, refl, refl),
                        (
                          (_, refl, refl),
                          (
                            (_, refl, refl),
                            (
                              (_, refl, refl),
                              (
                                (_, refl, refl),
                                (
                                  (_, refl, refl),
                                  (
                                    (_, refl, refl),
                                    (
                                      (_, refl, refl),
                                      (
                                        (_, refl, refl),
                                        (
                                          (_, refl, refl),
                                          (
                                            (_, refl, refl),
                                            (
                                              (_, refl, refl),
                                              (
                                                (_, refl, refl),
                                                ((_, refl, refl), ((_, refl, refl), (tt))),
                                              ),
                                            ),
                                          ),
                                        ),
                                      ),
                                    ),
                                  ),
                                ),
                              ),
                            ),
                          ),
                        ),
                      ),
                    ),
                  ),
                ),
              ),
            ),
          ),
        ),
      ),
    ),
  ),
)

registry-Handles : (pid : ℕ) → All (Handles (config_entries pid)) config_key_registry
unfolding config_key_registry config_entries find_entry text_eq
registry-Handles pid = (
  (_, refl),
  (
    (_, refl),
    (
      (_, refl),
      (
        (_, refl),
        (
          (_, refl),
          (
            (_, refl),
            (
              (_, refl),
              (
                (_, refl),
                (
                  (_, refl),
                  (
                    (_, refl),
                    (
                      (_, refl),
                      (
                        (_, refl),
                        (
                          (_, refl),
                          (
                            (_, refl),
                            (
                              (_, refl),
                              (
                                (_, refl),
                                (
                                  (_, refl),
                                  (
                                    (_, refl),
                                    (
                                      (_, refl),
                                      (
                                        (_, refl),
                                        (
                                          (_, refl),
                                          (
                                            (_, refl),
                                            (
                                              (_, refl),
                                              ((_, refl), ((_, refl), ((_, refl), (tt)))),
                                            ),
                                          ),
                                        ),
                                      ),
                                    ),
                                  ),
                                ),
                              ),
                            ),
                          ),
                        ),
                      ),
                    ),
                  ),
                ),
              ),
            ),
          ),
        ),
      ),
    ),
  ),
)

sort_texts-registry :
    (pid : ℕ)
    → sort_texts (map (λ e. e.key) (config_entries pid)) ≡ map (λ m. m.key) config_key_registry
unfolding sort_texts insert_text text_lt config_entries config_key_registry
sort_texts-registry pid = refl

-- For every key, the registry and the handlers of the server both know it, and the registry says
-- that it is writable exactly if there is a setter; or neither knows it. And the answer to
-- "config.keys" lists the registry's keys in the registry's order.
pub find_meta-Agree :
    (pid : ℕ) (k : Text)
    → Agree (find_meta k config_key_registry) (find_entry k (config_entries pid))
      × (sort_texts (map (λ e. e.key) (config_entries pid)) ≡ map (λ m. m.key) config_key_registry)
find_meta-Agree pid k = (agree, sort_texts-registry pid)
  where
    agree : Agree (find_meta k config_key_registry) (find_entry k (config_entries pid))
    agree = elim (Option-cases (find_entry k (config_entries pid))) [
      | inl missing ↦ subst (Agree (find_meta k config_key_registry)) (sym missing) (
          subst (λ (o : Option ConfigKeyMeta). Agree o none)
            (sym (
              find_meta-missing k config_key_registry (config_entries pid) (registry-Handles pid)
                missing))
            neither)
      | inr (e, found) ↦ subst (Agree (find_meta k config_key_registry)) (sym found) (
          find_entry-found k (config_entries pid) config_key_registry e (config_entries-Knows pid)
            found)
    ]
