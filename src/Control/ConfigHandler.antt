-- ===== src/Control/ConfigHandler.antt =====
-- `ConfigRouter` (internal/control/config_handler.go). The state of a handler is the `Config` that
-- the router shares with the program; each handler runs under the lock. `pid` is os.Getpid().
pub mod ReadOnly
use bladerunner.Prelude.{
  &&-eq-true, ==_iff, ==_refl, >>-eq-ok, >>=-eq-ok, All, All-append, AtLeast, AtMost, Bool,
  Bool-cases, Check, IsDigit, List, Option, Option-cases, Result, String, Text, [], ap, append-nil,
  append_assoc, arith, atoi, atoi-decimal, codes, contains, cut_byte, cut_prefix, decimal,
  decimal-cons, decimal-digits, drop, drop-length-append, err, fail_if, fail_if-eq-ok, false,
  fun_ext, get_elem?, has_prefix, has_suffix, if◌then◌else◌, in_int64, inl, inr, int_eq, int_eq_iff,
  int_gt, int_gt_iff, int_lt, int_lt_iff, is_empty, is_ok, is_ok_unit, is_space, itoa, leb, length,
  length-append, length-drop, length-take, ltb, map, map_err, min, ne_text_eq, negsuc, none, not,
  ok, ok-injective, parse_digits, parse_nat, pos, refl, replicate, reverse, some, subst, suc, sym,
  take, take-length-append, text_eq, text_eq_iff, text_eq_ne, text_eq_refl, to_lower, to_lower_byte,
  trim_left, trim_right, trim_space, true, zero, ||-eq-false, ℕ, ℤ, ◌%◌, ◌&&◌, ◌*◌, ◌++◌, ◌+◌, ◌-◌,
  ◌/◌, ◌<◌, ◌==◌, ◌>>=◌, ◌>>◌, ◌^◌, ◌||◌, ◌↔◌, ◌∙◌, ◌∷◌, ◌≡◌, ◌≢◌, ◌≤◌, ◌⊎◌,
}
use bladerunner.Config.{Config}
use bladerunner.Control.{Message, failure, reply, resp_ok}
use bladerunner.Control.Request.{Request, get_arg, join_space}
use bladerunner.Control.Router.{Handler, Router, router, unmounted}
use bladerunner.Disk.Catalog.{text_lt}

-- `configEntry` with its key. A setter gives the new configuration, or its error.
pub record ConfigEntry : Type 0 where
  pub key : Text
  pub getter : Config → Text
  pub setter : Option (Text → Config → Result Text Config)
  pub deferred : Bool

abbrev pub format_bool : Bool → Text
format_bool true = codes "true"
format_bool false = codes "false"

abbrev read_only : String → (Config → Text) → ConfigEntry
read_only key getter = record { key = codes key; getter = getter; setter = none; deferred = false }

abbrev deferred_key : String → (Config → Text) → ConfigEntry
deferred_key key getter = record {
  key = codes key;
  getter = getter;
  setter = none;
  deferred = true;
}

unfoldable pub set_base_image_url : Text → Config → Result Text Config
set_base_image_url val cfg = ok (record cfg { base_image_url = val })

abbrev pub key_base_image_url : Text
key_base_image_url = codes "base-image-url"

-- the map of NewConfigRouter
unfoldable pub config_entries : ℕ → List ConfigEntry
unfolding set_base_image_url
config_entries pid =
    deferred_key "ssh-config-path" (λ cfg. cfg.ssh_config_path)
    ∷ read_only "ssh-user" (λ cfg. cfg.ssh_user)
    ∷ deferred_key "ssh-private-key-path" (λ cfg. cfg.ssh_private_key_path)
    ∷ read_only "local-ssh-port" (λ cfg. itoa cfg.local_ssh_port)
    ∷ read_only "local-api-port" (λ cfg. itoa cfg.local_api_port)
    ∷ read_only "local-web-port" (λ cfg. itoa cfg.local_web_port)
    ∷ read_only "local-oidc-port" (λ cfg. itoa cfg.local_oidc_port)
    ∷ read_only "name" (λ cfg. cfg.name)
    ∷ read_only "vm-dir" (λ cfg. cfg.vm_dir)
    ∷ read_only "state-dir" (λ cfg. cfg.state_dir)
    ∷ read_only "cpus" (λ cfg. decimal cfg.cpus)
    ∷ read_only "memory-gib" (λ cfg. decimal cfg.memory_gib)
    ∷ read_only "disk-size-gib" (λ cfg. itoa cfg.disk_size_gib)
    ∷ read_only "arch" (λ cfg. cfg.arch)
    ∷ read_only "hostname" (λ cfg. cfg.hostname)
    ∷ read_only "network-mode" (λ cfg. cfg.network_mode)
    ∷ read_only "log-path" (λ cfg. cfg.log_path)
    ∷ read_only "gui" (λ cfg. format_bool cfg.gui)
    ∷ read_only "pid" (λ cfg. decimal pid)
    ∷ record {
      key = key_base_image_url;
      getter = λ cfg. cfg.base_image_url;
      setter = some set_base_image_url;
      deferred = false;
    }
    ∷ deferred_key "base-image-path" (λ cfg. cfg.base_image_path)
    ∷ read_only "cloud-init-iso" (λ cfg. cfg.cloud_init_iso)
    ∷ read_only "disk-path" (λ cfg. cfg.disk_path)
    ∷ read_only "use-hosted-guest-image" (λ cfg. format_bool cfg.use_hosted_guest_image)
    ∷ read_only "nested-virt" (λ cfg. cfg.nested_virt)
    ∷ deferred_key "guest-image-version" (λ cfg. [])
    ∷ []

unfoldable pub find_entry : Text → List ConfigEntry → Option ConfigEntry
find_entry k [] = none
find_entry k (e ∷ es) = if text_eq e.key k then some e else find_entry k es

abbrev pub unknown_key : Text → Message
unknown_key key = failure (codes "unknown config key: " ++ key)

abbrev pub not_available : Text → Message
not_available key = failure (key ++ codes " not available (VM may not have started yet)")

abbrev pub read_only_key : Text → Message
read_only_key key =
    failure
      (codes "config key " ++ key ++ codes " is read-only or not supported for remote modification")

unfoldable pub get_entry : Text → Config → Option ConfigEntry → Message
get_entry key cfg none = unknown_key key
get_entry key cfg (some e) =
    let val = e.getter cfg in if is_empty val && e.deferred then not_available key else reply val

unfoldable pub handle_get : List ConfigEntry → Handler Config
unfolding get_entry find_entry get_arg
handle_get entries req cfg =
    let key = get_arg (codes "0") req.args in
    if is_empty key
    then (failure (codes "usage: config.get <key>"), cfg)
    else (get_entry key cfg (find_entry key entries), cfg)

unfoldable pub set_result : Text → Config → Result Text Config → Message × Config
set_result key cfg (ok new) = (reply resp_ok, new)
set_result key cfg (err e) = (failure (codes "failed to set " ++ key ++ codes ": " ++ e), cfg)

unfoldable pub set_with :
    Text → Text → Config → Option (Text → Config → Result Text Config) → Message × Config
unfolding set_result
set_with key value cfg none = (read_only_key key, cfg)
set_with key value cfg (some set) = set_result key cfg (set value cfg)

unfoldable pub set_entry : Text → Text → Config → Option ConfigEntry → Message × Config
unfolding set_with
set_entry key value cfg none = (unknown_key key, cfg)
set_entry key value cfg (some e) = set_with key value cfg e.setter

unfoldable pub handle_set : List ConfigEntry → Handler Config
unfolding set_entry find_entry get_arg
handle_set entries req cfg =
    let key = get_arg (codes "0") req.args in
    let value = get_arg (codes "1") req.args in
    if is_empty key || is_empty value
    then (failure (codes "usage: config.set <key> <value>"), cfg)
    else set_entry key value cfg (find_entry key entries)

-- sort.Strings
unfoldable pub insert_text : Text → List Text → List Text
unfolding text_lt
insert_text k [] = k ∷ []
insert_text k (j ∷ js) = let rest = insert_text k js in if text_lt j k then j ∷ rest else k ∷ j ∷ js

unfoldable pub sort_texts : List Text → List Text
unfolding insert_text
sort_texts [] = []
sort_texts (k ∷ ks) = insert_text k (sort_texts ks)

unfoldable pub handle_keys : List ConfigEntry → Handler Config
unfolding sort_texts join_space
handle_keys entries req cfg = (reply (join_space (sort_texts (map (λ e. e.key) entries))), cfg)

-- NewConfigRouter: its handlers
unfoldable pub config_handlers : ℕ → List (Text × Handler Config)
unfolding config_entries handle_get handle_set handle_keys
config_handlers pid =
    (codes "keys", handle_keys (config_entries pid))
    ∷ (codes "set", handle_set (config_entries pid))
    ∷ (codes "get", handle_get (config_entries pid))
    ∷ []

unfoldable pub new_config_router : ℕ → Router Config
unfolding config_handlers
new_config_router pid = router (config_handlers pid) unmounted
