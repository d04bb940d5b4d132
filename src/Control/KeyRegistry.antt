-- ===== src/Control/KeyRegistry.antt =====
-- The registry of configuration keys (internal/control/control.go), without the descriptions.
pub mod Entries
use bladerunner.Prelude.{
  &&-eq-true, ==_iff, ==_refl, >>-eq-ok, >>=-eq-ok, All, All-append, AtLeast, AtMost, Bool,
  Bool-cases, Check, IsDigit, List, Option, Option-cases, Result, String, Text, [], ap, append-nil,
  append_assoc, arith, atoi, atoi-decimal, codes, contains, cut_byte, cut_prefix, decimal,
  decimal-cons, decimal-digits, drop, drop-length-append, err, fail_if, fail_if-eq-ok, false,
  fun_ext, get_elem?, has_prefix, has_suffix, if◌then◌else◌, in_int64, inl, inr, int_eq, int_eq_iff,
  int_gt, int_gt_iff, int_lt, int_lt_iff, is_empty, is_ok, is_ok_unit, is_space, itoa, leb, length,
  length-append, length-drop, length-take, ltb, map, map_err, min, ne_text_eq, negsuc, none, not,
  ok, ok-injective, parse_digits, parse_nat, pos, refl, replicate, reverse, some, subst, suc, sym,
  take, take-length-append, text_eq, text_eq_iff, text_eq_ne, text_eq_refl, to_lower, to_lower_byte,
  trim_left, trim_right, trim_space, true, zero, ||-eq-false, ℕ, ℤ, ◌%◌, ◌&&◌, ◌*◌, ◌++◌, ◌+◌, ◌-◌,
  ◌/◌, ◌<◌, ◌==◌, ◌>>=◌, ◌>>◌, ◌^◌, ◌||◌, ◌↔◌, ◌∙◌, ◌∷◌, ◌≡◌, ◌≢◌, ◌≤◌, ◌⊎◌,
}

pub record ConfigKeyMeta : Type 0 where
  pub key : Text
  pub requires_vm : Bool
  pub requires_reset : Bool
  pub writable : Bool

abbrev meta : String → Bool → Bool → Bool → ConfigKeyMeta
meta key requires_vm requires_reset writable = record {
  key = codes key;
  requires_vm = requires_vm;
  requires_reset = requires_reset;
  writable = writable;
}

-- ConfigKeyRegistry
unfoldable pub config_key_registry : List ConfigKeyMeta
config_key_registry =
    meta "arch" false false false
    ∷ meta "base-image-path" true false false
    ∷ meta "base-image-url" false true true
    ∷ meta "cloud-init-iso" false false false
    ∷ meta "cpus" false true false
    ∷ meta "disk-path" false false false
    ∷ meta "disk-size-gib" false true false
    ∷ meta "guest-image-version" true false false
    ∷ meta "gui" false true false
    ∷ meta "hostname" false true false
    ∷ meta "local-api-port" false true false
    ∷ meta "local-oidc-port" false true false
    ∷ meta "local-ssh-port" false true false
    ∷ meta "local-web-port" false true false
    ∷ meta "log-path" false false false
    ∷ meta "memory-gib" false true false
    ∷ meta "name" false false false
    ∷ meta "nested-virt" true false false
    ∷ meta "network-mode" false true false
    ∷ meta "pid" true false false
    ∷ meta "ssh-config-path" true false false
    ∷ meta "ssh-private-key-path" true false false
    ∷ meta "ssh-user" false false false
    ∷ meta "state-dir" false false false
    ∷ meta "use-hosted-guest-image" false false false
    ∷ meta "vm-dir" false false false
    ∷ []

-- ConfigKeyMetaMap, as a lookup; the keys are distinct.
unfoldable pub find_meta : Text → List ConfigKeyMeta → Option ConfigKeyMeta
find_meta k [] = none
find_meta k (m ∷ ms) = if text_eq m.key k then some m else find_meta k ms
