-- ===== src/Update.antt =====
-- Self-update: its last step, swapBundle (internal/update/install.go), in which the new application
-- takes the place of the old one. The directory is the bundle at each of the three paths;
-- os.RemoveAll removes a bundle whole.
pub mod Survives
pub mod Verify
pub mod Apply
pub mod Signed
pub mod Extract
pub mod Tests
use bladerunner.Prelude.{
  &&-eq-true, ==_iff, ==_refl, >>-eq-ok, >>=-eq-ok, All, All-append, AtLeast, AtMost, Bool,
  Bool-cases, Check, IsDigit, List, Option, Option-cases, Result, String, Text, [], ap, append-nil,
  append_assoc, arith, atoi, atoi-decimal, codes, contains, cut_byte, cut_prefix, decimal,
  decimal-cons, decimal-digits, drop, drop-length-append, err, fail_if, fail_if-eq-ok, false,
  fun_ext, get_elem?, has_prefix, has_suffix, if◌then◌else◌, in_int64, inl, inr, int_eq, int_eq_iff,
  int_gt, int_gt_iff, int_lt, int_lt_iff, is_empty, is_ok, is_ok_unit, is_space, itoa, leb, length,
  length-append, length-drop, length-take, ltb, map, map_err, min, ne_text_eq, negsuc, none, not,
  ok, ok-injective, parse_digits, parse_nat, pos, refl, replicate, reverse, some, subst, suc, sym,
  take, take-length-append, text_eq, text_eq_iff, text_eq_ne, text_eq_refl, to_lower, to_lower_byte,
  trim_left, trim_right, trim_space, true, zero, ||-eq-false, ℕ, ℤ, ◌%◌, ◌&&◌, ◌*◌, ◌++◌, ◌+◌, ◌-◌,
  ◌/◌, ◌<◌, ◌==◌, ◌>>=◌, ◌>>◌, ◌^◌, ◌||◌, ◌↔◌, ◌∙◌, ◌∷◌, ◌≡◌, ◌≢◌, ◌≤◌, ◌⊎◌,
}

pub record Bundles : Type 0 where
  pub dst : Option Text
  pub backup : Option Text
  pub staged : Option Text

-- Which calls of os.Rename succeed.
pub record Renames : Type 0 where
  pub aside : Bool
  pub install : Bool
  pub restore : Bool

pub data SwapError : Type 0 where
  move_aside_failed install_failed : SwapError

-- What the call returns, and the directory after each of its steps, the last one first.
pub record Swap : Type 0 where
  pub result : Check SwapError
  pub now : Bundles
  pub before : List Bundles

abbrev drop_backup : Bundles → Bundles
drop_backup b = record b { backup = none }

abbrev move_aside : Bundles → Bundles
move_aside b = record b { dst = none; backup = b.dst }

abbrev install : Bundles → Bundles
install b = record b { dst = b.staged; staged = none }

abbrev restore : Bundles → Bundles
restore b = record b { dst = b.backup; backup = none }

abbrev drop_dst : Bundles → Bundles
drop_dst b = record b { dst = none }

-- The deferred function, after a failure behind the move.
unfoldable pub undo : Renames → Bundles → List Bundles → Swap
undo r b past =
    if r.restore
    then record {
      result = err install_failed;
      now = restore (drop_dst b);
      before = drop_dst b ∷ b ∷ past;
    }
    else record { result = err install_failed; now = drop_dst b; before = b ∷ past }

unfoldable pub install_over : Renames → Bundles → List Bundles → Swap
unfolding undo
install_over r b past =
    if r.install
    then record { result = ok tt; now = drop_backup (install b); before = install b ∷ b ∷ past }
    else undo r b past

unfoldable pub install_fresh : Renames → Bundles → List Bundles → Swap
install_fresh r b past =
    if r.install
    then record { result = ok tt; now = install b; before = b ∷ past }
    else record { result = err install_failed; now = b; before = past }

unfoldable pub swap_at : Renames → Bundles → List Bundles → Option Text → Swap
unfolding install_over install_fresh
swap_at r b past none = install_fresh r b past
swap_at r b past (some _) =
    if r.aside
    then install_over r (move_aside b) (b ∷ past)
    else record { result = err move_aside_failed; now = b; before = past }

-- swapBundle
unfoldable pub swap_bundle : Renames → Bundles → Swap
unfolding swap_at
swap_bundle r b = swap_at r (drop_backup b) (b ∷ []) b.dst
