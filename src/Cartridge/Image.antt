-- ===== src/Cartridge/Image.antt =====
-- The images of cartridges: create, attach, convert and compact, and where a volume is mounted
-- (internal/cartridge/cartridge.go, and isMountpoint of cartridge_darwin.go).

pub mod CreatedPath
pub mod OutputPath
use bladerunner.Prelude.{
  &&-eq-true, ==_iff, ==_refl, >>-eq-ok, >>=-eq-ok, All, All-append, AtLeast, AtMost, Bool,
  Bool-cases, Check, IsDigit, List, Option, Option-cases, Result, String, Text, [], ap, append-nil,
  append_assoc, arith, atoi, atoi-decimal, codes, contains, cut_byte, cut_prefix, decimal,
  decimal-cons, decimal-digits, drop, drop-length-append, err, fail_if, fail_if-eq-ok, false,
  fun_ext, get_elem?, has_prefix, has_suffix, if◌then◌else◌, in_int64, inl, inr, int_eq, int_eq_iff,
  int_gt, int_gt_iff, int_lt, int_lt_iff, is_empty, is_ok, is_ok_unit, is_space, itoa, leb, length,
  length-append, length-drop, length-take, lines_onto, ltb, map, map_err, min, ne_text_eq, negsuc,
  none, not, ok, ok-injective, parse_digits, parse_nat, pos, refl, replicate, reverse, some,
  split_lines, subst, suc, sym, take, take-length-append, text_eq, text_eq_iff, text_eq_ne,
  text_eq_refl, to_lower, to_lower_byte, trim_left, trim_right, trim_space, true, zero, ||-eq-false,
  ℕ, ℤ, ◌%◌, ◌&&◌, ◌*◌, ◌++◌, ◌+◌, ◌-◌, ◌/◌, ◌<◌, ◌==◌, ◌>>=◌, ◌>>◌, ◌^◌, ◌||◌, ◌↔◌, ◌∙◌, ◌∷◌, ◌≡◌,
  ◌≢◌, ◌≤◌, ◌⊎◌,
}
use bladerunner.Prelude.FilePath
use bladerunner.Cartridge.{
  Output, Runs, Tool, CartridgeError, needs_mac, no_mountpoint, failed, Ended, wrap_hdiutil,
  create_args, attach_args, convert_args, compact_args, detach, sparse_ext, dmg_ext,
}

unfoldable pub one_later : Option ℕ → Option ℕ
one_later none = none
one_later (some n) = some (suc n)

-- Where a text first stands in another, as strings.Index, or none
unfoldable pub index : Text → Text → Option ℕ
unfolding has_prefix one_later
index [] p = if is_empty p then some 0 else none
index (c ∷ s) p = let rest = index s p in if has_prefix (c ∷ s) p then some 0 else one_later rest

unfoldable pub path_after : Text → Option ℕ → Option Text
unfolding trim_space
path_after line none = none
path_after line (some start) =
    let p = trim_space (drop (start + 8) line) in if is_empty p then none else some p

-- The path that one line of hdiutil's output names.
unfoldable pub created_path : Text → Option Text
unfolding path_after index to_lower trim_space
created_path raw =
    let line = trim_space raw in path_after line (index (to_lower line) (codes "created:"))

unfoldable pub or_next : Option Text → Option Text → Option Text
or_next (some p) next = some p
or_next none next = next

-- The path of the first line that names one.
unfoldable pub first_created : List Text → Option Text
unfolding created_path or_next
first_created [] = none
first_created (line ∷ rest) = or_next (created_path line) (first_created rest)

unfoldable pub with_extension : Text → Text → Text
unfolding has_suffix to_lower
with_extension requested want =
    if has_suffix (to_lower requested) want then requested else requested ++ want

unfoldable pub created_or : Text → Text → Option Text → Text
unfolding with_extension
created_or requested want none = with_extension requested want
created_or requested want (some p) = p

-- resolveOutputPath
unfoldable pub resolve_output_path : Text → Text → Text → Text
unfolding first_created split_lines created_or
resolve_output_path stdout requested want =
    created_or requested want (first_created (split_lines stdout))

-- What the functions ask of the operating system. `device` is the device of os.Lstat, where that
-- succeeds.
pub record Host : Type 0 where
  pub supported : Bool
  pub make_dirs : Text → Option Text
  pub eval_symlinks : Text → Option Text
  pub is_dir : Text → Bool
  pub stat_ok : Text → Bool
  pub device : Text → Option ℕ

pub record Mount : Type 0 where
  pub path : Text
  pub mountpoint : Text

unfoldable pub path_or_clean : Text → Option Text → Text
unfolding FilePath.clean
path_or_clean p none = FilePath.clean p
path_or_clean p (some resolved) = resolved

-- resolvePath
unfoldable pub resolve_path : Host → Text → Text
unfolding path_or_clean
resolve_path host p = path_or_clean p (host.eval_symlinks p)

unfoldable pub other_device : Host → Text → ℕ → Option ℕ → Bool
other_device host resolved own none = host.stat_ok resolved
other_device host resolved own (some parent) = not (own == parent)

unfoldable pub is_root_or_volume : Host → Text → Option ℕ → Bool
unfolding FilePath.dir other_device text_eq
is_root_or_volume host resolved none = false
is_root_or_volume host resolved (some own) =
    let parent = FilePath.dir resolved in
    if text_eq parent resolved then true else other_device host resolved own (host.device parent)

-- isMountpoint on darwin
unfoldable pub is_mountpoint : Host → Text → Bool
unfolding is_root_or_volume
is_mountpoint host resolved = is_root_or_volume host resolved (host.device resolved)

-- isAttached
unfoldable pub is_attached : Host → Text → Bool
unfolding resolve_path is_mountpoint
is_attached host mountpoint =
    let resolved = resolve_path host mountpoint in
    if host.is_dir resolved then is_mountpoint host resolved else false

-- One run of hdiutil: what `next` makes of it, or its failure under the name of the verb.
unfoldable pub run_result {ℓ} :
    {A : Type ℓ} → Text → (Output → A) → Output → Option Text → Result CartridgeError A
unfolding wrap_hdiutil
run_result verb next out none = ok (next out)
run_result verb next out (some cause) = err (failed (wrap_hdiutil verb cause out.stderr))

unfoldable pub run_once {ℓ} : {A : Type ℓ} → Tool → Text → List Text → (Output → A) → Runs → Ended A
unfolding run_result
run_once tool verb args next calls =
    let out = tool calls args in
    record { result = run_result verb next out out.fault; calls = args ∷ calls }

unfoldable pub create : Tool → Text → Text → ℤ → Runs → Ended Text
unfolding run_once create_args resolve_output_path
create tool path name size =
    run_once tool (codes "create") (create_args path name size)
      (λ (out : Output). resolve_output_path out.stdout path sparse_ext)

unfoldable pub attach_made : Host → Tool → Text → Text → Option Text → Runs → Ended Mount
unfolding run_once attach_args resolve_path
attach_made host tool path mountpoint (some cause) calls = record {
  result = err (no_mountpoint mountpoint cause);
  calls = calls;
}
attach_made host tool path mountpoint none calls =
    run_once tool (codes "attach") (attach_args path mountpoint)
      (λ (out : Output). record { path = path; mountpoint = resolve_path host mountpoint }) calls

unfoldable pub attach : Host → Tool → Text → Text → Runs → Ended Mount
unfolding attach_made
attach host tool path mountpoint = attach_made host tool path mountpoint (host.make_dirs mountpoint)

unfoldable pub convert : Tool → Text → Text → Text → Text → Runs → Ended Text
unfolding run_once convert_args resolve_output_path
convert tool src format dst want =
    run_once tool (codes "convert") (convert_args src format dst)
      (λ (out : Output). resolve_output_path out.stdout dst want)

unfoldable pub convert_to_dmg : Tool → Text → Text → Runs → Ended Text
unfolding convert
convert_to_dmg tool src dst = convert tool src (codes "UDZO") dst dmg_ext

unfoldable pub convert_to_sparse : Tool → Text → Text → Runs → Ended Text
unfolding convert
convert_to_sparse tool src dst = convert tool src (codes "UDSP") dst sparse_ext

unfoldable pub compact : Tool → Text → Runs → Ended (Unit {0})
unfolding run_once compact_args
compact tool path = run_once tool (codes "compact") (compact_args path) (λ (out : Output). tt)
