-- ===== src/Cartridge.antt =====
-- Cartridge images (internal/cartridge/cartridge.go). hdiutil is a parameter, a `Tool`: what a run
-- gives may depend on the runs before it, the last one first. The waits between two runs are not
-- modelled.
pub mod Detach
pub mod Image
pub mod Mac
pub mod Pack
pub mod Boot
pub mod Tests
use bladerunner.Prelude.{
  &&-eq-true, ==_iff, ==_refl, >>-eq-ok, >>=-eq-ok, All, All-append, AtLeast, AtMost, Bool,
  Bool-cases, Check, IsDigit, List, Option, Option-cases, Result, String, Text, [], ap, append-nil,
  append_assoc, arith, atoi, atoi-decimal, codes, contains, cut_byte, cut_prefix, decimal,
  decimal-cons, decimal-digits, drop, drop-length-append, err, fail_if, fail_if-eq-ok, false,
  fun_ext, get_elem?, has_prefix, has_suffix, if◌then◌else◌, in_int64, inl, inr, int_eq, int_eq_iff,
  int_gt, int_gt_iff, int_lt, int_lt_iff, is_empty, is_ok, is_ok_unit, is_space, itoa, leb, length,
  length-append, length-drop, length-take, ltb, map, map_err, min, ne_text_eq, negsuc, none, not,
  ok, ok-injective, parse_digits, parse_nat, pos, refl, replicate, reverse, some, subst, suc, sym,
  take, take-length-append, text_eq, text_eq_iff, text_eq_ne, text_eq_refl, to_lower, to_lower_byte,
  trim_left, trim_right, trim_space, true, zero, ||-eq-false, ℕ, ℤ, ◌%◌, ◌&&◌, ◌*◌, ◌++◌, ◌+◌, ◌-◌,
  ◌/◌, ◌<◌, ◌==◌, ◌>>=◌, ◌>>◌, ◌^◌, ◌||◌, ◌↔◌, ◌∙◌, ◌∷◌, ◌≡◌, ◌≢◌, ◌≤◌, ◌⊎◌,
}

abbrev pub sparse_ext : Text
sparse_ext = codes ".sparseimage"

abbrev pub dmg_ext : Text
dmg_ext = codes ".dmg"

abbrev pub headroom_gib : ℕ
headroom_gib = 8

abbrev pub min_size_gib : ℕ
min_size_gib = headroom_gib + 2

abbrev pub detach_retries : ℕ
detach_retries = 3

-- `z + n` of an int that does not overflow
abbrev pub int_plus : ℤ → ℕ → ℤ
int_plus (pos a) n = pos (a + n)
int_plus (negsuc a) n = if ltb a n then pos (n - suc a) else negsuc (a - n)

-- SizeGiB
unfoldable pub size_gib : ℤ → ℤ
size_gib disk_size_gib =
    let size = int_plus disk_size_gib headroom_gib in
    if int_lt size min_size_gib then pos min_size_gib else size

unfoldable pub volume_name : Text → Text
volume_name name = codes "bladerunner-" ++ name

unfoldable pub create_args : Text → Text → ℤ → List Text
unfolding volume_name itoa
create_args path name size =
    codes "create"
    ∷ codes "-type"
    ∷ codes "SPARSE"
    ∷ codes "-fs"
    ∷ codes "APFS"
    ∷ codes "-volname"
    ∷ volume_name name
    ∷ codes "-size"
    ∷ (itoa size ++ codes "g")
    ∷ codes "-nospotlight"
    ∷ codes "-quiet"
    ∷ path
    ∷ []

unfoldable pub attach_args : Text → Text → List Text
attach_args path mountpoint =
    codes "attach"
    ∷ path
    ∷ codes "-mountpoint"
    ∷ mountpoint
    ∷ codes "-nobrowse"
    ∷ codes "-owners"
    ∷ codes "on"
    ∷ codes "-noverify"
    ∷ []

unfoldable pub detach_args : Text → Bool → List Text
detach_args mountpoint force =
    codes "detach" ∷ mountpoint ∷ (if force then codes "-force" ∷ [] else [])

unfoldable pub convert_args : Text → Text → Text → List Text
convert_args src format dst =
    codes "convert" ∷ src ∷ codes "-format" ∷ format ∷ codes "-o" ∷ dst ∷ codes "-quiet" ∷ []

unfoldable pub compact_args : Text → List Text
compact_args path = codes "compact" ∷ path ∷ codes "-quiet" ∷ []

-- What commandRunner.run returns; `fault` is the text of its error.
pub record Output : Type 0 where
  pub stdout : Text
  pub stderr : Text
  pub fault : Option Text

abbrev pub Runs : Type 0
Runs = List (List Text)

abbrev pub Tool : Type 0
Tool = Runs → List Text → Output

pub data CartridgeError : Type 0 where
  needs_mac : CartridgeError
  no_mountpoint : Text → Text → CartridgeError
  failed : Text → CartridgeError

-- What a function returns, and the runs up to then.
pub record Ended {ℓ} (A : Type ℓ) : Type ℓ where
  pub result : Result CartridgeError A
  pub calls : Runs

-- wrapHdiutil
unfoldable pub wrap_hdiutil : Text → Text → Text → Text
unfolding trim_space
wrap_hdiutil verb cause stderr =
    let trimmed = trim_space stderr in
    codes "hdiutil "
    ++ verb
    ++ codes ": "
    ++ cause
    ++ (if is_empty trimmed then [] else codes ": " ++ trimmed)

-- isBusy
unfoldable pub is_busy : Text → Bool
unfolding to_lower contains
is_busy stderr =
    let s = to_lower stderr in
    contains s (codes "resource busy") || contains s (codes "couldn't unmount")

-- isAlreadyDetached
unfoldable pub is_already_detached : Text → Bool
unfolding to_lower contains
is_already_detached stderr =
    let s = to_lower stderr in
    contains s (codes "no such file or directory")
    || contains s (codes "no such device")
    || contains s (codes "not currently mounted")

-- What one run that is not forced asks the loop to do.
pub data Verdict : Type 0 where
  released : Verdict
  broken : Text → Verdict
  busy : Text → Verdict

unfoldable pub verdict : Output → Option Text → Verdict
unfolding is_already_detached is_busy wrap_hdiutil
verdict out none = released
verdict out (some cause) =
    let message = wrap_hdiutil (codes "detach") cause out.stderr in
    if is_already_detached out.stderr
    then released
    else if is_busy out.stderr
    then busy message
    else broken message

unfoldable pub forced_result : Output → Option Text → Check CartridgeError
unfolding is_already_detached wrap_hdiutil
forced_result out none = ok tt
forced_result out (some cause) =
    if is_already_detached out.stderr
    then ok tt
    else err (failed (codes "force " ++ wrap_hdiutil (codes "detach") cause out.stderr))

-- The run behind the loop, with -force
unfoldable pub force_detach : Tool → Text → Runs → Ended (Unit {0})
unfolding forced_result detach_args
force_detach tool mountpoint calls =
    let out = tool calls (detach_args mountpoint true) in
    record { result = forced_result out out.fault; calls = detach_args mountpoint true ∷ calls }

-- The loop's answer to a verdict, where `retry` is what the rest of the loop gives.
unfoldable pub after_run : Verdict → Runs → Ended (Unit {0}) → Ended (Unit {0})
after_run released calls retry = record { result = ok tt; calls = calls }
after_run (broken message) calls retry = record { result = err (failed message); calls = calls }
after_run (busy message) calls retry = retry

unfoldable pub detach_loop : Tool → Text → ℕ → Runs → Ended (Unit {0})
unfolding force_detach after_run verdict detach_args
detach_loop tool mountpoint zero calls = force_detach tool mountpoint calls
detach_loop tool mountpoint (suc left) calls =
    let out = tool calls (detach_args mountpoint false) in
    let ran = detach_args mountpoint false ∷ calls in
    after_run (verdict out out.fault) ran (detach_loop tool mountpoint left ran)

-- detach, detachWithBackoff
unfoldable pub detach : Tool → Text → Runs → Ended (Unit {0})
unfolding detach_loop
detach tool mountpoint calls = detach_loop tool mountpoint (suc detach_retries) calls
