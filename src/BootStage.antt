-- ===== src/BootStage.antt =====
-- The coarse phase of a boot (internal/bootstage/bootstage.go) and its publisher, which the runner's
-- progress events drive (bootStagePublisher and bootStageProgress of cmd/bladerunner/start.go).
-- encoding/json is a parameter.
pub mod Furthest
pub mod Tests
use bladerunner.Prelude.{
  &&-eq-true, ==_iff, ==_refl, >>-eq-ok, >>=-eq-ok, All, All-append, AtLeast, AtMost, Bool,
  Bool-cases, Check, IsDigit, List, Option, Option-cases, Result, String, Text, [], ap, append-nil,
  append_assoc, arith, atoi, atoi-decimal, codes, contains, cut_byte, cut_prefix, decimal,
  decimal-cons, decimal-digits, drop, drop-length-append, err, fail_if, fail_if-eq-ok, false,
  fun_ext, get_elem?, has_prefix, has_suffix, if◌then◌else◌, in_int64, inl, inr, int_eq, int_eq_iff,
  int_gt, int_gt_iff, int_lt, int_lt_iff, is_empty, is_ok, is_ok_unit, is_space, itoa, leb, length,
  length-append, length-drop, length-take, ltb, map, map_err, min, ne_text_eq, negsuc, none, not,
  ok, ok-injective, parse_digits, parse_nat, pos, refl, replicate, reverse, some, subst, suc, sym,
  take, take-length-append, text_eq, text_eq_iff, text_eq_ne, text_eq_refl, to_lower, to_lower_byte,
  trim_left, trim_right, trim_space, true, zero, ||-eq-false, ℕ, ℤ, ◌%◌, ◌&&◌, ◌*◌, ◌++◌, ◌+◌, ◌-◌,
  ◌/◌, ◌<◌, ◌==◌, ◌>>=◌, ◌>>◌, ◌^◌, ◌||◌, ◌↔◌, ◌∙◌, ◌∷◌, ◌≡◌, ◌≢◌, ◌≤◌, ◌⊎◌,
}

-- The constants of type Stage, and any other text that a file may hold
pub data Stage : Type 0 where
  boot setup connect incus ready failed : Stage
  other : Text → Stage

-- Rank
unfoldable pub rank : Stage → ℤ
rank boot = pos 0
rank setup = pos 1
rank connect = pos 2
rank incus = pos 3
rank ready = pos 4
rank failed = negsuc 0
rank (other _) = negsuc 0

unfoldable pub message : Stage → String
message boot = "Booting Linux…"
message setup = "Setting up…"
message connect = "Connecting…"
message incus = "Starting Incus…"
message ready = "Ready"
message failed = "Boot failed — check logs"
message (other _) = "Starting…"

-- `State`, with the time in nanoseconds
pub record State : Type 0 where
  pub stage : Stage
  pub updated_at : ℤ

pub record StateCodec : Type 0 where
  pub marshal : State → Option Text
  pub unmarshal : Text → Option State

-- Which steps of Write succeed.
pub record WriteSteps : Type 0 where
  pub create_temp : Bool
  pub write_temp : Bool
  pub close_temp : Bool
  pub rename_temp : Bool

pub data WriteError : Type 0 where
  marshal_failed create_failed temp_write_failed temp_close_failed rename_failed : WriteError

-- The boot-stage file, none where there is none that can be read
abbrev pub StageFile : Type 0
StageFile = Option Text

pub record Written : Type 0 where
  pub result : Check WriteError
  pub file : StageFile

unfoldable pub write_text : WriteSteps → Option Text → StageFile → Written
write_text steps none old = record { result = err marshal_failed; file = old }
write_text steps (some text) old =
    if not steps.create_temp
    then record { result = err create_failed; file = old }
    else if not steps.write_temp
    then record { result = err temp_write_failed; file = old }
    else if not steps.close_temp
    then record { result = err temp_close_failed; file = old }
    else if not steps.rename_temp
    then record { result = err rename_failed; file = old }
    else record { result = ok tt; file = some text }

-- Write. A temporary file that is not renamed is removed.
unfoldable pub write_stage : StateCodec → WriteSteps → Stage → ℤ → StageFile → Written
unfolding write_text
write_stage codec steps stage now old =
    write_text steps (codec.marshal (record { stage = stage; updated_at = now })) old

abbrev pub is_blank : Stage → Bool
is_blank (other []) = true
is_blank _ = false

unfoldable pub live : Option State → Option State
live none = none
live (some s) = if is_blank s.stage then none else some s

-- Read
unfoldable pub read_text : StateCodec → StageFile → Option State
unfolding live
read_text codec none = none
read_text codec (some text) = live (codec.unmarshal text)

-- The stages of the runner (internal/vm/progress.go)
pub data RunnerStage : Type 0 where
  vm_boot incus_wait : RunnerStage
  unknown_stage : Text → RunnerStage

-- A call of the progress sink
pub data Event : Type 0 where
  begin substatus done fail : RunnerStage → Event

-- The stage that an event advances to, if any
unfoldable pub event_stage : Event → Option Stage
event_stage (begin vm_boot) = some boot
event_stage (begin incus_wait) = some incus
event_stage (begin (unknown_stage _)) = none
event_stage (substatus _) = none
event_stage (done vm_boot) = some setup
event_stage (done incus_wait) = none
event_stage (done (unknown_stage _)) = none
event_stage (fail _) = some failed

-- `a <= b`
abbrev pub int_leb : ℤ → ℤ → Bool
int_leb (pos a) (pos b) = leb a b
int_leb (pos a) (negsuc b) = false
int_leb (negsuc a) (pos b) = true
int_leb (negsuc a) (negsuc b) = leb b a

abbrev pub is_failed : Stage → Bool
is_failed failed = true
is_failed _ = false

pub record Publisher : Type 0 where
  pub cur : Stage
  pub file : StageFile

-- What Write does with the file for a stage: the steps and the time of that call
abbrev pub Writer : Type 0
Writer = Stage → StageFile → StageFile

-- advance
unfoldable pub advance : Writer → Stage → Publisher → Publisher
unfolding rank
advance write to p =
    if not (is_failed to) && int_leb (rank to) (rank p.cur)
    then p
    else record { cur = to; file = write to p.file }

unfoldable pub advance_to : Writer → Option Stage → Publisher → Publisher
unfolding advance
advance_to write none p = p
advance_to write (some to) p = advance write to p

-- Begin, Substatus, Done, Fail
unfoldable pub on_event : Writer → Event → Publisher → Publisher
unfolding advance_to event_stage
on_event write e p = advance_to write (event_stage e) p

-- newBootStagePublisher
unfoldable pub new_publisher : Writer → StageFile → Publisher
unfolding advance
new_publisher write file = advance write boot (record { cur = other []; file = file })

-- The events of a boot, in order
unfoldable pub on_events : Writer → List Event → Publisher → Publisher
unfolding on_event
on_events write [] p = p
on_events write (e ∷ es) p = on_events write es (on_event write e p)
