-- ===== src/BootStage/Tests.antt =====
-- A codec of states that reads back what it writes, some boots, and the theorem at one.
use bladerunner.Prelude.{
  All, List, Option, Text, [], if◌then◌else◌, negsuc, none, pos, refl, some, suc, zero, ℕ, ℤ, ◌==◌,
  ◌∷◌, ◌≡◌, ◌⊎◌,
}
use bladerunner.BootStage.{
  Stage, boot, setup, connect, incus, ready, failed, other, State, StateCodec, Event, begin, done,
  fail, vm_boot, incus_wait, new_publisher, on_events,
}
use bladerunner.BootStage.Furthest.{
  IsBehind, EventBehind, Occurs, writer, ReadsBack, IsShown, on_events-IsFurthest,
}

abbrev stage_code : Stage → Text
stage_code boot = 0 ∷ []
stage_code setup = 1 ∷ []
stage_code connect = 2 ∷ []
stage_code incus = 3 ∷ []
stage_code ready = 4 ∷ []
stage_code failed = 5 ∷ []
stage_code (other t) = 6 ∷ t

abbrev coded_stage : ℕ → Text → Stage
coded_stage c t =
    if c == 0
    then boot
    else if c == 1
    then setup
    else if c == 2
    then connect
    else if c == 3
    then incus
    else if c == 4
    then ready
    else if c == 5
    then failed
    else other t

abbrev encode_state : ℤ → Stage → Text
encode_state (pos n) s = 0 ∷ n ∷ stage_code s
encode_state (negsuc n) s = 1 ∷ n ∷ stage_code s

abbrev decode_state : Text → Option State
decode_state (zero ∷ n ∷ c ∷ t) = some (record { stage = coded_stage c t; updated_at = pos n })
decode_state (suc _ ∷ n ∷ c ∷ t) = some (record { stage = coded_stage c t; updated_at = negsuc n })
decode_state _ = none

abbrev codec : StateCodec
codec = record { marshal = λ s. some (encode_state s.updated_at s.stage); unmarshal = decode_state }

decode-encode_state :
    (t : ℤ) (s : Stage)
    → decode_state (encode_state t s) ≡ some (record { stage = s; updated_at = t })
decode-encode_state (pos n) boot = refl
decode-encode_state (pos n) setup = refl
decode-encode_state (pos n) connect = refl
decode-encode_state (pos n) incus = refl
decode-encode_state (pos n) ready = refl
decode-encode_state (pos n) failed = refl
decode-encode_state (pos n) (other t) = refl
decode-encode_state (negsuc n) boot = refl
decode-encode_state (negsuc n) setup = refl
decode-encode_state (negsuc n) connect = refl
decode-encode_state (negsuc n) incus = refl
decode-encode_state (negsuc n) ready = refl
decode-encode_state (negsuc n) failed = refl
decode-encode_state (negsuc n) (other t) = refl

abbrev clock : Stage → ℤ
clock _ = pos 5

codec-ReadsBack : ReadsBack codec clock
codec-ReadsBack s named = (encode_state (clock s) s, refl, decode-encode_state (clock s) s)

-- The events out of order: the late one does not set the stage back.
abbrev late : List Event
late = begin incus_wait ∷ done vm_boot ∷ []

late-stays :
    (on_events (writer codec clock) late (new_publisher (writer codec clock) none)).cur ≡ incus
unfolding on_events new_publisher
late-stays = refl

-- A failure is not the last stage: an event after it moves the publisher on.
failed-left :
    (on_events
      (writer codec clock)
      (fail vm_boot ∷ done vm_boot ∷ [])
      (new_publisher (writer codec clock) none)).cur
    ≡ setup
unfolding on_events new_publisher
failed-left = refl

on_events-IsFurthest_example :
    IsBehind boot
      (on_events (writer codec clock) late (new_publisher (writer codec clock) none)).cur
    × All
        (EventBehind
          (on_events (writer codec clock) late (new_publisher (writer codec clock) none)).cur)
        late
    × (((on_events (writer codec clock) late (new_publisher (writer codec clock) none)).cur ≡ boot)
        ⊎ Occurs
            (on_events (writer codec clock) late (new_publisher (writer codec clock) none)).cur
            late)
    × IsShown codec (on_events (writer codec clock) late (new_publisher (writer codec clock) none))
on_events-IsFurthest_example =
    on_events-IsFurthest codec clock late none codec-ReadsBack (tt, (tt, tt))
