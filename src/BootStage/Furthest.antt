-- ===== src/BootStage/Furthest.antt =====
-- What the publisher shows after the events of a boot.
use bladerunner.Prelude.{
  All, Bool-cases, List, Option, Text, [], ap, arith, false, inl, inr, negsuc, none, pos, refl,
  some, subst, sym, true, ℤ, ◌∙◌, ◌∷◌, ◌≡◌, ◌⊎◌,
}
use bladerunner.BootStage.{
  Stage, boot, setup, connect, incus, ready, failed, other, rank, State, StateCodec, WriteSteps,
  StageFile, write_text, write_stage, is_blank, live, read_text, Event, begin, substatus, done,
  fail, event_stage, int_leb, is_failed, Publisher, Writer, advance, advance_to, on_event,
  new_publisher, on_events, vm_boot, incus_wait, unknown_stage,
}

abbrev pub IsBehind : Stage → Stage → Type 0
IsBehind a b = int_leb (rank a) (rank b) ≡ true

int_leb_refl : (a : ℤ) → int_leb a a ≡ true
int_leb_refl (pos a) = ground arith
int_leb_refl (negsuc a) = ground arith

int_leb_trans : (a b c : ℤ) → int_leb a b ≡ true → int_leb b c ≡ true → int_leb a c ≡ true
int_leb_trans (pos a) (pos b) (pos c) h k = ground arith
int_leb_trans (pos a) (pos b) (negsuc c) h k = cc
int_leb_trans (pos a) (negsuc b) c h k = cc
int_leb_trans (negsuc a) b (pos c) h k = refl
int_leb_trans (negsuc a) (pos b) (negsuc c) h k = cc
int_leb_trans (negsuc a) (negsuc b) (negsuc c) h k = ground arith

int_leb-total : (a b : ℤ) → int_leb a b ≡ false → int_leb b a ≡ true
int_leb-total (pos a) (pos b) h = ground arith
int_leb-total (pos a) (negsuc b) h = refl
int_leb-total (negsuc a) (pos b) h = cc
int_leb-total (negsuc a) (negsuc b) h = ground arith

-- The event does not report a failure.
abbrev pub NoFailure : Event → Type 0
NoFailure (fail _) = ⊥
NoFailure _ = Unit

-- A stage of an event is not after the stage.
abbrev BehindOption : Stage → Option Stage → Type 0
BehindOption s none = Unit
BehindOption s (some t) = IsBehind t s

abbrev pub EventBehind : Stage → Event → Type 0
EventBehind s e = BehindOption s (event_stage e)

-- Some event is that of the stage.
abbrev pub Occurs : Stage → List Event → Type 0
Occurs s [] = ⊥
Occurs s (e ∷ es) = (event_stage e ≡ some s) ⊎ Occurs s es

-- The stages that the code names
abbrev pub IsNamed : Stage → Type 0
IsNamed (other _) = ⊥
IsNamed _ = Unit

-- The stages that events without a failure advance to
abbrev IsPlain : Option Stage → Type 0
IsPlain none = Unit
IsPlain (some s) = (is_failed s ≡ false) × IsNamed s

event-IsPlain : (e : Event) → NoFailure e → IsPlain (event_stage e)
unfolding event_stage
event-IsPlain (begin vm_boot) h = (refl, tt)
event-IsPlain (begin incus_wait) h = (refl, tt)
event-IsPlain (begin (unknown_stage t)) h = tt
event-IsPlain (substatus s) h = tt
event-IsPlain (done vm_boot) h = (refl, tt)
event-IsPlain (done incus_wait) h = tt
event-IsPlain (done (unknown_stage t)) h = tt
event-IsPlain (fail s) h = absurd h

-- One step of the publisher to a stage that is no failure
module _ (write : Writer) (p : Publisher) where
  Advanced : Option Stage → Publisher → Type 0
  Advanced o q =
      IsBehind p.cur q.cur
      × BehindOption q.cur o
      × ((q ≡ p)
          ⊎ ((to : Stage) × (o ≡ some to) × (q ≡ record { cur = to; file = write to p.file })))

  advance-Advanced : (to : Stage) → is_failed to ≡ false → Advanced (some to) (advance write to p)
  unfolding advance Advanced
  advance-Advanced to h = elim (Bool-cases (int_leb (rank to) (rank p.cur))) [
    | inl behind ↦ (rw h (rw behind (int_leb_refl (rank p.cur), behind, inl refl)))
    | inr ahead ↦
        (rw h (
          rw ahead (
            int_leb-total (rank to) (rank p.cur) ahead,
            int_leb_refl (rank to),
            inr (to, refl, refl),
          )))
  ]

  advance_to-Advanced : (o : Option Stage) → IsPlain o → Advanced o (advance_to write o p)
  unfolding advance_to Advanced
  advance_to-Advanced none h = (int_leb_refl (rank p.cur), tt, inl refl)
  advance_to-Advanced (some to) h = advance-Advanced to h.0

abbrev pub all_steps : WriteSteps
all_steps = record { create_temp = true; write_temp = true; close_temp = true; rename_temp = true }

-- Write, where no step fails, at the time that a clock tells for each stage
abbrev pub writer : StateCodec → (Stage → ℤ) → Writer
writer codec now s file = (write_stage codec all_steps s (now s) file).file

-- The codec reads back the named stages that are written, at the times of the clock.
abbrev pub ReadsBack : StateCodec → (Stage → ℤ) → Type 0
ReadsBack codec now =
    (s : Stage)
    → IsNamed s
    → (text : Text) × (codec.marshal (record { stage = s; updated_at = now s }) ≡ some text)
      × (codec.unmarshal text ≡ some (record { stage = s; updated_at = now s }))

-- A reader of the file is shown the publisher's stage.
abbrev pub IsShown : StateCodec → Publisher → Type 0
IsShown codec p =
    (t : ℤ) × (read_text codec p.file ≡ some (record { stage = p.cur; updated_at = t }))

named_blank : (s : Stage) → IsNamed s → is_blank s ≡ false
named_blank boot h = refl
named_blank setup h = refl
named_blank connect h = refl
named_blank incus h = refl
named_blank ready h = refl
named_blank failed h = refl
named_blank (other t) h = absurd h

live-some : (s : State) → is_blank s.stage ≡ false → live (some s) ≡ some s
unfolding live
live-some s h = (rw h refl)

module _ (codec : StateCodec) (now : Stage → ℤ) (trips : ReadsBack codec now) where
  write-IsShown :
      (s : Stage) (file : StageFile)
      → IsNamed s
      → IsShown codec (record { cur = s; file = writer codec now s file })
  unfolding write_stage write_text read_text live
  write-IsShown s file h =
      let (text, e, d) = trips s h in
      (
        now s,
        ap (λ (o : Option Text). read_text codec (write_text all_steps o file).file) e
            ∙ ap live d
            ∙ live-some (record { stage = s; updated_at = now s }) (named_blank s h),
      )

  step-IsShown :
      (p q : Publisher) (o : Option Stage)
      → IsPlain o
      → Advanced (writer codec now) p o q
      → IsShown codec p
      → IsShown codec q
  unfolding Advanced
  step-IsShown p q o plain (up, behind, inl e) shown = subst (IsShown codec) (sym e) shown
  step-IsShown p q none plain (up, behind, inr (to, e, f)) shown = cc
  step-IsShown p q (some s) plain (up, behind, inr (to, e, f)) shown =
      let same : s ≡ to = cc in
      subst (IsShown codec) (sym f)
        (write-IsShown to p.file (subst (λ (k : Stage). IsNamed k) same plain.1))

  -- What holds of a publisher before and after some events
  Reached : Publisher → List Event → Publisher → Type 0
  Reached p es q =
      IsBehind p.cur q.cur
      × All (EventBehind q.cur) es
      × ((q.cur ≡ p.cur) ⊎ Occurs q.cur es)
      × IsShown codec q

  behind_later :
      (o : Option Stage) (s t : Stage) → BehindOption s o → IsBehind s t → BehindOption t o
  behind_later none s t h k = tt
  behind_later (some a) s t h k = int_leb_trans (rank a) (rank s) (rank t) h k

  stage_of_step :
      (p q : Publisher) (o : Option Stage)
      → Advanced (writer codec now) p o q
      → (q.cur ≡ p.cur) ⊎ (o ≡ some q.cur)
  unfolding Advanced
  stage_of_step p q o (up, behind, inl e) = inl (ap (λ (x : Publisher). x.cur) e)
  stage_of_step p q o (up, behind, inr (to, e, f)) =
      inr (e ∙ ap some (sym (ap (λ (x : Publisher). x.cur) f)))

  cons-Reached :
      (e : Event) (es : List Event) (p q r : Publisher)
      → Advanced (writer codec now) p (event_stage e) q
      → Reached q es r
      → Reached p (e ∷ es) r
  unfolding Advanced Reached
  cons-Reached e es p q r step (up, behind, from, shown) = (
    int_leb_trans (rank p.cur) (rank q.cur) (rank r.cur) step.0 up,
    (behind_later (event_stage e) q.cur r.cur step.1 up, behind),
    elim from [
      | inr later ↦ inr (inr later)
      | inl same ↦ elim (stage_of_step p q (event_stage e) step) [
        | inl kept ↦ inl (same ∙ kept)
        | inr now ↦ inr (inl (now ∙ ap some (sym same)))
      ]
    ],
    shown,
  )

  on_events-Reached :
      (es : List Event) (p : Publisher)
      → All NoFailure es
      → IsShown codec p
      → Reached p es (on_events (writer codec now) es p)
  unfolding on_events on_event Reached
  on_events-Reached [] p h shown = (int_leb_refl (rank p.cur), tt, inl refl, shown)
  on_events-Reached (e ∷ es) p h shown =
      let q = on_event (writer codec now) e p in
      let plain = event-IsPlain e h.0 in
      let step = advance_to-Advanced (writer codec now) p (event_stage e) plain in
      cons-Reached e es p q (on_events (writer codec now) es q) step
        (on_events-Reached es q h.1 (step-IsShown p q (event_stage e) plain step shown))

-- Over the events of a boot, none of which reports a failure, where every write of the file works
-- and the named stages are read back at the times of the writes: in the end the publisher's stage is that of the start or of one of the events,
-- no event's stage is after it, in whatever order the events came, and it is the stage that a
-- reader of the file is shown.
pub on_events-IsFurthest :
    (codec : StateCodec) (now : Stage → ℤ) (es : List Event) (file : StageFile)
    → ReadsBack codec now
    → All NoFailure es
    → IsBehind boot (on_events (writer codec now) es (new_publisher (writer codec now) file)).cur
      × All
          (EventBehind
            (on_events (writer codec now) es (new_publisher (writer codec now) file)).cur)
          es
      × (((on_events (writer codec now) es (new_publisher (writer codec now) file)).cur ≡ boot)
          ⊎ Occurs (on_events (writer codec now) es (new_publisher (writer codec now) file)).cur es)
      × IsShown codec (on_events (writer codec now) es (new_publisher (writer codec now) file))
unfolding new_publisher advance Reached
on_events-IsFurthest codec now es file trips h =
    on_events-Reached codec now trips es (new_publisher (writer codec now) file) h
      (write-IsShown codec now trips boot file tt)
