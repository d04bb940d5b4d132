-- ===== src/Cartridge/Detach.antt =====
-- The bounded retry of a detach.
use bladerunner.Prelude.{
  Bool-cases, Check, List, Option, Text, arith, codes, err, false, inl, inr, none, ok, refl,
  replicate, some, subst, suc, true, zero, ℕ, ◌++◌, ◌+◌, ◌<◌, ◌∷◌, ◌≡◌, ◌⊎◌,
}
use bladerunner.Cartridge.{
  Output, Runs, Tool, CartridgeError, failed, Ended, is_busy, is_already_detached, Verdict,
  released, broken, busy, wrap_hdiutil, verdict, detach_args, forced_result, force_detach,
  after_run, detach_loop, detach,
}

-- The run left no volume at the mountpoint: it succeeded, or there was none.
abbrev pub Releases : Output → Type 0
Releases out = (out.fault ≡ none) ⊎ (is_already_detached out.stderr ≡ true)

-- The run failed because the volume is in use.
abbrev pub WasBusy : Output → Type 0
WasBusy out =
    ((cause : Text) × (out.fault ≡ some cause))
    × (is_already_detached out.stderr ≡ false)
    × (is_busy out.stderr ≡ true)

abbrev pub IsBroken : Output → Type 0
IsBroken out =
    ((cause : Text) × (out.fault ≡ some cause))
    × (is_already_detached out.stderr ≡ false)
    × (is_busy out.stderr ≡ false)

-- What the verdict on a run says of it.
Says : Output → Verdict → Type 0
Says out released = Releases out
Says out (broken _) = IsBroken out
Says out (busy _) = WasBusy out

verdict-Says :
    (out : Output) (fault : Option Text) → out.fault ≡ fault → Says out (verdict out fault)
unfolding verdict Says
verdict-Says out none h = inl h
verdict-Says out (some cause) h = elim (Bool-cases (is_already_detached out.stderr)) [
  | inl gone ↦ (rw gone (inr gone))
  | inr there ↦ elim (Bool-cases (is_busy out.stderr)) [
    | inl held ↦ (rw there (rw held ((cause, h), there, held)))
    | inr free ↦ (rw there (rw free ((cause, h), there, free)))
  ]
]

-- A call ended as its last run did.
abbrev pub EndsAs : Output → Check CartridgeError → Type 0
EndsAs last result =
    (Releases last × (result ≡ ok tt))
    ⊎ (((cause : Text) × (last.fault ≡ some cause))
        × (is_already_detached last.stderr ≡ false)
        × ((message : Text) × (result ≡ err (failed message))))

forced_result-EndsAs :
    (out : Output) (fault : Option Text) → out.fault ≡ fault → EndsAs out (forced_result out fault)
unfolding forced_result
forced_result-EndsAs out none h = inl (inl h, refl)
forced_result-EndsAs out (some cause) h = elim (Bool-cases (is_already_detached out.stderr)) [
  | inl gone ↦ inl (inr gone, (rw gone refl))
  | inr there ↦ inr (
    (cause, h),
    there,
    (codes "force " ++ wrap_hdiutil (codes "detach") cause out.stderr, (rw there refl)),
  )
]

module _ (tool : Tool) (mountpoint : Text) (calls : Runs) where
  abbrev pub plain : List Text
  plain = detach_args mountpoint false

  abbrev pub forced : List Text
  forced = detach_args mountpoint true

  -- The runs up to the `n`-th plain one
  abbrev pub plain_runs : ℕ → Runs
  plain_runs n = replicate n plain ++ calls

  -- The first `n` plain runs found the volume in use.
  abbrev pub AllBusy : ℕ → Type 0
  AllBusy zero = Unit
  AllBusy (suc n) = WasBusy (tool (plain_runs n) plain) × AllBusy n

  -- The `n`-th run from 0, a plain one, was the last.
  abbrev pub StoppedAt : ℕ → Ended (Unit {0}) → Type 0
  StoppedAt n ended =
      AllBusy n
      × (Releases (tool (plain_runs n) plain) ⊎ IsBroken (tool (plain_runs n) plain))
      × (ended.calls ≡ plain ∷ plain_runs n)
      × EndsAs (tool (plain_runs n) plain) ended.result

  -- All `n` plain runs found the volume in use, and a forced one followed.
  abbrev pub ForcedAfter : ℕ → Ended (Unit {0}) → Type 0
  ForcedAfter n ended =
      AllBusy n
      × (ended.calls ≡ forced ∷ plain_runs n)
      × EndsAs (tool (plain_runs n) forced) ended.result

  Outcome : ℕ → Ended (Unit {0}) → Type 0
  Outcome limit ended = ((n : ℕ) × (n < limit) × StoppedAt n ended) ⊎ ForcedAfter limit ended

  after_run-Outcome :
      (done limit : ℕ) (v : Verdict) (rest : Ended (Unit {0}))
      → done < limit
      → AllBusy done
      → Says (tool (plain_runs done) plain) v
      → (AllBusy (suc done) → Outcome limit rest)
      → Outcome limit (after_run v (plain ∷ plain_runs done) rest)
  unfolding Says after_run Outcome
  after_run-Outcome done limit released rest lt held says next =
      inl (done, lt, (held, inl says, refl, inl (says, refl)))
  after_run-Outcome done limit (broken message) rest lt held says next =
      inl (done, lt, (held, inr says, refl, inr (says.0, says.1, (message, refl))))
  after_run-Outcome done limit (busy message) rest lt held says next = next (says, held)

  force_detach-Outcome :
      (done : ℕ) → AllBusy done → Outcome done (force_detach tool mountpoint (plain_runs done))
  unfolding force_detach Outcome
  force_detach-Outcome done held =
      let out = tool (plain_runs done) forced in
      inr (held, refl, forced_result-EndsAs out out.fault refl)

  detach_loop-Outcome :
      (left done limit : ℕ)
      → left + done ≡ limit
      → AllBusy done
      → Outcome limit (detach_loop tool mountpoint left (plain_runs done))
  unfolding detach_loop
  detach_loop-Outcome zero done limit e held =
      subst (λ (n : ℕ). Outcome n (force_detach tool mountpoint (plain_runs done))) (omega arith)
        (force_detach-Outcome done held)
  detach_loop-Outcome (suc left) done limit e held =
      let out = tool (plain_runs done) plain in
      after_run-Outcome done limit (verdict out out.fault)
        (detach_loop tool mountpoint left (plain_runs (suc done))) (omega arith) held
        (verdict-Says out out.fault refl)
        (λ more. detach_loop-Outcome left (suc done) limit (omega arith) more)

-- A detach runs hdiutil at most five times, whatever hdiutil answers. Either one of the first four
-- runs, which are not forced, finds the volume gone or fails for a reason other than a volume in
-- use, and it is the last; all before it found the volume in use. Or all four found it in use, and
-- a fifth one with -force is the last. The call succeeds exactly if its last run succeeded or
-- found no volume.
pub detach-Outcome :
    (tool : Tool) (mountpoint : Text) (calls : Runs)
    → ((n : ℕ) × (n < 4) × StoppedAt tool mountpoint calls n (detach tool mountpoint calls))
      ⊎ ForcedAfter tool mountpoint calls 4 (detach tool mountpoint calls)
unfolding detach Outcome
detach-Outcome tool mountpoint calls = detach_loop-Outcome tool mountpoint calls 4 0 4 refl tt

Releases-no_fault :
    (out : Output) (cause : Text)
    → Releases out
    → out.fault ≡ some cause
    → is_already_detached out.stderr ≡ false
    → ⊥
Releases-no_fault out cause (inl h) e f = cc
Releases-no_fault out cause (inr h) e f = cc

ends_ok : (out : Output) (r : Check CartridgeError) → EndsAs out r → Releases out → r ≡ ok tt
ends_ok out r (inl (h, e)) k = e
ends_ok out r (inr ((cause, e), f, m)) k = absurd (Releases-no_fault out cause k e f)

not_broken : (out : Output) → Releases out ⊎ WasBusy out → IsBroken out → ⊥
not_broken out (inl h) ((cause, e), f, b) = Releases-no_fault out cause h e f
not_broken out (inr (h, k, held)) ((cause, e), f, b) = cc

-- Where every plain run finds the volume gone or in use, and every forced run finds or leaves it
-- gone, a detach succeeds.
pub detach-Releases :
    (tool : Tool) (mountpoint : Text) (calls : Runs)
    → ((past : Runs)
        → Releases (tool past (detach_args mountpoint false))
          ⊎ WasBusy (tool past (detach_args mountpoint false)))
    → ((past : Runs) → Releases (tool past (detach_args mountpoint true)))
    → (detach tool mountpoint calls).result ≡ ok tt
detach-Releases tool mountpoint calls soft hard = elim (detach-Outcome tool mountpoint calls) [
  | inl (n, lt, stop) ↦
      let out = tool (plain_runs tool mountpoint calls n) (detach_args mountpoint false) in
      elim stop.1 [
        | inl gone ↦ ends_ok out (detach tool mountpoint calls).result stop.3 gone
        | inr bad ↦ absurd (not_broken out (soft (plain_runs tool mountpoint calls n)) bad)
      ]
  | inr end ↦
      ends_ok (tool (plain_runs tool mountpoint calls 4) (detach_args mountpoint true))
        (detach tool mountpoint calls).result end.2 (hard (plain_runs tool mountpoint calls 4))
]
