-- ===== src/Stop/Honest.antt =====
-- What a stop that returns has done.
use bladerunner.Prelude.{
  Bool, Bool-cases, Check, List, Option, Text, [], ap, arith, err, false, if◌then◌else◌, inl, inr,
  int_gt, is_ok, not, ok, refl, subst, suc, true, zero, ℕ, ℤ, ◌*◌, ◌+◌, ◌<◌, ◌∙◌, ◌∷◌, ◌≡◌, ◌≤◌,
  ◌⊎◌,
}
use bladerunner.Stop.{
  Signal, sigterm, sigkill, HostWorld, socket_interval, process_interval, sigterm_grace,
  sigkill_grace, Waited, wait_gone, sleeps, wait_for_socket_gone, wait_for_process_gone, timed_out,
  gracefully, by_signal, StopOutcome, after_sigkill, after_sigterm, force_terminate, read_host_pid,
  graceful_wait, after_grace, after_request, run_stop,
}

-- A wait says what is so at its end, which is in time.
wait_gone-true :
    (present : ℕ → Bool) (interval now n : ℕ)
    → present (wait_gone present interval now n).at ≡ not (wait_gone present interval now n).gone
unfolding wait_gone
wait_gone-true present interval now zero = ground arith
wait_gone-true present interval now (suc n) = elim (Bool-cases (present now)) [
  | inl there ↦ (rw there (wait_gone-true present interval (now + interval) n))
  | inr gone ↦ (rw gone gone)
]

wait_gone-in_time :
    (present : ℕ → Bool) (interval now n : ℕ)
    → (wait_gone present interval now n).at ≤ now + n * interval
unfolding wait_gone
wait_gone-in_time present interval now zero = omega arith
wait_gone-in_time present interval now (suc n) = elim (Bool-cases (present now)) [
  | inl there ↦ (rw there (grind (arith, wait_gone-in_time present interval (now + interval) n)))
  | inr gone ↦ (rw gone (grind arith))
]

wait_gone-patient :
    (present : ℕ → Bool) (interval now n : ℕ)
    → (wait_gone present interval now n).gone ≡ false
    → (wait_gone present interval now n).at ≡ now + n * interval
unfolding wait_gone
wait_gone-patient present interval now zero h = omega arith
wait_gone-patient present interval now (suc n) h = elim (Bool-cases (present now)) [
  | inl there ↦
      (let k = rw there at h in
        rw there (grind (arith, wait_gone-patient present interval (now + interval) n k)))
  | inr gone ↦ (let k = rw gone at h in cc)
]

-- What the result says is so at the end.
abbrev pub IsTrue : HostWorld → StopOutcome → Type 0
IsTrue w o =
    ((o.result ≡ ok gracefully) × (o.signals ≡ []) × (w.socket [] o.at ≡ false))
    ⊎ ((s : Signal) × (past : List Signal) × (o.result ≡ ok (by_signal s))
        × (o.signals ≡ s ∷ past)
        × (w.alive o.signals o.at ≡ false))
    ⊎ (is_ok o.result ≡ false)

-- The process was sent a signal with cause: forced, its number known, the socket there after the
-- wait; and the second one only with the process alive when the first had its time.
abbrev pub HadCause : HostWorld → Bool → ℤ → ℕ → StopOutcome → Type 0
HadCause w force pid wait o =
    (force ≡ true)
    × (int_gt pid 0 ≡ true)
    × ((t : ℕ) × (wait ≤ t)
        × (w.socket [] t ≡ true)
        × ((o.signals ≡ sigterm ∷ [])
            ⊎ ((o.signals ≡ sigkill ∷ sigterm ∷ [])
                × (w.alive (sigterm ∷ []) (t + sigterm_grace) ≡ true))))

abbrev pub IsHonest : HostWorld → Bool → ℤ → ℕ → StopOutcome → Type 0
IsHonest w force pid wait o =
    IsTrue w o
    × ((o.signals ≡ []) ⊎ HadCause w force pid wait o)
    × (o.at < wait + 500 + sigterm_grace + sigkill_grace)

-- The part of a stop from a time on at which the socket was there
abbrev Forced : HostWorld → ℕ → StopOutcome → Type 0
Forced w t o =
    IsTrue w o
    × ((o.signals ≡ sigterm ∷ [])
        ⊎ ((o.signals ≡ sigkill ∷ sigterm ∷ [])
            × (w.alive (sigterm ∷ []) (t + sigterm_grace) ≡ true)))
    × (o.at ≤ t + sigterm_grace + sigkill_grace)

after_sigkill-IsTrue :
    (w : HostWorld) (t : Waited)
    → w.alive (sigkill ∷ sigterm ∷ []) t.at ≡ not t.gone
    → IsTrue w (after_sigkill t)
      × ((after_sigkill t).signals ≡ sigkill ∷ sigterm ∷ [])
      × ((after_sigkill t).at ≡ t.at)
unfolding after_sigkill
after_sigkill-IsTrue w t h = elim (Bool-cases t.gone) [
  | inl gone ↦
      (rw gone (inr (inl (sigkill, (sigterm ∷ []), refl, refl, (h ∙ ap not gone))), refl, refl))
  | inr there ↦ (rw there (inr (inr refl), refl, refl))
]

after_sigterm-Forced :
    (w : HostWorld) (now : ℕ) (t : Waited)
    → w.alive (sigterm ∷ []) t.at ≡ not t.gone
    → t.at ≤ now + sigterm_grace
    → (t.gone ≡ false → t.at ≡ now + sigterm_grace)
    → Forced w now (after_sigterm w t)
unfolding after_sigterm wait_for_process_gone
after_sigterm-Forced w now t h le full = elim (Bool-cases t.gone) [
  | inl gone ↦
      (rw gone (inr (inl (sigterm, [], refl, refl, (h ∙ ap not gone))), inl refl, omega arith))
  | inr there ↦
      (let sent = sigkill ∷ sigterm ∷ [] in
        let v =
          wait_gone (w.alive sent) process_interval t.at (sleeps sigkill_grace process_interval) in
        let late =
          wait_gone-in_time (w.alive sent) process_interval t.at
            (sleeps sigkill_grace process_interval) in
        let (honest, signals, at) = after_sigkill-IsTrue w v (
          wait_gone-true (w.alive sent) process_interval t.at
            (sleeps sigkill_grace process_interval)) in
        rw there (
          honest,
          inr (
            signals,
            subst (λ (k : ℕ). w.alive (sigterm ∷ []) k ≡ true) (full there) (h ∙ ap not there),
          ),
          omega arith,
        ))
]

force_terminate-IsHonest :
    (w : HostWorld) (pid : ℤ) (wait now : ℕ)
    → wait ≤ now
    → now < wait + 500
    → w.socket [] now ≡ true
    → IsHonest w true pid wait (force_terminate w pid now)
unfolding force_terminate wait_for_process_gone
force_terminate-IsHonest w pid wait now from to there = elim (Bool-cases (int_gt pid 0)) [
  | inl known ↦
      (let sent = sigterm ∷ [] in
        let n = sleeps sigterm_grace process_interval in
        let (honest, signals, late) =
          after_sigterm-Forced w now (wait_gone (w.alive sent) process_interval now n)
            (wait_gone-true (w.alive sent) process_interval now n)
            (wait_gone-in_time (w.alive sent) process_interval now n)
            (wait_gone-patient (w.alive sent) process_interval now n) in
        rw known (honest, inr (refl, refl, (now, from, there, signals)), omega arith))
  | inr unknown ↦ (rw unknown (inr (inr refl), inl refl, omega arith))
]

after_grace-IsHonest :
    (w : HostWorld) (force : Bool) (pid : ℤ) (wait : ℕ) (t : Waited)
    → w.socket [] t.at ≡ not t.gone
    → t.at < wait + 500
    → (t.gone ≡ false → wait ≤ t.at)
    → IsHonest w force pid wait (after_grace w force pid t)
unfolding after_grace
after_grace-IsHonest w force pid wait t h lt full = elim (Bool-cases t.gone) [
  | inl gone ↦ (rw gone (inl (refl, refl, (h ∙ ap not gone)), inl refl, omega arith))
  | inr there ↦ (rw there (forced force there))
]
  where
    forced :
        (f : Bool)
        → t.gone ≡ false
        → IsHonest w f pid wait (
            if not f
            then record { result = err timed_out; signals = []; at = t.at; socket_removed = false }
            else force_terminate w pid t.at)
    forced false there = (inr (inr refl), inl refl, omega arith)
    forced true there = force_terminate-IsHonest w pid wait t.at (full there) lt (h ∙ ap not there)

waited-IsHonest :
    (w : HostWorld) (force : Bool) (pid : ℤ) (wait : ℕ)
    → IsHonest w force pid wait (after_grace w force pid (wait_for_socket_gone w [] 0 wait))
unfolding wait_for_socket_gone
waited-IsHonest w force pid wait =
    let n = sleeps wait socket_interval in
    let late = wait_gone-in_time (w.socket []) socket_interval 0 n in
    after_grace-IsHonest w force pid wait (wait_gone (w.socket []) socket_interval 0 n)
      (wait_gone-true (w.socket []) socket_interval 0 n) (omega arith)
      (λ h. let full = wait_gone-patient (w.socket []) socket_interval 0 n h in omega arith)

after_request-IsHonest :
    (w : HostWorld) (request : Check Text) (force : Bool) (pid : ℤ) (wait : ℕ)
    → IsHonest w force pid wait (after_request w request force pid wait)
unfolding after_request
after_request-IsHonest w (err e) false pid wait = (inr (inr refl), inl refl, omega arith)
after_request-IsHonest w (err e) true pid wait = waited-IsHonest w true pid wait
after_request-IsHonest w (ok _) force pid wait = waited-IsHonest w force pid wait

-- Whatever the guest does, a stop ends less than a sleep of half a second after its graceful wait
-- and the two waits of a forced stop. It reports a graceful stop only if the socket has gone
-- without a signal, and a forced one only if the process has gone after the signal that it names.
-- It sends a signal only if forced, to a process whose number is known, with the socket still
-- there when the graceful wait was over; and SIGKILL only after SIGTERM, with the process alive
-- three seconds later.
pub run_stop-IsHonest :
    (w : HostWorld) (running : Bool) (pid_value : Option Text) (request : Check Text) (timeout : ℤ)
    (force : Bool)
    → IsHonest w force
        (read_host_pid pid_value)
        (graceful_wait timeout force)
        (run_stop w running pid_value request timeout force)
unfolding run_stop
run_stop-IsHonest w false pid_value request timeout force = (inr (inr refl), inl refl, omega arith)
run_stop-IsHonest w true pid_value request timeout force =
    after_request-IsHonest w request force (read_host_pid pid_value) (graceful_wait timeout force)
