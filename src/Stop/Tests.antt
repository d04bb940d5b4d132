-- ===== src/Stop/Tests.antt =====
-- A panicked guest whose host process ignores SIGTERM, and the theorem at it.
use bladerunner.Prelude.{
  Bool, List, [], atoi, codes, err, false, ok, pos, refl, some, true, ◌∷◌, ◌≡◌,
}
use bladerunner.Stop.{
  Signal, sigterm, sigkill, HostWorld, by_signal, timed_out, run_stop, read_host_pid, graceful_wait,
}
use bladerunner.Stop.Honest.{IsHonest, run_stop-IsHonest}

abbrev survives : List Signal → Bool
survives (sigkill ∷ _) = false
survives _ = true

abbrev hung : HostWorld
hung = record { socket = λ _ _. true; alive = λ sent _. survives sent }

forced_stop : run_stop hung true (some (codes "4711")) (ok tt) (pos 30) true ≡ record {
  result = ok (by_signal sigkill);
  signals = sigkill ∷ sigterm ∷ [];
  at = 8000;
  socket_removed = true;
}
unfolding run_stop atoi
forced_stop = refl

patient_stop :
    run_stop hung true (some (codes "4711")) (ok tt) (pos 30) false
    ≡ record { result = err timed_out; signals = []; at = 30000; socket_removed = false }
unfolding run_stop atoi
patient_stop = refl

run_stop-IsHonest_example :
    IsHonest hung true
      (read_host_pid (some (codes "4711")))
      (graceful_wait (pos 30) true)
      (run_stop hung true (some (codes "4711")) (ok tt) (pos 30) true)
run_stop-IsHonest_example = run_stop-IsHonest hung true (some (codes "4711")) (ok tt) (pos 30) true
