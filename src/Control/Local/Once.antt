-- ===== src/Control/Local/Once.antt =====
-- A VM is stopped once, however often and in whatever order the calls come.
use bladerunner.Prelude.{
  Bool, List, [], arith, false, if◌then◌else◌, refl, true, ◌&&◌, ◌↔◌, ◌∷◌, ◌≡◌,
}
use bladerunner.Control.{status_stopped}
use bladerunner.Control.Local.{
  LocalController, Call, call_stop, call_set_probe, call_status, new_local_controller, set_probe,
  stop, status, perform_all, asks_stop,
}

stop-stopped : (c : LocalController) → c.stopped ≡ true → stop c ≡ c
unfolding stop
stop-stopped c h = ground arith

stop-running :
    (c : LocalController)
    → c.stopped ≡ false
    → c.stop_calls ≡ 0
    → ((stop c).stopped ≡ true) × ((stop c).stop_calls ≡ (if c.has_stop then 1 else 0))
unfolding stop
stop-running c h z = ground arith

-- A controller that is stopped stays as it is, its probe apart.
perform_all-stopped :
    (ks : List Call) (c : LocalController)
    → c.stopped ≡ true
    → ((perform_all ks c).stopped ≡ true) × ((perform_all ks c).stop_calls ≡ c.stop_calls)
unfolding perform_all
perform_all-stopped [] c h = (h, refl)
perform_all-stopped (call_stop ∷ ks) c h = simp (stop-stopped c h) (perform_all-stopped ks c h)
perform_all-stopped (call_set_probe p ∷ ks) c h = perform_all-stopped ks (set_probe p c) h
perform_all-stopped (call_status ∷ ks) c h = perform_all-stopped ks c h

perform_all-running :
    (ks : List Call) (c : LocalController)
    → c.stopped ≡ false
    → c.stop_calls ≡ 0
    → ((perform_all ks c).stopped ≡ asks_stop ks)
      × ((perform_all ks c).stop_calls ≡ (if c.has_stop && asks_stop ks then 1 else 0))
unfolding perform_all asks_stop
perform_all-running [] c h z = ground arith
perform_all-running (call_stop ∷ ks) c h z =
    ground (arith, stop-running c h z, perform_all-stopped ks (stop c))
perform_all-running (call_set_probe p ∷ ks) c h z = perform_all-running ks (set_probe p c) h z
perform_all-running (call_status ∷ ks) c h z = perform_all-running ks c h z

status_of :
    (answers : Bool) (c : LocalController) (b : Bool)
    → c.stopped ≡ b
    → (status answers c ≡ status_stopped) ↔ (b ≡ true)
unfolding status
status_of answers c b h = ground arith

-- From a new controller, whatever calls come in whatever order, the stop function has been called
-- once if there is one and a call asked to stop, and never otherwise; and the status is "stopped",
-- whatever the probe finds, exactly if a call asked to stop.
pub perform_all-once :
    (ks : List Call) (has_stop answers : Bool)
    → ((perform_all ks (new_local_controller has_stop)).stop_calls
        ≡ (if has_stop && asks_stop ks then 1 else 0))
      × ((status answers (perform_all ks (new_local_controller has_stop)) ≡ status_stopped)
          ↔ (asks_stop ks ≡ true))
unfolding new_local_controller
perform_all-once ks has_stop answers =
    let (stopped, calls) = perform_all-running ks (new_local_controller has_stop) refl refl in
    (
      calls,
      status_of answers (perform_all ks (new_local_controller has_stop)) (asks_stop ks) stopped,
    )
