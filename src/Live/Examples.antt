-- ===== src/Live/Examples.antt =====
-- The bus after concrete sequences of calls and timers, and the theorems at these inputs.
use project_flakey.Prelude.{ℕ, ◌≡◌, refl, true, false, List, [], ◌∷◌}
use project_flakey.Live.Bus.{
  Bus, fresh_bus, run_started, run_finished, active_add, is_active, contains, add_active,
  remove_active, register_run, touch, get_emitter, begin, send, conclude, emit, clean_up,
  get_stale_runs, Action, registers, cleans_up, times_out, emits, perform, perform_all,
}
use project_flakey.Live.Guard.{AllGuarded, IsCalm, perform_all-AllGuarded}
use project_flakey.Live.Stale.{clean_up_leak}

abbrev one_run : List Action
one_run = registers 7 1 100 ∷ emits 7 run_started 100 ∷ emits 7 run_finished 200 ∷ cleans_up 7 ∷ []

fresh-AllGuarded : AllGuarded fresh_bus
fresh-AllGuarded r = (refl, λ a. a)

one_run-IsCalm : IsCalm fresh_bus one_run
unfolding perform register_run touch emit begin send conclude add_active remove_active get_emitter
one_run-IsCalm = (refl, tt)

perform_all-AllGuarded_example :
    AllGuarded (perform_all fresh_bus one_run)
    × ((run : ℕ) → is_active (perform (perform_all fresh_bus one_run) (times_out run)) run ≡ false)
perform_all-AllGuarded_example =
    perform_all-AllGuarded fresh_bus one_run fresh-AllGuarded one_run-IsCalm

-- A run that started, ended and started again before its clean-up.
abbrev restarted : Bus
restarted = perform_all fresh_bus (
    registers 7 1 100
    ∷ emits 7 run_started 100
    ∷ emits 7 run_finished 200
    ∷ emits 7 run_started 201
    ∷ [])

restarted_active : is_active restarted 7 ≡ true
unfolding perform_all perform register_run touch emit begin send conclude add_active remove_active
    get_emitter
restarted_active = refl

restarted_due : contains 7 restarted.cleanups ≡ true
unfolding perform_all perform register_run touch emit begin send conclude add_active remove_active
    get_emitter
restarted_due = refl

start_delta : (emit (register_run fresh_bus 7 1 100) 7 run_started 100).1 ≡ active_add 1 7 ∷ []
unfolding register_run touch emit begin send conclude add_active remove_active get_emitter
start_delta = refl

clean_up_leak_example :
    (is_active (clean_up restarted 7) 7 ≡ true)
    × ((clean_up restarted 7).timeouts 7 ≡ false)
    × (contains 7 (get_stale_runs (clean_up restarted 7) 999999 10) ≡ false)
clean_up_leak_example = clean_up_leak restarted 7 999999 10 restarted_due restarted_active
