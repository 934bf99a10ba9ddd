-- ===== src/Live/Bus.antt =====
-- backend/src/live-events.ts, LiveEventBus in one process. Maps are functions of the run id, a Set is
-- the list of its elements in the order of insertion, and a timer that is set is a key of `timeouts`
-- or an element of `cleanups`. The deltas that an operation sends to an organisation are in its
-- result. The listeners of the emitters, and the fan-out between processes, are left out.
use project_flakey.Prelude.{
  ℕ, ◌+◌, Bool, true, false, not, Option, none, some, List, [], ◌∷◌, ◌++◌, ◌==◌, ltb, keep, any,
  if◌then◌else◌,
}

pub data EventType : Type 0 where
  run_started test_started test_passed test_failed test_skipped : EventType
  spec_started spec_finished run_finished run_aborted : EventType

pub record RunInfo : Type 0 where
  pub org_id : ℕ
  pub last_event_at : ℕ

pub data Delta : Type 0 where
  active_add active_remove : (org run : ℕ) → Delta

pub record Bus : Type 0 where
  pub emitters : ℕ → Bool
  pub timeouts : ℕ → Bool
  pub active_runs : List ℕ
  pub run_meta : ℕ → Option RunInfo
  pub cleanups : List ℕ

abbrev pub fresh_bus : Bus
fresh_bus = record {
  emitters = λ r. false;
  timeouts = λ r. false;
  active_runs = [];
  run_meta = λ r. none;
  cleanups = [];
}

-- `map.set(k, v)`, and with a missing value `map.delete(k)`
abbrev pub set {ℓ} : {V : Type ℓ} → (ℕ → V) → ℕ → V → ℕ → V
set f k v n = if n == k then v else f n

-- `set.has(r)`
abbrev pub contains : ℕ → List ℕ → Bool
contains r xs = any (λ x. x == r) xs

abbrev pub without : ℕ → List ℕ → List ℕ
without r xs = keep (λ x. not (x == r)) xs

abbrev pub drop_first : ℕ → List ℕ → List ℕ
drop_first r [] = []
drop_first r (x ∷ xs) = let rest = drop_first r xs in if x == r then xs else x ∷ rest

abbrev pub is_active : Bus → ℕ → Bool
is_active b r = contains r b.active_runs

-- A delta for the run's organisation, if that is known.
abbrev pub delta_for : (ℕ → ℕ → Delta) → Option RunInfo → ℕ → List Delta
delta_for make none run = []
delta_for make (some m) run = make m.org_id run ∷ []

unfoldable pub add_active : Bus → ℕ → Bus × List Delta
add_active b run = if is_active b run then (b, []) else (
  record b { active_runs = b.active_runs ++ run ∷ [] },
  delta_for active_add (b.run_meta run) run,
)

unfoldable pub remove_active : Bus → ℕ → Bus × List Delta
remove_active b run =
    if is_active b run
    then (
      record b { active_runs = without run b.active_runs },
      delta_for active_remove (b.run_meta run) run,
    )
    else (b, [])

-- The emitter, the timeout and the registration of a run are dropped.
abbrev pub forget : Bus → ℕ → Bus
forget b run = record b {
  emitters = set b.emitters run false;
  timeouts = set b.timeouts run false;
  run_meta = set b.run_meta run none;
}

unfoldable pub register_run : Bus → ℕ → ℕ → ℕ → Bus
register_run b run org now = record b {
  run_meta = set b.run_meta run (some (record { org_id = org; last_event_at = now }));
}

unfoldable pub unregister : Bus → ℕ → Bus × List Delta
unregister b run = let (b', ds) = remove_active b run in (forget b' run, ds)

abbrev touched : ℕ → Option RunInfo → Option RunInfo
touched now none = none
touched now (some m) = some (record m { last_event_at = now })

unfoldable pub touch : Bus → ℕ → ℕ → Bus
touch b run now = record b { run_meta = set b.run_meta run (touched now (b.run_meta run)) }

-- getEmitter, with resetTimeout
unfoldable pub get_emitter : Bus → ℕ → Bus
get_emitter b run = record b {
  emitters = set b.emitters run true;
  timeouts = set b.timeouts run true;
}

abbrev pub is_start : EventType → Bool
is_start run_started = true
is_start _ = false

abbrev pub is_end : EventType → Bool
is_end run_finished = true
is_end run_aborted = true
is_end _ = false

-- Mark as active on the first event.
unfoldable pub begin : Bus → ℕ → EventType → Bus × List Delta
begin b run type = if is_start type then add_active b run else (b, [])

-- The emitter is made if there is none, and the run is then active.
unfoldable pub send : Bus → ℕ → Bus × List Delta
send b run = if b.emitters run then (b, []) else add_active (get_emitter b run) run

-- The end of a run, with the timer for its clean-up.
unfoldable pub conclude : Bus → ℕ → EventType → Bus × List Delta
conclude b run type =
    let (b', ds) = remove_active b run in
    if is_end type then (record b' { cleanups = b'.cleanups ++ run ∷ [] }, ds) else (b, [])

unfoldable pub emit : Bus → ℕ → EventType → ℕ → Bus × List Delta
emit b run type now =
    let (begun, ds) = begin (touch b run now) run type in
    let (sent, more) = send begun run in
    let (ended, last) = conclude sent run type in (ended, ds ++ more ++ last)

-- The timer of resetTimeout, after 30 minutes.
unfoldable pub time_out : Bus → ℕ → Bus × List Delta
time_out b run =
    if b.timeouts run then (let (b', ds) = remove_active b run in (forget b' run, ds)) else (b, [])

-- The timer that `emit` sets at the end of a run, after 5 seconds.
unfoldable pub clean_up : Bus → ℕ → Bus
clean_up b run =
    if contains run b.cleanups
    then record (forget b run) { cleanups = drop_first run b.cleanups }
    else b

-- getActiveRunIds for one organisation
abbrev pub is_of_org : ℕ → Option RunInfo → Bool
is_of_org org none = false
is_of_org org (some m) = m.org_id == org

unfoldable pub get_active_run_ids : Bus → ℕ → List ℕ
get_active_run_ids b org = keep (λ r. is_of_org org (b.run_meta r)) b.active_runs

-- now - lastEventAt > max
abbrev pub is_stale : ℕ → ℕ → Option RunInfo → Bool
is_stale now max none = false
is_stale now max (some m) = ltb (m.last_event_at + max) now

unfoldable pub get_stale_runs : Bus → ℕ → ℕ → List ℕ
get_stale_runs b now max = keep (λ r. is_stale now max (b.run_meta r)) b.active_runs

pub data Action : Type 0 where
  registers : (run org now : ℕ) → Action
  unregisters subscribes times_out cleans_up : (run : ℕ) → Action
  touches : (run now : ℕ) → Action
  emits : (run : ℕ) → EventType → (now : ℕ) → Action

unfoldable pub perform : Bus → Action → Bus
perform b (registers run org now) = register_run b run org now
perform b (unregisters run) = (unregister b run).0
perform b (subscribes run) = get_emitter b run
perform b (times_out run) = (time_out b run).0
perform b (cleans_up run) = clean_up b run
perform b (touches run now) = touch b run now
perform b (emits run type now) = (emit b run type now).0

-- Any order of calls and timers.
unfoldable pub perform_all : Bus → List Action → Bus
perform_all b [] = b
perform_all b (a ∷ rest) = perform_all (perform b a) rest
