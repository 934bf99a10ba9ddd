-- ===== src/Live/Guard.antt =====
-- Every active run has a timer that will end it.
use project_flakey.Prelude.{
  ℕ, ◌≡◌, sym, ap, ◌∙◌, subst, Bool, true, false, ◌||◌, List, [], ◌∷◌, ◌==◌, ==-refl, arith,
  Bool-cases, inl, inr,
}
use project_flakey.Live.Bus.{
  Bus, EventType, is_start, is_end, is_active, contains, add_active, remove_active, forget,
  register_run, unregister, touch, get_emitter, begin, send, conclude, emit, time_out, clean_up,
  Action, registers, unregisters, subscribes, times_out, cleans_up, touches, emits, perform,
  perform_all,
}
use project_flakey.Live.Keys.{Flags, flags, flags-add_active, flags-remove_active}

-- An emitter exactly where a timeout is set, and a timeout for every active run.
abbrev pub IsGuarded : Flags → Type 0
IsGuarded f = (f.emitter ≡ f.timeout) × (f.active ≡ true → f.timeout ≡ true)

abbrev pub AllGuarded : Bus → Type 0
AllGuarded b = (r : ℕ) → IsGuarded (flags b r)

-- As IsGuarded, but for one run that may just have become active.
abbrev IsLoose : Bool → Flags → Type 0
IsLoose self f = (f.emitter ≡ f.timeout) × (f.active ≡ true → (f.timeout || self) ≡ true)

add-IsLoose :
    (b : Bus) (run : ℕ) → AllGuarded b → (r : ℕ) → IsLoose (r == run) (flags (add_active b run).0 r)
add-IsLoose b run h r =
    subst (IsLoose (r == run)) (sym (flags-add_active b run r))
      (let (e, k) = h r in (e, λ a. ground arith))

begin-IsLoose :
    (b : Bus) (run : ℕ) (type : EventType)
    → AllGuarded b
    → (r : ℕ) → IsLoose (r == run) (flags (begin b run type).0 r)
unfolding begin
begin-IsLoose b run type h r = elim (Bool-cases (is_start type)) [
  | inl on ↦ rw (begin, on) (add-IsLoose b run h r)
  | inr off ↦ rw (begin, off) (let (e, k) = h r in (e, λ a. ground arith))
]

send-AllGuarded :
    (b : Bus) (run : ℕ) → ((r : ℕ) → IsLoose (r == run) (flags b r)) → AllGuarded (send b run).0
unfolding send get_emitter
send-AllGuarded b run h r = elim (Bool-cases (b.emitters run)) [
  | inl on ↦
      rw (send, on)
        (let (e, k) = h r in
          (
            e,
            λ a. elim (Bool-cases (r == run)) [
              | inr other ↦ ground arith
              | inl self ↦
                  let same : r ≡ run = ground arith in
                  let armed : b.timeouts run ≡ true = sym (h run).0 ∙ on in rw same armed
            ],
          ))
  | inr off ↦
      rw (send, off) (subst IsGuarded (sym (flags-add_active (get_emitter b run) run r)) (made r))
]
  where
    made :
        (x : ℕ)
        → IsGuarded (record (flags (get_emitter b run) x) {
          active = is_active (get_emitter b run) x || run == x;
        })
    made x = let (e, k) = h x in (ground arith, λ a. ground arith)

remove-AllGuarded : (b : Bus) (run : ℕ) → AllGuarded b → AllGuarded (remove_active b run).0
remove-AllGuarded b run h r =
    subst IsGuarded (sym (flags-remove_active b run r)) (let (e, k) = h r in (e, λ a. ground arith))

conclude-AllGuarded :
    (b : Bus) (run : ℕ) (type : EventType) → AllGuarded b → AllGuarded (conclude b run type).0
unfolding conclude
conclude-AllGuarded b run type h r = elim (Bool-cases (is_end type)) [
  | inl on ↦ rw (conclude, on) (remove-AllGuarded b run h r)
  | inr off ↦ rw (conclude, off) (h r)
]

emit-AllGuarded :
    (b : Bus) (run : ℕ) (type : EventType) (now : ℕ)
    → AllGuarded b
    → AllGuarded (emit b run type now).0
unfolding emit touch
emit-AllGuarded b run type now h =
    conclude-AllGuarded (send (begin (touch b run now) run type).0 run).0 run type (
      send-AllGuarded (begin (touch b run now) run type).0 run
        (begin-IsLoose (touch b run now) run type h))

-- Forgetting a run that is not active.
forget-AllGuarded :
    (b : Bus) (run : ℕ) → AllGuarded b → is_active b run ≡ false → AllGuarded (forget b run)
forget-AllGuarded b run h idle r =
    let (e, k) = h r in
    (
      ground arith,
      λ a. elim (Bool-cases (r == run)) [
        | inr other ↦ rw other (k a)
        | inl self ↦ let same : r ≡ run = ground arith in cc (rw same at a)
      ],
    )

removed_idle : (b : Bus) (run : ℕ) → is_active (remove_active b run).0 run ≡ false
removed_idle b run =
    ap (λ (f : Flags). f.active) (flags-remove_active b run run) ∙ rw (==-refl run) (ground arith)

drop-AllGuarded :
    (b : Bus) (run : ℕ) → AllGuarded b → AllGuarded (forget (remove_active b run).0 run)
drop-AllGuarded b run h =
    forget-AllGuarded (remove_active b run).0 run (remove-AllGuarded b run h) (removed_idle b run)

-- The clean-up of a run comes when the run is not active: it did not start again in the 5 seconds
-- after its end.
abbrev pub IsCalm : Bus → List Action → Type 0
IsCalm b [] = Unit
IsCalm b (cleans_up run ∷ rest) =
    (is_active b run ≡ false) × IsCalm (perform b (cleans_up run)) rest
IsCalm b (a ∷ rest) = IsCalm (perform b a) rest

clean_up-AllGuarded :
    (b : Bus) (run : ℕ) → AllGuarded b → is_active b run ≡ false → AllGuarded (clean_up b run)
unfolding clean_up
clean_up-AllGuarded b run h idle r = elim (Bool-cases (contains run b.cleanups)) [
  | inl set_ ↦ rw (clean_up, set_) (forget-AllGuarded b run h idle r)
  | inr unset ↦ rw (clean_up, unset) (h r)
]

time_out-AllGuarded : (b : Bus) (run : ℕ) → AllGuarded b → AllGuarded (time_out b run).0
unfolding time_out
time_out-AllGuarded b run h r = elim (Bool-cases (b.timeouts run)) [
  | inl set_ ↦ rw (time_out, set_) (drop-AllGuarded b run h r)
  | inr unset ↦ rw (time_out, unset) (h r)
]

get_emitter-AllGuarded : (b : Bus) (run : ℕ) → AllGuarded b → AllGuarded (get_emitter b run)
unfolding get_emitter
get_emitter-AllGuarded b run h r = let (e, k) = h r in (ground arith, λ a. ground arith)

perform_each-AllGuarded :
    (b : Bus) (actions : List Action)
    → AllGuarded b
    → IsCalm b actions
    → AllGuarded (perform_all b actions)
unfolding perform_all perform register_run unregister touch
perform_each-AllGuarded b [] h calm = h
perform_each-AllGuarded b (registers run org now ∷ rest) h calm =
    perform_each-AllGuarded (register_run b run org now) rest h calm
perform_each-AllGuarded b (unregisters run ∷ rest) h calm =
    perform_each-AllGuarded (unregister b run).0 rest (drop-AllGuarded b run h) calm
perform_each-AllGuarded b (subscribes run ∷ rest) h calm =
    perform_each-AllGuarded (get_emitter b run) rest (get_emitter-AllGuarded b run h) calm
perform_each-AllGuarded b (times_out run ∷ rest) h calm =
    perform_each-AllGuarded (time_out b run).0 rest (time_out-AllGuarded b run h) calm
perform_each-AllGuarded b (cleans_up run ∷ rest) h (idle, calm) =
    perform_each-AllGuarded (clean_up b run) rest (clean_up-AllGuarded b run h idle) calm
perform_each-AllGuarded b (touches run now ∷ rest) h calm =
    perform_each-AllGuarded (touch b run now) rest h calm
perform_each-AllGuarded b (emits run type now ∷ rest) h calm =
    perform_each-AllGuarded (emit b run type now).0 rest (emit-AllGuarded b run type now h) calm

-- The timeout of a run ends it, where every active run has a timeout.
timed_out-idle :
    (b : Bus) (run : ℕ) → AllGuarded b → is_active (perform b (times_out run)) run ≡ false
unfolding perform time_out
timed_out-idle b run h = elim (Bool-cases (b.timeouts run)) [
  | inl set_ ↦ rw (perform, time_out, set_) (removed_idle b run)
  | inr unset ↦ elim (Bool-cases (is_active b run)) [
    | inl on ↦ cc ((h run).1 on, unset)
    | inr off ↦ rw (perform, time_out, unset) off
  ]
]

-- After any sequence of calls and timers in which no run starts again between its end and its
-- clean-up, a run has an emitter exactly where its timeout is set, every active run has its timeout
-- set, and the timeout of any run, should it fire then, leaves that run not active.
pub perform_all-AllGuarded :
    (b : Bus) (actions : List Action)
    → AllGuarded b
    → IsCalm b actions
    → AllGuarded (perform_all b actions)
      × ((run : ℕ) → is_active (perform (perform_all b actions) (times_out run)) run ≡ false)
perform_all-AllGuarded b actions h calm =
    let guarded = perform_each-AllGuarded b actions h calm in
    (guarded, λ run. timed_out-idle (perform_all b actions) run guarded)
