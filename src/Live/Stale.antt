-- ===== src/Live/Stale.antt =====
-- What the lists of active and stale runs hold, and what is left of a run that was forgotten.
use project_flakey.Prelude.{
  ℕ, ◌≡◌, ◌≢◌, refl, ap, ◌∙◌, Bool, true, false, ◌&&◌, Option, none, List, [], ◌∷◌, ◌==◌, ==-refl,
  keep, arith, Bool-cases, inl, inr,
}
use project_flakey.Live.Bus.{
  Bus, RunInfo, drop_first, is_active, contains, remove_active, forget, unregister, clean_up,
  get_active_run_ids, is_of_org, is_stale, get_stale_runs,
}
use project_flakey.Live.Keys.{Flags, flags, flags-remove_active}

contains-keep :
    (r : ℕ) (p : ℕ → Bool) (xs : List ℕ) → contains r (keep p xs) ≡ (contains r xs && p r)
contains-keep r p [] = refl
contains-keep r p (x ∷ xs) = elim (Bool-cases (x == r)) [
  | inl hit ↦
      let same : x ≡ r = ground arith in
      elim (Bool-cases (p r)) [
        | inl kept ↦ rw (same, kept) (rw (==-refl r) refl)
        | inr out ↦ rw (same, out) (rw (==-refl r) (contains-keep r p xs ∙ rw out (ground arith)))
      ]
  | inr miss ↦ elim (Bool-cases (p x)) [
    | inl kept ↦ rw (kept, miss) (contains-keep r p xs)
    | inr out ↦ rw (out, miss) (contains-keep r p xs)
  ]
]

-- A run is listed as active for an organisation exactly when it is active and registered for that
-- organisation, and it is stale exactly when it is active, registered, and had its last event more
-- than the limit ago.
pub get_active_run_ids_exact :
    (b : Bus) (org now max r : ℕ)
    → (contains r (get_active_run_ids b org) ≡ (is_active b r && is_of_org org (b.run_meta r)))
      × (contains r (get_stale_runs b now max) ≡ (is_active b r && is_stale now max (b.run_meta r)))
unfolding get_active_run_ids get_stale_runs
get_active_run_ids_exact b org now max r = (
  contains-keep r (λ x. is_of_org org (b.run_meta x)) b.active_runs,
  contains-keep r (λ x. is_stale now max (b.run_meta x)) b.active_runs,
)

remove_active-run_meta : (b : Bus) (run : ℕ) → (remove_active b run).0.run_meta ≡ b.run_meta
unfolding remove_active
remove_active-run_meta b run = elim (Bool-cases (is_active b run)) [
  | inl on ↦ rw (remove_active, on) refl
  | inr off ↦ rw (remove_active, off) refl
]

-- Unregistering a run leaves no emitter, no timeout, no registration and no active entry of it, and
-- changes none of these for any other run.
pub unregister_exact :
    (b : Bus) (run : ℕ)
    → (flags (unregister b run).0 run ≡ record { emitter = false; timeout = false; active = false })
      × ((unregister b run).0.run_meta run ≡ none)
      × ((r : ℕ)
          → r ≢ run
          → (flags (unregister b run).0 r ≡ flags b r)
            × ((unregister b run).0.run_meta r ≡ b.run_meta r))
unfolding unregister
unregister_exact b run =
    (gone, rw (==-refl run) refl, λ r other. kept r (ground arith) (ground arith))
  where
    gone :
        flags (forget (remove_active b run).0 run) run
        ≡ record { emitter = false; timeout = false; active = false }
    gone =
        let idle : is_active (remove_active b run).0 run ≡ false =
          ap (λ (f : Flags). f.active) (flags-remove_active b run run)
          ∙ rw (==-refl run) (ground arith) in
        rw (==-refl run, idle) refl

    kept :
        (r : ℕ)
        → (r == run) ≡ false
        → (run == r) ≡ false
        → (flags (forget (remove_active b run).0 run) r ≡ flags b r)
          × ((forget (remove_active b run).0 run).run_meta r ≡ b.run_meta r)
    kept r miss miss' = (
      rw miss (
          flags-remove_active b run r
          ∙ ap (λ (a : Bool). record (flags b r) { active = a }) (rw miss' (ground arith))),
      rw miss (ap (λ (m : ℕ → Option RunInfo). m r) (remove_active-run_meta b run)),
    )

unregistered :
    (b : Bus) (run now max : ℕ)
    → b.run_meta run ≡ none
    → contains run (get_stale_runs b now max) ≡ false
unregistered b run now max h = (get_active_run_ids_exact b 0 now max run).1 ∙ rw h (ground arith)

-- A clean-up that comes while its run is active again leaves the run active, without a timeout and
-- without a registration, and no limit ever makes it stale.
pub clean_up_leak :
    (b : Bus) (run now max : ℕ)
    → contains run b.cleanups ≡ true
    → is_active b run ≡ true
    → (is_active (clean_up b run) run ≡ true)
      × ((clean_up b run).timeouts run ≡ false)
      × (contains run (get_stale_runs (clean_up b run) now max) ≡ false)
unfolding clean_up
clean_up_leak b run now max due on =
    rw (clean_up, due)
      (
        on,
        rw (==-refl run) refl,
        unregistered (record (forget b run) { cleanups = drop_first run b.cleanups }) run now max
            (rw (==-refl run) refl),
      )
