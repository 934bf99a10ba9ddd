-- ===== src/Live/Keys.antt =====
-- What each operation does to one run's emitter, timeout and place in the active set.
use project_flakey.Prelude.{
  ℕ, ◌≡◌, refl, ap, Bool, true, false, ◌&&◌, ◌||◌, not, List, [], ◌∷◌, ◌++◌, ◌==◌, if◌then◌else◌,
  arith, Bool-cases, inl, inr,
}
use project_flakey.Live.Bus.{
  Bus, is_active, contains, without, add_active, remove_active, forget, get_emitter,
}

contains-snoc : (r x : ℕ) (xs : List ℕ) → contains r (xs ++ x ∷ []) ≡ (contains r xs || x == r)
contains-snoc r x [] = ground arith
contains-snoc r x (y ∷ ys) = ground (arith, contains-snoc r x ys)

contains-without :
    (r x : ℕ) (xs : List ℕ) → contains r (without x xs) ≡ (contains r xs && not (x == r))
contains-without r x [] = ground arith
contains-without r x (y ∷ ys) = ground (arith, contains-without r x ys)

add_present :
    (r x : ℕ) (xs : List ℕ) → contains x xs ≡ true → contains r xs ≡ (contains r xs || x == r)
add_present r x xs h = elim (Bool-cases (x == r)) [
  | inr other ↦ rw other (ground arith)
  | inl hit ↦
      let e : x ≡ r = ground arith in let k : contains r xs ≡ true = rw (← e) h in ground arith
]

remove_absent :
    (r x : ℕ) (xs : List ℕ)
    → contains x xs ≡ false
    → contains r xs ≡ (contains r xs && not (x == r))
remove_absent r x xs h = elim (Bool-cases (x == r)) [
  | inr other ↦ rw other (ground arith)
  | inl hit ↦
      let e : x ≡ r = ground arith in let k : contains r xs ≡ false = rw (← e) h in ground arith
]

-- The three flags of one run.
pub record Flags : Type 0 where
  pub emitter : Bool
  pub timeout : Bool
  pub active : Bool

abbrev pub flags : Bus → ℕ → Flags
flags b r = record { emitter = b.emitters r; timeout = b.timeouts r; active = is_active b r }

abbrev flags_at : Bus → ℕ → Bool → Flags
flags_at b r a = record { emitter = b.emitters r; timeout = b.timeouts r; active = a }

module _ (b : Bus) (run r : ℕ) where
  pub flags-add_active :
      flags (add_active b run).0 r ≡ record (flags b r) { active = is_active b r || run == r }
  unfolding add_active
  flags-add_active = elim (Bool-cases (is_active b run)) [
    | inl on ↦ rw (add_active, on) (ap (flags_at b r) (add_present r run b.active_runs on))
    | inr off ↦ rw (add_active, off) (ap (flags_at b r) (contains-snoc r run b.active_runs))
  ]

  pub flags-remove_active :
      flags (remove_active b run).0 r
      ≡ record (flags b r) { active = is_active b r && not (run == r) }
  unfolding remove_active
  flags-remove_active = elim (Bool-cases (is_active b run)) [
    | inl on ↦ rw (remove_active, on) (ap (flags_at b r) (contains-without r run b.active_runs))
    | inr off ↦ rw (remove_active, off) (ap (flags_at b r) (remove_absent r run b.active_runs off))
  ]

module _ (b : Bus) (run r : ℕ) where
  pub flags-get_emitter : flags (get_emitter b run) r ≡ record {
    emitter = if r == run then true else b.emitters r;
    timeout = if r == run then true else b.timeouts r;
    active = is_active b r;
  }
  unfolding get_emitter
  flags-get_emitter = refl

  pub flags-forget : flags (forget b run) r ≡ record {
    emitter = if r == run then false else b.emitters r;
    timeout = if r == run then false else b.timeouts r;
    active = is_active b r;
  }
  flags-forget = refl
