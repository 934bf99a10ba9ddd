-- ===== src/Normalize/Playwright/Files.antt =====
-- backend/src/normalizers/playwright.ts: merging the tests of a
-- suite by file loses none.
use project_flakey.Prelude.{
  ℕ, ◌+◌, ◌≡◌, refl, String, false, List, [], ◌∷◌, ◌++◌, str_eq, arith, sum_by, length,
  length-append, All, All-append, Bool-cases, inl, inr,
}
use project_flakey.Run.Data.{pending, NormalizedTest, same_status}
use project_flakey.Normalize.Playwright.{
  ResultStatus, has_passed, has_failed, timed_out, was_skipped, interrupted, unknown, map_status,
  Files, push_tests, merge_child, merge_files, is_nil,
}

abbrev pub IsSettled : NormalizedTest → Type 0
IsSettled t = same_status t.status pending ≡ false

-- A file has a test, and none of its tests is pending.
abbrev pub IsFine : String × List NormalizedTest → Type 0
IsFine e = (is_nil e.1 ≡ false) × All IsSettled e.1

abbrev pub AreFine : Files → Type 0
AreFine m = All IsFine m

abbrev pub tests_in : Files → ℕ
tests_in m = sum_by (λ (e : String × List NormalizedTest). length e.1) m

pub map_status-IsSettled : (s : ResultStatus) → same_status (map_status s) pending ≡ false
unfolding map_status
map_status-IsSettled has_passed = refl
map_status-IsSettled has_failed = refl
map_status-IsSettled timed_out = refl
map_status-IsSettled was_skipped = refl
map_status-IsSettled interrupted = refl
map_status-IsSettled unknown = refl

still_filled :
    (old tests : List NormalizedTest) → is_nil old ≡ false → is_nil (old ++ tests) ≡ false
still_filled [] tests h = cc
still_filled (t ∷ ts) tests h = refl

push-AreFine :
    (key : String) (tests : List NormalizedTest) (m : Files)
    → is_nil tests ≡ false
    → All IsSettled tests
    → AreFine m
    → AreFine (push_tests key tests m)
unfolding push_tests
push-AreFine key tests [] filled settled h = ((filled, settled), tt)
push-AreFine key tests ((k, old) ∷ rest) filled settled h = elim (Bool-cases (str_eq k key)) [
  | inl hit ↦
      rw hit ((still_filled old tests h.0.0, All-append IsSettled old tests h.0.1 settled), h.1)
  | inr miss ↦ rw miss (h.0, push-AreFine key tests rest filled settled h.1)
]

tests_in-push :
    (key : String) (tests : List NormalizedTest) (m : Files)
    → tests_in (push_tests key tests m) ≡ tests_in m + length tests
unfolding push_tests
tests_in-push key tests [] = omega arith
tests_in-push key tests ((k, old) ∷ rest) =
    let more = tests_in-push key tests rest in
    let joined = length-append old tests in
    elim (Bool-cases (str_eq k key)) [
      | inl hit ↦ rw hit (omega arith)
      | inr miss ↦ rw miss (omega arith)
    ]

-- A Map of which nothing is empty or pending, with so many tests.
abbrev pub Holds : Files → ℕ → Type 0
Holds m n = AreFine m × (tests_in m ≡ n)

pub push-Holds :
    (key : String) (tests : List NormalizedTest) (m : Files) (n : ℕ)
    → is_nil tests ≡ false
    → All IsSettled tests
    → Holds m n
    → Holds (push_tests key tests m) (n + length tests)
push-Holds key tests m n filled settled h =
    (push-AreFine key tests m filled settled h.0, omega (arith, tests_in-push key tests m, h.1))

pub merge_child-Holds :
    (src m : Files) (n : ℕ) → AreFine src → Holds m n → Holds (merge_child src m) (n + tests_in src)
unfolding merge_child
merge_child-Holds [] m n fine h = (h.0, omega (arith, h.1))
merge_child-Holds ((k, tests) ∷ rest) m n fine h =
    let (all, count) =
      merge_child-Holds rest (push_tests k tests m) (n + length tests) fine.1
        (push-Holds k tests m n fine.0.0 fine.0.1 h) in
    rw fine.0.0 (all, omega (arith, count))

pub merge_files-Holds :
    (src m : Files) (n : ℕ) → AreFine src → Holds m n → Holds (merge_files src m) (n + tests_in src)
unfolding merge_files
merge_files-Holds [] m n fine h = (h.0, omega (arith, h.1))
merge_files-Holds ((k, tests) ∷ rest) m n fine h =
    let (all, count) =
      merge_files-Holds rest (push_tests k tests m) (n + length tests) fine.1
        (push-Holds k tests m n fine.0.0 fine.0.1 h) in
    (all, omega (arith, count))
