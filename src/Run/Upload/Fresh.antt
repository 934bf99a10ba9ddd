-- ===== src/Run/Upload/Fresh.antt =====
-- backend/src/routes/runs.ts: the row that an upload writes for a test of the payload.
use project_flakey.Prelude.{
  ℕ, ◌≡◌, refl, sym, ap, ◌∙◌, String, true, false, ◌||◌, Option, none, some, List, [], ◌∷◌, ◌++◌,
  map, str_eq, keep, any, if◌then◌else◌, arith, Distinct, Bool-cases, Option-cases, inl, inr,
}
use project_flakey.Run.Data.{NormalizedTest, TestError}
use project_flakey.Run.Store.{TestRow}
use project_flakey.Triage.Recurrence.{add}
use project_flakey.Triage.Recurrence.Laws.{Apart, any-add, Distinct-add}
use project_flakey.Run.Upload.{
  last_of, some_path, some_paths, or_nil, add_all, message, stack, fresh_row,
}

-- The rows of the title, the newest last.
abbrev pub titled : String → List TestRow → List TestRow
titled title = keep (λ (r : TestRow). str_eq r.full_title title)

-- The last snapshot of the rows that is not empty, or else the given one.
abbrev pub last_snapshot : Option String → List TestRow → Option String
last_snapshot acc [] = acc
last_snapshot acc (r ∷ rs) =
    last_snapshot
      (elim r.snapshot_path [ none ↦ acc | some p ↦ if str_eq p "" then acc else some p ]) rs

-- The last screenshots of the rows that are any, or else the given ones.
abbrev pub last_screenshots : List String → List TestRow → List String
last_screenshots acc [] = acc
last_screenshots acc (r ∷ rs) =
    last_screenshots (elim r.screenshot_paths [ [] ↦ acc | x ∷ xs ↦ x ∷ xs ]) rs

abbrev pub error_message_of : Option TestError → Option String
error_message_of none = none
error_message_of (some e) = some e.message

abbrev pub error_stack_of : Option TestError → Option String
error_stack_of none = none
error_stack_of (some e) = e.stack

-- The row of a test: the payload's values, with the snapshot that was streamed under its title, and
-- the screenshots that were streamed or are the payload's, none twice.
pub record IsRow (id : ℕ) (old : List TestRow) (t : NormalizedTest) (r : TestRow) : Type 0 where
  pub spec_id : r.spec_id ≡ id
  pub title : r.title ≡ t.title
  pub full_title : r.full_title ≡ t.full_title
  pub status : r.status ≡ t.status
  pub duration_ms : r.duration_ms ≡ t.duration_ms
  pub error_message : r.error_message ≡ error_message_of t.error
  pub error_stack : r.error_stack ≡ error_stack_of t.error
  pub snapshot_path : r.snapshot_path ≡ last_snapshot none (titled t.full_title old)
  pub screenshot_paths :
      (p : String)
      → any (str_eq p) r.screenshot_paths ≡ (
          any (str_eq p) (last_screenshots [] (titled t.full_title old))
          || any (str_eq p) t.screenshot_paths)
  pub distinct : Distinct Apart r.screenshot_paths

-- One row for each test, in order.
abbrev pub AreRows : ℕ → List TestRow → List NormalizedTest → List TestRow → Type 0
AreRows id old [] [] = Unit
AreRows id old [] (r ∷ rs) = false ≡ true
AreRows id old (t ∷ ts) [] = false ≡ true
AreRows id old (t ∷ ts) (r ∷ rs) = IsRow id old t r × AreRows id old ts rs

abbrev or_given {ℓ} : {A : Type ℓ} → Option A → A → A
or_given none acc = acc
or_given (some a) acc = a

abbrev or_found {ℓ} : {A : Type ℓ} → Option A → Option A → Option A
or_found none acc = acc
or_found (some a) acc = some a

module _ (title : String) (r : TestRow) (rs : List TestRow) where
  found-own :
      {A : Type 0} (f : TestRow → Option A) (acc : Option A)
      → str_eq r.full_title title ≡ true
      → or_found (last_of f title (r ∷ rs)) acc ≡ or_found (last_of f title rs) (or_found (f r) acc)
  unfolding last_of
  found-own f acc own = elim (Option-cases (last_of f title rs)) [
    | inl nothing ↦ rw (last_of, nothing, own)
    | inr (a, there) ↦ rw (last_of, there)
  ]

  found-other :
      {A : Type 0} (f : TestRow → Option A)
      → str_eq r.full_title title ≡ false
      → last_of f title (r ∷ rs) ≡ last_of f title rs
  unfolding last_of
  found-other f other = elim (Option-cases (last_of f title rs)) [
    | inl nothing ↦ rw (last_of, nothing, other)
    | inr (a, there) ↦ rw (last_of, there)
  ]

given-found :
    {A : Type 0} (x : Option A) (y : Option A) (acc : A)
    → or_given (or_found x y) acc ≡ or_given x (or_given y acc)
given-found none y acc = refl
given-found (some a) y acc = refl

found-none : {A : Type 0} (x : Option A) → or_found x none ≡ x
found-none none = refl
found-none (some a) = refl

snapshot_step :
    (path : Option String) (acc : Option String)
    → (elim path [ none ↦ acc | some p ↦ if str_eq p "" then acc else some p ])
      ≡ or_found (elim path [ none ↦ none | some p ↦ if str_eq p "" then none else some p ]) acc
snapshot_step none acc = refl
snapshot_step (some p) acc = elim (Bool-cases (str_eq p "")) [
  | inl blank ↦ rw blank
  | inr filled ↦ rw filled
]

screenshots_step :
    (paths acc : List String)
    → (elim paths [ [] ↦ acc | x ∷ xs ↦ x ∷ xs ])
      ≡ or_given (elim paths [ [] ↦ none | x ∷ xs ↦ some (x ∷ xs) ]) acc
screenshots_step [] acc = refl
screenshots_step (x ∷ xs) acc = refl

last_of-snapshot :
    (title : String) (rows : List TestRow) (acc : Option String)
    → last_snapshot acc (titled title rows) ≡ or_found (last_of some_path title rows) acc
unfolding last_of
last_of-snapshot title [] acc = refl
last_of-snapshot title (r ∷ rs) acc = elim (Bool-cases (str_eq r.full_title title)) [
  | inr other ↦ rw other (
      last_of-snapshot title rs acc
      ∙ ap (λ x. or_found x acc) (sym (found-other title r rs some_path other)))
  | inl own ↦ rw own (
      ap (λ a. last_snapshot a (titled title rs)) (snapshot_step r.snapshot_path acc)
      ∙ last_of-snapshot title rs (or_found (some_path r) acc)
      ∙ sym (found-own title r rs some_path acc own))
]

last_of-screenshots :
    (title : String) (rows : List TestRow) (acc : List String)
    → last_screenshots acc (titled title rows) ≡ or_given (last_of some_paths title rows) acc
unfolding last_of
last_of-screenshots title [] acc = refl
last_of-screenshots title (r ∷ rs) acc = elim (Bool-cases (str_eq r.full_title title)) [
  | inr other ↦ rw other (
      last_of-screenshots title rs acc
      ∙ ap (λ x. or_given x acc) (sym (found-other title r rs some_paths other)))
  | inl own ↦ rw own (
      ap (λ a. last_screenshots a (titled title rs)) (screenshots_step r.screenshot_paths acc)
      ∙ last_of-screenshots title rs (or_given (some_paths r) acc)
      ∙ sym (given-found (last_of some_paths title rs) (some_paths r) acc)
      ∙ ap (λ x. or_given (or_found (last_of some_paths title rs) x) acc)
          (sym (found-none (some_paths r)))
      ∙ ap (λ x. or_given x acc)
          (sym (found-own title r rs some_paths none own)
            ∙ found-none (last_of some_paths title (r ∷ rs))))
]

any-add_all :
    (p : String) (seen xs : List String)
    → any (str_eq p) (add_all seen xs) ≡ (any (str_eq p) seen || any (str_eq p) xs)
any-add_all p seen [] = ground arith
any-add_all p seen (x ∷ xs) = any-add_all p (add x seen) xs ∙ ground (arith, any-add p x seen)

Distinct-add_all : (seen xs : List String) → Distinct Apart seen → Distinct Apart (add_all seen xs)
Distinct-add_all seen [] h = h
Distinct-add_all seen (x ∷ xs) h = Distinct-add_all (add x seen) xs (Distinct-add x seen h)

any-append :
    (p : String) (xs ys : List String)
    → any (str_eq p) (xs ++ ys) ≡ (any (str_eq p) xs || any (str_eq p) ys)
any-append p [] ys = refl
any-append p (x ∷ xs) ys = ground (arith, any-append p xs ys)

message_eq : (e : Option TestError) → message e ≡ error_message_of e
message_eq none = refl
message_eq (some e) = refl

stack_eq : (e : Option TestError) → stack e ≡ error_stack_of e
stack_eq none = refl
stack_eq (some e) = refl

or_nil_eq : (x : Option (List String)) → or_nil x ≡ or_given x []
or_nil_eq none = refl
or_nil_eq (some xs) = refl

fresh_row-IsRow :
    (id : ℕ) (old : List TestRow) (t : NormalizedTest) → IsRow id old t (fresh_row id old t)
unfolding fresh_row
fresh_row-IsRow id old t =
    let streamed = or_nil (last_of some_paths t.full_title old) in
    let shots : streamed ≡ last_screenshots [] (titled t.full_title old) =
      or_nil_eq (last_of some_paths t.full_title old)
      ∙ sym (last_of-screenshots t.full_title old []) in
    record {
      spec_id = refl;
      title = refl;
      full_title = refl;
      status = refl;
      duration_ms = refl;
      error_message = message_eq t.error;
      error_stack = stack_eq t.error;
      snapshot_path =
          sym (found-none (last_of some_path t.full_title old))
          ∙ sym (last_of-snapshot t.full_title old none);
      screenshot_paths = λ p.
          any-add_all p [] (streamed ++ t.screenshot_paths)
          ∙ any-append p streamed t.screenshot_paths
          ∙ ap (λ xs. any (str_eq p) xs || any (str_eq p) t.screenshot_paths) shots;
      distinct = Distinct-add_all [] (streamed ++ t.screenshot_paths) tt;
    }

pub fresh_rows-AreRows :
    (id : ℕ) (old : List TestRow) (ts : List NormalizedTest)
    → AreRows id old ts (map (fresh_row id old) ts)
fresh_rows-AreRows id old [] = tt
fresh_rows-AreRows id old (t ∷ ts) = (fresh_row-IsRow id old t, fresh_rows-AreRows id old ts)
