-- ===== src/Prelude/Filters.antt =====
-- Filters: what stays, what is dropped, and what a filter finds again.
use Prim.Native.Nat.{ℕ, ◌<◌, zero, suc}
use mathlib.Core.Path.{◌≡◌, refl, ap, ap₂}
use mathlib.Core.Logic.{inl, inr}
use mathlib.Core.Bool.{Bool, true, false, not, ◌&&◌}
use mathlib.Core.Option.{none, some}
use mathlib.Core.List.{List, [], ◌∷◌, ◌++◌, map}
use native.Mathlib.Omega.{arith}
use project_flakey.Prelude.Tests.{Bool-cases}
use project_flakey.Prelude.Lists.{
  take, drop, keep, any, find, length, All, All-keep, All-imp, Distinct,
}

module _ {ℓ} {A : Type ℓ} where
  pub Distinct-keep {κ} :
      (R : A → A → Type κ) (p : A → Bool) (xs : List A) → Distinct R xs → Distinct R (keep p xs)
  Distinct-keep R p [] h = tt
  Distinct-keep R p (x ∷ xs) h = elim (Bool-cases (p x)) [
    | inl hit ↦ rw hit (All-keep (R x) p xs h.0, Distinct-keep R p xs h.1)
    | inr miss ↦ rw miss (Distinct-keep R p xs h.1)
  ]

  -- Where fewer than n elements are taken, none is left.
  pub drop_none : (n : ℕ) (xs : List A) → length (take n xs) < n → drop n xs ≡ []
  drop_none zero xs h = ground arith
  drop_none (suc n) [] h = refl
  drop_none (suc n) (x ∷ xs) h = drop_none n xs (omega arith)

  pub keep-append : (p : A → Bool) (xs ys : List A) → keep p (xs ++ ys) ≡ keep p xs ++ keep p ys
  keep-append p [] ys = refl
  keep-append p (x ∷ xs) ys = elim (Bool-cases (p x)) [
    | inl hit ↦ rw hit (ap (λ l. x ∷ l) (keep-append p xs ys))
    | inr miss ↦ rw miss (keep-append p xs ys)
  ]

  pub keep_full : (p : A → Bool) (xs : List A) → All (λ x. p x ≡ true) xs → keep p xs ≡ xs
  keep_full p [] h = refl
  keep_full p (x ∷ xs) h = rw h.0 (ap (λ l. x ∷ l) (keep_full p xs h.1))

  pub keep_none : (p : A → Bool) (xs : List A) → All (λ x. p x ≡ false) xs → keep p xs ≡ []
  keep_none p [] h = refl
  keep_none p (x ∷ xs) h = rw h.0 (keep_none p xs h.1)

  -- Filtering by a second test that the first implies, or excludes.
  pub keep-keep :
      (p q : A → Bool)
      → ((x : A) → q x ≡ true → p x ≡ true)
      → (xs : List A) → keep q (keep p xs) ≡ keep q xs
  keep-keep p q k [] = refl
  keep-keep p q k (x ∷ xs) = elim (Bool-cases (q x)) [
    | inl hit ↦ rw (k x hit, hit) (ap (λ l. x ∷ l) (keep-keep p q k xs))
    | inr miss ↦ elim (Bool-cases (p x)) [
      | inl kept ↦ rw (kept, miss) (keep-keep p q k xs)
      | inr gone ↦ rw (gone, miss) (keep-keep p q k xs)
    ]
  ]

  pub keep-not : (p : A → Bool) (xs : List A) → keep p (keep (λ x. not (p x)) xs) ≡ []
  keep-not p [] = refl
  keep-not p (x ∷ xs) = elim (Bool-cases (p x)) [
    | inl hit ↦ rw hit (keep-not p xs)
    | inr miss ↦ rw (miss, miss) (keep-not p xs)
  ]

  pub find-append :
      (p : A → Bool) (xs ys : List A) {r : A} → find p xs ≡ some r → find p (xs ++ ys) ≡ some r
  find-append p [] ys e = cc
  find-append p (x ∷ xs) ys e = elim (Bool-cases (p x)) [
    | inl hit ↦ rw hit (rw hit at e)
    | inr miss ↦ rw miss (find-append p xs ys (rw miss at e))
  ]

  -- What a filter drops is not found.
  pub find-keep-not : (p : A → Bool) (xs : List A) → find p (keep (λ x. not (p x)) xs) ≡ none
  find-keep-not p [] = refl
  find-keep-not p (x ∷ xs) = elim (Bool-cases (p x)) [
    | inl hit ↦ rw hit (find-keep-not p xs)
    | inr miss ↦ rw (miss, miss) (find-keep-not p xs)
  ]

  pub All-of_keep : (p : A → Bool) (xs : List A) → All (λ x. p x ≡ true) (keep p xs)
  All-of_keep p [] = tt
  All-of_keep p (x ∷ xs) = elim (Bool-cases (p x)) [
    | inl hit ↦ rw hit (hit, All-of_keep p xs)
    | inr miss ↦ rw miss (All-of_keep p xs)
  ]

module _ {ℓ κ μ} {A : Type ℓ} {B : Type κ} (P : B → Type μ) where
  pub All-image : (f : A → B) → ((x : A) → P (f x)) → (xs : List A) → All P (map f xs)
  All-image f k [] = tt
  All-image f k (x ∷ xs) = (k x, All-image f k xs)

module _ {ℓ κ} {A : Type ℓ} {B : Type κ} where
  pub map_eq : (f g : A → B) (xs : List A) → All (λ x. f x ≡ g x) xs → map f xs ≡ map g xs
  map_eq f g [] h = refl
  map_eq f g (x ∷ xs) h = ap₂ (λ y ys. y ∷ ys) h.0 (map_eq f g xs h.1)

module _ {ℓ} {A : Type ℓ} where
  pub map_fixed : (f : A → A) (xs : List A) → All (λ x. f x ≡ x) xs → map f xs ≡ xs
  map_fixed f [] h = refl
  map_fixed f (x ∷ xs) h = ap₂ (λ y ys. y ∷ ys) h.0 (map_fixed f xs h.1)

  pub map_after : (f g : A → A) (xs : List A) → map f (map g xs) ≡ map (λ x. f (g x)) xs
  map_after f g [] = refl
  map_after f g (x ∷ xs) = ap (λ ys. f (g x) ∷ ys) (map_after f g xs)

  pub All-const {κ} : (P : A → Type κ) → ((x : A) → P x) → (xs : List A) → All P xs
  All-const P k [] = tt
  All-const P k (x ∷ xs) = (k x, All-const P k xs)

module _ {ℓ} {A : Type ℓ} where
  pub keep_eq : (p q : A → Bool) (xs : List A) → All (λ x. p x ≡ q x) xs → keep p xs ≡ keep q xs
  keep_eq p q [] h = refl
  keep_eq p q (x ∷ xs) h = elim (Bool-cases (q x)) [
    | inl hit ↦ rw (h.0, hit) (ap (λ l. x ∷ l) (keep_eq p q xs h.1))
    | inr miss ↦ rw (h.0, miss) (keep_eq p q xs h.1)
  ]

  pub keep_after : (p q : A → Bool) (xs : List A) → keep p (keep q xs) ≡ keep (λ x. q x && p x) xs
  keep_after p q [] = refl
  keep_after p q (x ∷ xs) = elim (Bool-cases (q x)) [
    | inr out ↦ rw out (keep_after p q xs)
    | inl kept ↦ elim (Bool-cases (p x)) [
      | inl hit ↦ rw (kept, hit) (ap (λ l. x ∷ l) (keep_after p q xs))
      | inr miss ↦ rw (kept, miss) (keep_after p q xs)
    ]
  ]

  pub any_elim {κ} :
      (P : A → Type κ) (p : A → Bool) (xs : List A)
      → All P xs
      → any p xs ≡ true
      → (a : A) × P a × (p a ≡ true)
  any_elim P p [] h e = cc
  any_elim P p (x ∷ xs) h e = elim (Bool-cases (p x)) [
    | inl hit ↦ (x, h.0, hit)
    | inr miss ↦ any_elim P p xs h.1 (rw miss at e)
  ]

  -- Every element that passes both tests is found among those kept by them.
  pub any-keep_self :
      (r : A → A → Bool)
      → ((x : A) → r x x ≡ true)
      → (p : A → Bool) (xs : List A) → All (λ x. p x ≡ true → any (r x) (keep p xs) ≡ true) xs
  any-keep_self r k p [] = tt
  any-keep_self r k p (x ∷ xs) = (
    λ h. rw h (rw (k x)),
    All-imp (λ y. p y ≡ true → any (r y) (keep p xs) ≡ true)
        (λ y. p y ≡ true → any (r y) (keep p (x ∷ xs)) ≡ true) (λ y ih h. skip y (ih h)) xs
        (any-keep_self r k p xs),
  )
    where
      skip : (y : A) → any (r y) (keep p xs) ≡ true → any (r y) (keep p (x ∷ xs)) ≡ true
      skip y h = elim (Bool-cases (p x)) [
        | inr out ↦ rw out h
        | inl hit ↦ elim (Bool-cases (r y x)) [
          | inl same ↦ rw (hit, same)
          | inr other ↦ rw (hit, other) h
        ]
      ]
