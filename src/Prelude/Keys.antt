-- ===== src/Prelude/Keys.antt =====
-- Tables as lists of rows with a numeric primary key.
use Prim.Native.Nat.{ℕ}
use mathlib.Core.Path.{◌≡◌, refl}
use mathlib.Core.Bool.{Bool, false}
use mathlib.Core.Logic.{inl, inr}
use mathlib.Core.Option.{none, some}
use mathlib.Core.List.{List, [], ◌∷◌, ◌++◌, map}
use native.Mathlib.Omega.{arith}
use project_flakey.Prelude.Tests.{◌==◌, ==-refl, if◌then◌else◌, Bool-cases}
use project_flakey.Prelude.Lists.{find, any, All, All-find, Distinct}

module _ {ℓ} {A : Type ℓ} (id : A → ℕ) where
  abbrev pub ApartBy : A → A → Type 0
  ApartBy x y = (id y == id x) ≡ false

  -- Where ids are unique, a row that any query finds is the row of its id.
  pub find-by_id :
      (p : A → Bool) (rows : List A) {r : A}
      → Distinct ApartBy rows
      → find p rows ≡ some r
      → find (λ x. id x == id r) rows ≡ some r
  find-by_id p [] h e = cc
  find-by_id p (x ∷ xs) {r} h e = elim (Bool-cases (p x)) [
    | inl hit ↦ let same : x ≡ r = cc (rw hit at e) in rw (← same) (rw (==-refl (id x)))
    | inr miss ↦
        let apart = All-find (ApartBy x) p xs h.0 (rw miss at e) in
        let other : (id x == id r) ≡ false = ground arith in
        rw other (find-by_id p xs h.1 (rw miss at e))
  ]

  pub find_unique :
      (p q : A → Bool) (rows : List A) {r s : A}
      → Distinct ApartBy rows
      → find p rows ≡ some r
      → find q rows ≡ some s
      → id s ≡ id r
      → s ≡ r
  find_unique p q rows {r} {s} h er es same =
      let fr = find-by_id p rows h er in let fs = find-by_id q rows h es in cc (rw (← same) at fr)

module _ {ℓ} {A : Type ℓ} where
  -- Looking into a table with one more row at its end.
  pub find-snoc :
      (p : A → Bool) (xs : List A) (a : A)
      → find p (xs ++ a ∷ [])
        ≡ elim (find p xs) [ none ↦ if p a then some a else none | some x ↦ some x ]
  find-snoc p [] a = refl
  find-snoc p (x ∷ xs) a = elim (Bool-cases (p x)) [
    | inl hit ↦ rw hit
    | inr miss ↦ rw miss (find-snoc p xs a)
  ]

module _ {ℓ κ μ ν} {A : Type ℓ} {B : Type ν} (P : A → Type κ) (R : A → A → Type μ)
    (Q : B → B → Type μ) where
  -- An update of every row, where it keeps related rows related.
  pub Distinct-map-All :
      (f : A → B)
      → ((x y : A) → P x → P y → R x y → Q (f x) (f y))
      → (xs : List A) → All P xs
      → Distinct R xs
      → Distinct Q (map f xs)
  Distinct-map-All f k [] p h = tt
  Distinct-map-All f k (x ∷ xs) p h = (All-image_of xs p.1 h.0, Distinct-map-All f k xs p.1 h.1)
    where
      All-image_of : (ys : List A) → All P ys → All (R x) ys → All (Q (f x)) (map f ys)
      All-image_of [] p' q = tt
      All-image_of (y ∷ ys) p' q = (k x y p.0 p'.0 q.0, All-image_of ys p'.1 q.1)

module _ {ℓ κ μ} {A : Type ℓ} (P : A → Type κ) (Q : A → Type μ) where
  pub All-map_of :
      (f : A → A) → ((x : A) → P x → Q (f x)) → (xs : List A) → All P xs → All Q (map f xs)
  All-map_of f k [] h = tt
  All-map_of f k (x ∷ xs) h = (k x h.0, All-map_of f k xs h.1)

module _ {ℓ} {A : Type ℓ} where
  pub any-none : (p : A → Bool) (xs : List A) → any p xs ≡ false → All (λ x. p x ≡ false) xs
  any-none p [] e = tt
  any-none p (x ∷ xs) e = elim (Bool-cases (p x)) [
    | inl hit ↦ cc (rw hit at e)
    | inr miss ↦ (miss, any-none p xs (rw miss at e))
  ]
