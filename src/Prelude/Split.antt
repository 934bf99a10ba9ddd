-- ===== src/Prelude/Split.antt =====
-- Strings in fields: `split`, `slice`, `join` and `startsWith`, by recursion on the characters.
use Prim.Native.Char.{Char}
use Prim.Native.Nat.{ℕ, zero, suc}
use Prim.Native.String.{String, [], ◌∷◌, ◌++◌}
use Prim.Native.String.append
use mathlib.Core.Path.{◌≡◌, refl, ap}
use mathlib.Core.Logic.{inl, inr}
use mathlib.Core.Bool.{Bool, true, false, ◌&&◌, ◌||◌}
use mathlib.Core.List.{List, [], ◌∷◌}
use project_flakey.Prelude.Tests.{str_eq, str_eq_iff, str_eq_refl, if◌then◌else◌, Bool-cases}
use project_flakey.Prelude.Text.{trim, trim_start, trim_end, is_space}

unfoldable pub same_char : Char → Char → Bool
same_char c d = str_eq (c ∷ []) (d ∷ [])

head_or : Char → String → Char
head_or c [] = c
head_or c (d ∷ s) = d

-- `s.startsWith(p)`, as starts_with p s
unfoldable pub starts_with : String → String → Bool
starts_with [] s = true
starts_with (c ∷ p) [] = false
starts_with (c ∷ p) (d ∷ s) = same_char c d && starts_with p s

-- `s.slice(n)`, on strings whose first n characters are single code units
unfoldable pub drop_chars : ℕ → String → String
drop_chars zero s = s
drop_chars (suc n) [] = []
drop_chars (suc n) (c ∷ s) = drop_chars n s

-- A character before the first of the pieces.
abbrev pub push : Char → List String → List String
push c [] = (c ∷ []) ∷ []
push c (w ∷ ws) = (c ∷ w) ∷ ws

-- `s.split(c)`
unfoldable pub split : Char → String → List String
unfolding same_char
split c [] = [] ∷ []
split c (d ∷ s) = let rest = split c s in if same_char c d then [] ∷ rest else push d rest

-- `ws.join(c)`
abbrev pub join_with : Char → List String → String
join_with c [] = []
join_with c (w ∷ []) = w
join_with c (w ∷ v ∷ ws) = w ++ (c ∷ join_with c (v ∷ ws))

-- `s.includes(c)`
unfoldable pub has_char : Char → String → Bool
has_char c [] = false
has_char c (d ∷ s) = same_char c d || has_char c s

same_char_refl : (c : Char) → same_char c c ≡ true
unfolding same_char
same_char_refl c = str_eq_refl (c ∷ [])

pub same_char_eq : (c d : Char) → same_char c d ≡ true → c ≡ d
unfolding same_char head_or
same_char_eq c d h = ap (head_or c) ((str_eq_iff (c ∷ []) (d ∷ [])).0 h)

pub starts_with-append : (p s : String) → starts_with p (p ++ s) ≡ true
unfolding starts_with
starts_with-append [] s = refl
starts_with-append (c ∷ p) s = rw (append.cons c p s, same_char_refl c) (starts_with-append p s)

-- A separator ends the first piece.
pub split-append :
    (c : Char) (w s : String) → has_char c w ≡ false → split c (w ++ (c ∷ s)) ≡ w ∷ split c s
unfolding split has_char
split-append c [] s h = rw (append.nil (c ∷ s), same_char_refl c)
split-append c (d ∷ w) s h = elim (Bool-cases (same_char c d)) [
  | inl hit ↦ cc (rw hit at h)
  | inr miss ↦ rw (append.cons d w (c ∷ s), miss) (ap (push d) (split-append c w s (rw miss at h)))
]

pub split_whole : (c : Char) (w : String) → has_char c w ≡ false → split c w ≡ w ∷ []
unfolding split has_char
split_whole c [] h = refl
split_whole c (d ∷ w) h = elim (Bool-cases (same_char c d)) [
  | inl hit ↦ cc (rw hit at h)
  | inr miss ↦ rw miss (ap (push d) (split_whole c w (rw miss at h)))
]

pub split-cases : (c : Char) (s : String) → (w : String) × (ws : List String) × (split c s ≡ w ∷ ws)
unfolding split
split-cases c [] = ([], [], refl)
split-cases c (d ∷ s) =
    let (w, ws, e) = split-cases c s in
    elim (Bool-cases (same_char c d)) [
      | inl hit ↦ ([], split c s, rw hit)
      | inr miss ↦ (d ∷ w, ws, rw (miss, e))
    ]

join-push :
    (c d : Char) (w : String) (ws : List String)
    → join_with c (push d (w ∷ ws)) ≡ d ∷ join_with c (w ∷ ws)
join-push c d w [] = refl
join-push c d w (v ∷ ws) = append.cons d w (c ∷ join_with c (v ∷ ws))

pub join-split : (c : Char) (s : String) → join_with c (split c s) ≡ s
unfolding split
join-split c [] = refl
join-split c (d ∷ s) =
    let (w, ws, e) = split-cases c s in
    let whole : join_with c (w ∷ ws) ≡ s = rw (← e) (join-split c s) in
    elim (Bool-cases (same_char c d)) [
      | inl hit ↦
          rw (hit, e, append.nil (c ∷ join_with c (w ∷ ws)), whole)
            (ap (λ x. x ∷ s) (same_char_eq c d hit))
      | inr miss ↦ rw (miss, e, join-push c d w ws, whole)
    ]

abbrev pub char_count : String → ℕ
char_count [] = 0
char_count (c ∷ s) = suc (char_count s)

pub drop-append : (p s : String) → drop_chars (char_count p) (p ++ s) ≡ s
unfolding drop_chars
drop-append [] s = append.nil s
drop-append (c ∷ p) s = rw (append.cons c p s) (drop-append p s)

-- Text without white space.
unfoldable pub has_space : String → Bool
has_space [] = false
has_space (c ∷ s) = is_space c || has_space s

trim_end_eq : (s : String) → has_space s ≡ false → trim_end s ≡ s
unfolding has_space trim_end
trim_end_eq [] h = refl
trim_end_eq (c ∷ s) h = elim (Bool-cases (is_space c)) [
  | inl hit ↦ cc (rw hit at h)
  | inr miss ↦ rw (miss, trim_end_eq s (rw miss at h))
]

pub trim_eq : (s : String) → has_space s ≡ false → trim s ≡ s
unfolding has_space trim trim_start
trim_eq [] h = refl
trim_eq (c ∷ s) h = elim (Bool-cases (is_space c)) [
  | inl hit ↦ cc (rw hit at h)
  | inr miss ↦ rw miss (trim_end_eq (c ∷ s) h)
]

pub has_space-append :
    (s t : String) → has_space s ≡ false → has_space t ≡ false → has_space (s ++ t) ≡ false
unfolding has_space
has_space-append [] t hs ht = rw (append.nil t) ht
has_space-append (c ∷ s) t hs ht = elim (Bool-cases (is_space c)) [
  | inl hit ↦ cc (rw hit at hs)
  | inr miss ↦ rw (append.cons c s t, miss) (has_space-append s t (rw miss at hs) ht)
]

pub has_char-append :
    (c : Char) (s t : String)
    → has_char c s ≡ false
    → has_char c t ≡ false
    → has_char c (s ++ t) ≡ false
unfolding has_char
has_char-append c [] t hs ht = rw (append.nil t) ht
has_char-append c (d ∷ s) t hs ht = elim (Bool-cases (same_char c d)) [
  | inl hit ↦ cc (rw hit at hs)
  | inr miss ↦ rw (append.cons d s t, miss) (has_char-append c s t (rw miss at hs) ht)
]

pub starts_with-key :
    (p : String) (c : Char) (s : String) → starts_with (p ++ (c ∷ [])) (p ++ (c ∷ s)) ≡ true
unfolding starts_with
starts_with-key [] c s = rw (append.nil (c ∷ []), append.nil (c ∷ s), same_char_refl c)
starts_with-key (d ∷ p) c s =
    rw (append.cons d p (c ∷ []), append.cons d p (c ∷ s), same_char_refl d) (starts_with-key p c s)

pub str_eq-cons : (c : Char) (s : String) → str_eq (c ∷ s) "" ≡ false
str_eq-cons c s = elim (Bool-cases (str_eq (c ∷ s) "")) [
  | inl hit ↦ let same = (str_eq_iff (c ∷ s) "").0 hit in cc
  | inr miss ↦ miss
]

pub append-nonempty : (p : String) (c : Char) (s : String) → str_eq (p ++ (c ∷ s)) "" ≡ false
append-nonempty [] c s = rw (append.nil (c ∷ s)) (str_eq-cons c s)
append-nonempty (d ∷ p) c s = rw (append.cons d p (c ∷ s)) (str_eq-cons d (p ++ (c ∷ s)))

-- `s.slice(0, n)`, on text whose first n characters are single code units
unfoldable pub take_chars : ℕ → String → String
take_chars zero s = []
take_chars (suc n) [] = []
take_chars (suc n) (c ∷ s) = c ∷ take_chars n s

-- `ws.pop()` on pieces, of which there is one at least
abbrev pub last_piece : List String → String
last_piece [] = []
last_piece (w ∷ []) = w
last_piece (w ∷ v ∷ ws) = last_piece (v ∷ ws)

abbrev pub first_piece : List String → String
first_piece [] = []
first_piece (w ∷ ws) = w
