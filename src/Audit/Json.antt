-- ===== src/Audit/Json.antt =====
-- backend/src/audit-chain.ts, canonicalJson. Numbers are naturals; what JSON.stringify writes for a
-- string and for a number, and the order by which Array.prototype.sort puts strings, are
-- parameters.
use project_flakey.Prelude.{
  ℕ, ◌≡◌, refl, sym, ap, ◌∙◌, String, Bool, true, false, ◌&&◌, List, [], ◌∷◌, map, if◌then◌else◌,
  Bool-cases, inl, inr,
}

mutual
  pub data Json : Type 0 where
    null : Json
    boolean : Bool → Json
    number : ℕ → Json
    text : String → Json
    array : Items → Json
    object : Fields → Json

  pub data Items : Type 0 where
    no_items : Items
    item : Json → Items → Items

  pub data Fields : Type 0 where
    no_fields : Fields
    field : String → Json → Fields → Fields

-- A key and the canonical form of its value.
pub record Entry : Type 0 where
  pub key : String
  pub form : String

infixr 5 ◌<>◌
abbrev pub ◌<>◌ : String → String → String
s <> t = Prim.Native.String.◌++◌ s t

-- `xs.join(",")`
abbrev pub join : List String → String
join [] = ""
join (s ∷ []) = s
join (s ∷ t ∷ rest) = s <> "," <> join (t ∷ rest)

-- `before s t`: a sort may put s ahead of t.
module _ (before : String → String → Bool) where
  -- `Object.keys(obj).sort()`, with the values alongside
  abbrev pub insert : Entry → List Entry → List Entry
  insert e [] = e ∷ []
  insert e (x ∷ xs) = if before e.key x.key then e ∷ x ∷ xs else x ∷ insert e xs

  abbrev pub sort : List Entry → List Entry
  sort [] = []
  sort (e ∷ es) = insert e (sort es)

-- `quote` and `digits`: JSON.stringify.
module _ (before : String → String → Bool) (quote : String → String) (digits : ℕ → String) where
  -- `JSON.stringify(k) + ":" + canonicalJson(obj[k])`
  abbrev pub member : Entry → String
  member e = quote e.key <> ":" <> e.form

  unfoldable mutual
    pub canonical_json : Json → String
    canonical_json null = "null"
    canonical_json (boolean true) = "true"
    canonical_json (boolean false) = "false"
    canonical_json (number n) = digits n
    canonical_json (text s) = quote s
    canonical_json (array xs) = "[" <> join (canonical_items xs) <> "]"
    canonical_json (object fs) = "{" <> join (map member (sort before (canonical_fields fs))) <> "}"

    pub canonical_items : Items → List String
    canonical_items no_items = []
    canonical_items (item x xs) = canonical_json x ∷ canonical_items xs

    pub canonical_fields : Fields → List Entry
    canonical_fields no_fields = []
    canonical_fields (field k v fs) =
        record { key = k; form = canonical_json v } ∷ canonical_fields fs

-- What a sort of strings relies on.
pub record IsOrder (before : String → String → Bool) : Type 0 where
  pub total : (s t : String) → before s t ≡ false → before t s ≡ true
  pub trans : (s t u : String) → before s t ≡ true → before t u ≡ true → before s u ≡ true

-- The same fields in another order: exchanges of neighbours whose keys the sort tells apart.
pub data Reordered (before : String → String → Bool) : Fields → Fields → Type 0 where
  same : {fs : Fields} → Reordered before fs fs
  next :
      {k : String} {v : Json} {fs gs : Fields}
      → Reordered before fs gs
      → Reordered before (field k v fs) (field k v gs)
  swap :
      {k l : String} {v w : Json} {fs : Fields}
      → (before k l && before l k) ≡ false
      → Reordered before (field k v (field l w fs)) (field l w (field k v fs))
  after :
      {fs gs hs : Fields} → Reordered before fs gs → Reordered before gs hs → Reordered before fs hs

module _ (before : String → String → Bool) (order : IsOrder before) where
  insert_ordered :
      (a b : Entry) (xs : List Entry)
      → before a.key b.key ≡ true
      → before b.key a.key ≡ false
      → insert before a (insert before b xs) ≡ insert before b (insert before a xs)
  insert_ordered a b [] ab ba = rw (ab, ba) refl
  insert_ordered a b (x ∷ xs) ab ba = elim (Bool-cases (before b.key x.key)) [
    | inl bx ↦ rw (bx, ab, order.trans a.key b.key x.key ab bx, ba, bx) refl
    | inr xb ↦ elim (Bool-cases (before a.key x.key)) [
      | inl ax ↦ rw (xb, ax, ba, xb) refl
      | inr xa ↦ rw (xb, xa, xb) (ap (λ l. x ∷ l) (insert_ordered a b xs ab ba))
    ]
  ]

  -- Inserting entries with keys that are told apart in either order gives the same list.
  insert_comm :
      (a b : Entry) (xs : List Entry)
      → (before a.key b.key && before b.key a.key) ≡ false
      → insert before a (insert before b xs) ≡ insert before b (insert before a xs)
  insert_comm a b xs apart = elim (Bool-cases (before a.key b.key)) [
    | inr ab ↦ sym (insert_ordered b a xs (order.total a.key b.key ab) ab)
    | inl ab ↦ elim (Bool-cases (before b.key a.key)) [
      | inr ba ↦ insert_ordered a b xs ab ba
      | inl ba ↦ cc (rw (ab, ba) at apart)
    ]
  ]

  module _ (quote : String → String) (digits : ℕ → String) where
    sorted_entries : Fields → List Entry
    sorted_entries fs = sort before (canonical_fields before quote digits fs)

    sorted-Reordered :
        (fs gs : Fields) → Reordered before fs gs → sorted_entries fs ≡ sorted_entries gs
    unfolding sorted_entries canonical_json
    sorted-Reordered f g same = refl
    sorted-Reordered f g (next {k} {v} r) =
        ap (insert before (record { key = k; form = canonical_json before quote digits v }))
          (sorted-Reordered _ _ r)
    sorted-Reordered f g (swap {k} {l} {v} {w} {fs} apart) =
        insert_comm (record { key = k; form = canonical_json before quote digits v })
          (record { key = l; form = canonical_json before quote digits w })
          (sort before (canonical_fields before quote digits fs)) apart
    sorted-Reordered f g (after r q) = sorted-Reordered _ _ r ∙ sorted-Reordered _ _ q

    -- The canonical form of an object does not depend on the order of its fields, where the sort
    -- tells the keys that change places apart.
    pub canonical_json-Reordered :
        (fs gs : Fields)
        → Reordered before fs gs
        → canonical_json before quote digits (object fs)
          ≡ canonical_json before quote digits (object gs)
    unfolding canonical_json sorted_entries
    canonical_json-Reordered fs gs r =
        ap (λ es. "{" <> join (map (member before quote digits) es) <> "}")
          (sorted-Reordered fs gs r)
