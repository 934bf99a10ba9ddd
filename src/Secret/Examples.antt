-- ===== src/Secret/Examples.antt =====
-- A cipher that does what IsCipher asks, secrets at concrete values, and the theorems at these inputs.
-- Its keys are two, its bytes are texts, its base64 escapes the colon, and its tag names the key.
use project_flakey.Prelude.{
  ◌≡◌, refl, ap, String, Bool, true, false, none, some, str_eq, str_eq_refl, if◌then◌else◌,
  Bool-cases, inl, inr,
}
use project_flakey.Prelude.Split.{
  same_char, same_char_eq, str_eq-cons, has_char, starts_with, split,
}
use project_flakey.Secret.Envelope.{
  Cipher, IsCipher, returns, encrypt_secret, decrypt_secret, rotate_secret, envelope, pieces,
  try_decrypt, decrypt_pieces,
}
use project_flakey.Secret.Rotation.{encrypt_secret-decrypt_secret, rotate_secret-decrypt_secret}
use Prim.Native.String.{[], ◌∷◌}

escape : String → String
escape [] = []
escape (c ∷ s) =
    let rest = escape s in
    if same_char ":" c
    then "b" ∷ ("a" ∷ rest)
    else if same_char "b" c
    then "b" ∷ ("b" ∷ rest)
    else c ∷ rest

-- `after` is that an escape sign came before.
unescape : Bool → String → String
unescape after [] = []
unescape true (c ∷ s) = (if same_char "a" c then ":" else "b") ∷ unescape false s
unescape false (c ∷ s) =
    let escaped = unescape true s in
    let rest = unescape false s in if same_char "b" c then escaped else c ∷ rest

unescape-escape : (s : String) → unescape false (escape s) ≡ s
unfolding escape unescape same_char
unescape-escape [] = refl
unescape-escape (c ∷ s) = elim (Bool-cases (same_char ":" c)) [
  | inl colon ↦ rw (colon, unescape-escape s) (ap (λ x. x ∷ s) (same_char_eq ":" c colon))
  | inr plain ↦ elim (Bool-cases (same_char "b" c)) [
    | inl sign ↦ rw (plain, sign, unescape-escape s) (ap (λ x. x ∷ s) (same_char_eq "b" c sign))
    | inr other ↦ rw (plain, other) (rw other (ap (λ x. c ∷ x) (unescape-escape s)))
  ]
]

escape_clear : (s : String) → has_char ":" (escape s) ≡ false
unfolding escape has_char same_char
escape_clear [] = refl
escape_clear (c ∷ s) = elim (Bool-cases (same_char ":" c)) [
  | inl colon ↦ rw colon (escape_clear s)
  | inr plain ↦ elim (Bool-cases (same_char "b" c)) [
    | inl sign ↦ rw (plain, sign) (escape_clear s)
    | inr other ↦ rw (plain, other) (rw plain (escape_clear s))
  ]
]

escape_full : (s : String) → str_eq s "" ≡ false → str_eq (escape s) "" ≡ false
unfolding escape same_char
escape_full [] h = h
escape_full (c ∷ s) h = elim (Bool-cases (same_char ":" c)) [
  | inl colon ↦ rw colon (str_eq-cons "b" ("a" ∷ escape s))
  | inr plain ↦ elim (Bool-cases (same_char "b" c)) [
    | inl sign ↦ rw (plain, sign) (str_eq-cons "b" ("b" ∷ escape s))
    | inr other ↦ rw (plain, other) (str_eq-cons c (escape s))
  ]
]

abbrev tag_of : Bool → String
tag_of true = "new"
tag_of false = "old"

abbrev toy : Cipher
toy = record {
  Key = Bool;
  Bytes = String;
  encode = escape;
  decode = unescape false;
  seal = λ k iv plain. (plain, tag_of k);
  unseal = λ k iv tag ct. if str_eq tag (tag_of k) then some ct else none;
}

tag_full : (k : Bool) → str_eq (escape (tag_of k)) "" ≡ false
unfolding escape same_char
tag_full true = refl
tag_full false = refl

toy-IsCipher : IsCipher toy
toy-IsCipher = record {
  decode-encode = unescape-escape;
  encode_clear = escape_clear;
  seal_text = λ k iv plain full. escape_full plain full;
  seal_tag = λ k iv plain. tag_full k;
  unseal-seal = λ k iv plain. rw (str_eq_refl (tag_of k));
}

encrypt_secret-decrypt_secret_example :
    (decrypt_secret toy (some true) none (encrypt_secret toy (some true) "iv" (some "a:b"))
      ≡ returns (some "a:b"))
    × (decrypt_secret toy none none (encrypt_secret toy none "iv" (some "a:b"))
        ≡ returns (some "a:b"))
unfolding escape same_char starts_with
encrypt_secret-decrypt_secret_example =
    encrypt_secret-decrypt_secret toy toy-IsCipher true none "iv" "a:b" refl refl refl

-- A secret that was encrypted under the old key.
abbrev stored : String
stored = envelope toy "iv" (toy.seal false "iv" "a:b")

stored_read : decrypt_secret toy (some true) (some false) (some stored) ≡ returns (some "a:b")
unfolding decrypt_secret decrypt_pieces try_decrypt envelope pieces split starts_with same_char
    escape unescape
stored_read = refl

rotate_secret-decrypt_secret_example :
    (next : String) × (anew : Bool) × (rotate_secret toy (some true) (some false) "iv" (some stored)
      ≡ returns (some next, anew))
    × (decrypt_secret toy (some true) none (some next) ≡ returns (some "a:b"))
unfolding envelope starts_with same_char escape
rotate_secret-decrypt_secret_example =
    rotate_secret-decrypt_secret toy toy-IsCipher true false "iv" stored "a:b" refl refl refl
      stored_read
