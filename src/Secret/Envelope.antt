-- ===== src/Secret/Envelope.antt =====
-- backend/src/crypto.ts: the envelope v1:<iv>:<tag>:<ciphertext> of an encrypted secret. Node's cipher
-- (AES-256-GCM) and its base64 are the record Cipher; the two configured keys, as parseKey reads them
-- from the environment, and the random iv are inputs.
use project_flakey.Prelude.{
  ◌≡◌, String, Bool, true, false, ◌||◌, not, Option, none, some, List, ◌∷◌, str_eq, if◌then◌else◌,
}
use project_flakey.Prelude.Split.{starts_with, split, has_char}
use Prim.Native.String.{◌++◌, ◌∷◌}

-- What the code takes from node: `seal` gives the ciphertext and the tag, and `unseal` gives the text
-- where the tag authenticates it.
pub record Cipher : Type 1 where
  pub Key : Type 0
  pub Bytes : Type 0
  pub encode : Bytes → String
  pub decode : String → Bytes
  pub seal : Key → Bytes → String → Bytes × Bytes
  pub unseal : Key → Bytes → Bytes → Bytes → Option String

-- The documented behaviour: base64 decodes to what was encoded and has no colon; the tag, and the
-- ciphertext of a text that is not empty, are not empty; and what was sealed unseals under its key.
pub record IsCipher (c : Cipher) : Type 0 where
  pub decode-encode : (b : c.Bytes) → c.decode (c.encode b) ≡ b
  pub encode_clear : (b : c.Bytes) → has_char ":" (c.encode b) ≡ false
  pub seal_text :
      (k : c.Key) (iv : c.Bytes) (plain : String)
      → str_eq plain "" ≡ false
      → str_eq (c.encode (c.seal k iv plain).0) "" ≡ false
  pub seal_tag :
      (k : c.Key) (iv : c.Bytes) (plain : String)
      → str_eq (c.encode (c.seal k iv plain).1) "" ≡ false
  pub unseal-seal :
      (k : c.Key) (iv : c.Bytes) (plain : String)
      → let (ct, tag) = c.seal k iv plain in c.unseal k iv tag ct ≡ some plain

-- What a function returns, or the error it throws.
pub data Outcome {ℓ} (A : Type ℓ) : Type ℓ where
  returns : A → Outcome A
  no_key no_primary no_old malformed unreadable : Outcome A

-- The pieces 1, 2 and 3 of a value split at its colons, unless one is missing or empty.
unfoldable pub pieces : List String → Option (String × String × String)
pieces (version ∷ iv ∷ tag ∷ ct ∷ rest) =
    if str_eq iv "" || str_eq tag "" || str_eq ct "" then none else some (iv, tag, ct)
pieces _ = none

module _ (c : Cipher) where
  unfoldable pub envelope : c.Bytes → c.Bytes × c.Bytes → String
  envelope iv sealed =
      "v1:" ++ (c.encode iv ++ (":" ∷ (c.encode sealed.1 ++ (":" ∷ c.encode sealed.0))))

  -- encryptSecret
  unfoldable pub encrypt_secret : Option c.Key → c.Bytes → Option String → Option String
  encrypt_secret key iv none = none
  encrypt_secret key iv (some plaintext) =
      if str_eq plaintext ""
      then none
      else elim key [ none ↦ some plaintext | some k ↦ some (envelope iv (c.seal k iv plaintext)) ]

  -- tryDecrypt on the pieces of a value
  unfoldable pub try_decrypt : Option c.Key → String × String × String → Option String
  try_decrypt none p = none
  try_decrypt (some k) p = c.unseal k (c.decode p.0) (c.decode p.1) (c.decode p.2)

  -- The primary key first, then the old one.
  unfoldable pub decrypt_pieces :
      Option c.Key → Option c.Key → String × String × String → Outcome (Option String)
  decrypt_pieces primary old p = elim (try_decrypt primary p) [
    | some plain ↦ returns (some plain)
    | none ↦ elim (try_decrypt old p) [ some plain ↦ returns (some plain) | none ↦ unreadable ]
  ]

  abbrev pub no_keys : Option c.Key → Option c.Key → Bool
  no_keys (some k) old = false
  no_keys none (some k) = false
  no_keys none none = true

  -- decryptSecret
  unfoldable pub decrypt_secret :
      Option c.Key → Option c.Key → Option String → Outcome (Option String)
  decrypt_secret primary old none = returns none
  decrypt_secret primary old (some value) =
      if str_eq value ""
      then returns none
      else if not (starts_with "v1:" value)
      then returns (some value)
      else if no_keys primary old
      then no_key
      else elim (pieces (split ":" value)) [
        | none ↦ malformed
        | some p ↦ decrypt_pieces primary old p
      ]

  -- rotateSecret: the value, and whether it was encrypted anew.
  unfoldable pub rotate_pieces :
      c.Key
      → Option c.Key
      → c.Bytes
      → String
      → String × String × String
      → Outcome (Option String × Bool)
  rotate_pieces primary old iv value p = elim (try_decrypt (some primary) p) [
    | some plain ↦ returns (some value, false)
    | none ↦ elim old [
      | none ↦ no_old
      | some k ↦ elim (try_decrypt (some k) p) [
        | none ↦ unreadable
        | some plain ↦ returns (encrypt_secret (some primary) iv (some plain), true)
      ]
    ]
  ]

  unfoldable pub rotate_secret :
      Option c.Key → Option c.Key → c.Bytes → Option String → Outcome (Option String × Bool)
  rotate_secret primary old iv none = returns (none, false)
  rotate_secret primary old iv (some value) =
      if str_eq value ""
      then returns (none, false)
      else if not (starts_with "v1:" value)
      then returns (some value, false)
      else elim primary [
        | none ↦ no_primary
        | some k ↦ elim (pieces (split ":" value)) [
          | none ↦ malformed
          | some p ↦ rotate_pieces k old iv value p
        ]
      ]
