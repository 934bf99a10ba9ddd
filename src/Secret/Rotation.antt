-- ===== src/Secret/Rotation.antt =====
-- backend/src/crypto.ts: what is encrypted is read again, also after the keys are rotated.
use project_flakey.Prelude.{
  ◌≡◌, refl, sym, ap, ◌∙◌, String, Bool, true, false, ◌&&◌, ◌||◌, not, Option, none, some, List, [],
  ◌∷◌, str_eq, if◌then◌else◌, Bool-cases, Option-cases, inl, inr,
}
use project_flakey.Prelude.Split.{
  starts_with, starts_with-append, split, split-append, split_whole, has_char, append-nonempty,
}
use project_flakey.Secret.Envelope.{
  Cipher, IsCipher, Outcome, returns, pieces, envelope, encrypt_secret, try_decrypt, decrypt_pieces,
  decrypt_secret, rotate_pieces, rotate_secret,
}
use Prim.Native.String.{◌++◌, ◌∷◌}
use Prim.Native.String.append

prefix : (s : String) → "v1:" ++ s ≡ "v1" ++ (":" ∷ s)
prefix s = rw (
  append.cons "v" "1:" s,
  append.cons "1" ":" s,
  append.cons ":" "" s,
  append.nil s,
  append.cons "v" "1" (":" ∷ s),
  append.cons "1" "" (":" ∷ s),
  append.nil (":" ∷ s),
)

module _ (c : Cipher) (h : IsCipher c) (k : c.Key) (iv : c.Bytes) (plain : String)
    (filled : str_eq plain "" ≡ false) (drawn : str_eq (c.encode iv) "" ≡ false) where
  abbrev text : String
  text = envelope c iv (c.seal k iv plain)

  envelope-pieces :
      pieces (split ":" text)
      ≡ some (c.encode iv, c.encode (c.seal k iv plain).1, c.encode (c.seal k iv plain).0)
  unfolding envelope pieces has_char project_flakey.Prelude.Split.same_char
  envelope-pieces =
      let (ct, tag) = c.seal k iv plain in
      let rest = c.encode tag ++ (":" ∷ c.encode ct) in
      rw (
        prefix (c.encode iv ++ (":" ∷ rest)),
        split-append ":" "v1" (c.encode iv ++ (":" ∷ rest)) refl,
        split-append ":" (c.encode iv) rest (h.encode_clear iv),
        split-append ":" (c.encode tag) (c.encode ct) (h.encode_clear tag),
        split_whole ":" (c.encode ct) (h.encode_clear ct),
        drawn,
        h.seal_tag k iv plain,
        h.seal_text k iv plain filled,
      )

  envelope-filled : str_eq text "" ≡ false
  unfolding envelope
  envelope-filled =
      let (ct, tag) = c.seal k iv plain in
      let rest = c.encode iv ++ (":" ∷ (c.encode tag ++ (":" ∷ c.encode ct))) in
      rw (prefix rest) (append-nonempty "v1" ":" rest)

  envelope-prefix : starts_with "v1:" text ≡ true
  unfolding envelope
  envelope-prefix =
      let (ct, tag) = c.seal k iv plain in
      starts_with-append "v1:" (c.encode iv ++ (":" ∷ (c.encode tag ++ (":" ∷ c.encode ct))))

  -- The text is read by its key, be it the primary one or the old one.
  try-envelope :
      try_decrypt c
        (some k)
        (c.encode iv, c.encode (c.seal k iv plain).1, c.encode (c.seal k iv plain).0)
      ≡ some plain
  unfolding try_decrypt
  try-envelope =
      let (ct, tag) = c.seal k iv plain in
      rw (try_decrypt, h.decode-encode iv, h.decode-encode tag, h.decode-encode ct)
        (h.unseal-seal k iv plain)

  decrypt-envelope :
      (old : Option c.Key) → decrypt_secret c (some k) old (some text) ≡ returns (some plain)
  unfolding decrypt_secret decrypt_pieces
  decrypt-envelope old =
      rw (envelope-filled, envelope-prefix, envelope-pieces, decrypt_pieces, try-envelope)

-- What is encrypted under a key is read back, by whoever has this key as the primary one and any key or
-- none as the old one; and without any key, where nothing is encrypted, it is stored and read as it
-- is. This asks that the cipher and base64 do what they document, that the secret is not empty and
-- does not itself begin like an encrypted value, and that the drawn iv is not empty.
pub encrypt_secret-decrypt_secret :
    (c : Cipher)
    → IsCipher c
    → (k : c.Key) (old : Option c.Key) (iv : c.Bytes) (plain : String) → str_eq plain "" ≡ false
    → starts_with "v1:" plain ≡ false
    → str_eq (c.encode iv) "" ≡ false
    → (decrypt_secret c (some k) old (encrypt_secret c (some k) iv (some plain))
        ≡ returns (some plain))
      × (decrypt_secret c none none (encrypt_secret c none iv (some plain)) ≡ returns (some plain))
unfolding encrypt_secret decrypt_secret
encrypt_secret-decrypt_secret c h k old iv plain filled free drawn = (
  rw filled (decrypt-envelope c h k iv plain filled drawn old),
  rw filled (rw (decrypt_secret, filled, free)),
)

some_in : Outcome (Option String) → Option String
some_in (returns o) = o
some_in _ = none

returns_eq : {p q : String} → Outcome.returns (some p) ≡ returns (some q) → some p ≡ some q
unfolding some_in
returns_eq e = ap some_in e

some_eq : {p q : String} → some p ≡ some q → p ≡ q
some_eq e = cc

-- A rotation keeps every secret and frees it of the old key: whatever is read from an encrypted value
-- with the new key and the old one, the rotation returns a value from which the new key alone reads the
-- same. This asks that the cipher and base64 do what they document, that the secret is not empty, and
-- that the drawn iv is not empty.
pub rotate_secret-decrypt_secret :
    (c : Cipher)
    → IsCipher c
    → (new old : c.Key) (iv : c.Bytes) (value plain : String) → starts_with "v1:" value ≡ true
    → str_eq plain "" ≡ false
    → str_eq (c.encode iv) "" ≡ false
    → decrypt_secret c (some new) (some old) (some value) ≡ returns (some plain)
    → (next : String) × (anew : Bool) × (rotate_secret c (some new) (some old) iv (some value)
        ≡ returns (some next, anew))
      × (decrypt_secret c (some new) none (some next) ≡ returns (some plain))
unfolding rotate_secret decrypt_secret rotate_pieces decrypt_pieces encrypt_secret
rotate_secret-decrypt_secret c h new old iv value plain marked filled drawn e =
    elim (Bool-cases (str_eq value "")) [
      | inl blank ↦ cc (rw (decrypt_secret, blank) at e)
      | inr full ↦ elim (Option-cases (pieces (split ":" value))) [
        | inl bad ↦ cc (rw (decrypt_secret, full, marked, bad) at e)
        | inr (p, good) ↦ elim (Option-cases (try_decrypt c (some new) p)) [
          | inl locked ↦ elim (Option-cases (try_decrypt c (some old) p)) [
            | inl lost ↦
                cc (rw (decrypt_secret, full, marked, good, decrypt_pieces, locked, lost) at e)
            | inr (q, read) ↦
                let same : some q ≡ some plain =
                  returns_eq
                    (rw (decrypt_secret, full, marked, good, decrypt_pieces, locked, read) at e) in
                let kept : str_eq q "" ≡ false = rw (some_eq same) filled in
                (
                  envelope c iv (c.seal new iv q),
                  true,
                  rw (
                    rotate_secret, full, marked, good, rotate_pieces, locked, read, encrypt_secret,
                    kept,
                  ),
                  decrypt-envelope c h new iv q kept drawn none ∙ ap returns same,
                )
          ]
          | inr (q, read) ↦
              let same : some q ≡ some plain =
                returns_eq (rw (decrypt_secret, full, marked, good, decrypt_pieces, read) at e) in
              (
                value,
                false,
                rw (rotate_secret, full, marked, good, rotate_pieces, read),
                rw (decrypt_secret, full, marked, good, decrypt_pieces, read) (ap returns same),
              )
        ]
      ]
    ]
