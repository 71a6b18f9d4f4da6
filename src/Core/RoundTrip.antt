-- ===== src/Core/RoundTrip.antt =====
-- packages/core/src/index.ts: what is encrypted is decrypted.
use hyeboard.Prelude.{
  ℕ, ◌+◌, ◌≤◌, ◌≡◌, ◌≢◌, refl, ap, ◌∙◌, true, false, some, List, [], ◌∷◌, ◌++◌, String, arith,
  if◌then◌else◌, ◌==◌, ==_iff, leb, ltb, length, all, ok, throw,
}
use hyeboard.Core.Base64.{
  Text, IsLawful, are_bytes, is_url_unit, to_base64_url, to_base64_url-alphabet,
  from_base64_url-to_base64_url, to_base64_url-nonempty,
}
use hyeboard.Core.Json.{object, has_exact_keys}
use hyeboard.Core.Permit.{
  PermitEnvelope, invalid_permit, envelope_fields, is_valid_envelope, read_selector, read_envelope,
  checked_envelope, assert_envelope, Platform, is_strong, token_of, encrypt_permit, split,
  is_text_eq, decrypt_parts, of_parts, decrypt_permit, envelope_max_length,
}

-- What the platform promises: its base64 coder, and authenticated encryption of bytes as bytes, with a
-- tag of 16 of them.
pub record IsLawfulPlatform (P : Platform) : Type 0 where
  pub coder_laws : IsLawful P.coder
  pub decrypt-encrypt :
      (secret : String) (iv plain : List ℕ)
      → P.decrypt secret iv (P.encrypt secret iv plain) ≡ some plain
  pub length-encrypt :
      (secret : String) (iv plain : List ℕ) → length (P.encrypt secret iv plain) ≡ length plain + 16
  pub bytes-encrypt :
      (secret : String) (iv plain : List ℕ)
      → are_bytes plain ≡ true
      → are_bytes (P.encrypt secret iv plain) ≡ true

-- The payload is written as some bytes, from which it is read.
abbrev pub written : Platform → PermitEnvelope → List ℕ
written P p = P.stringify (object (envelope_fields p))

pub record IsReadBack (P : Platform) (p : PermitEnvelope) : Type 0 where
  pub parse-stringify : P.parse (written P p) ≡ some (object (envelope_fields p))
  pub positive : 1 ≤ length (written P p)
  pub bytes : are_bytes (written P p) ≡ true

-- The written payload passes the assertion if the payload is valid, and is read as it was.
assert_envelope-envelope_fields :
    (p : PermitEnvelope) → assert_envelope (object (envelope_fields p)) ≡ checked_envelope p
unfolding assert_envelope read_envelope read_selector has_exact_keys
assert_envelope-envelope_fields p = refl

is_text_eq_self : (xs : Text) → is_text_eq xs xs ≡ true
is_text_eq_self [] = refl
is_text_eq_self (x ∷ xs) = ground (arith, ==_iff x x, is_text_eq_self xs)

-- A text of the alphabet has no dot.
split-url : (xs : Text) → all is_url_unit xs ≡ true → split b'.' xs ≡ (xs ∷ [])
unfolding split
split-url [] h = refl
split-url (x ∷ xs) h = ground (arith, split-url xs)

split-token :
    (xs ys : Text)
    → all is_url_unit xs ≡ true
    → all is_url_unit ys ≡ true
    → split b'.' (xs ++ (b'.' ∷ ys)) ≡ (xs ∷ ys ∷ [])
unfolding split
split-token [] ys h k = ap (λ parts. [] ∷ parts) (split-url ys k)
split-token (x ∷ xs) ys h k = ground (arith, split-token xs ys)

of_parts-decrypt_parts :
    (P : Platform) (secret : String) (xs ys : Text)
    → xs ≢ []
    → ys ≢ []
    → of_parts P secret (xs ∷ ys ∷ []) ≡ decrypt_parts P secret xs ys
of_parts-decrypt_parts P secret [] ys h k = elim (h refl) [ ]
of_parts-decrypt_parts P secret (x ∷ xs) [] h k = elim (k refl) [ ]
of_parts-decrypt_parts P secret (x ∷ xs) (y ∷ ys) h k = refl

module _ (P : Platform) (p : PermitEnvelope) (laws : IsLawfulPlatform P)
    (reads : IsReadBack P p) where
  nonempty_url :
      (bytes : List ℕ)
      → 1 ≤ length bytes
      → are_bytes bytes ≡ true
      → to_base64_url P.coder bytes ≢ []
  nonempty_url [] h y e = let off : ⊥ = omega arith in off
  nonempty_url (x ∷ bytes) h y e = to_base64_url-nonempty P.coder laws.coder_laws x bytes y e

  decrypt_parts-encrypt :
      (secret : String) (iv : List ℕ)
      → are_bytes iv ≡ true
      → is_strong secret ≡ true
      → is_valid_envelope p ≡ true
      → length iv ≡ 12
      → let encrypted = P.encrypt secret iv (written P p) in
        decrypt_parts P secret (to_base64_url P.coder iv) (to_base64_url P.coder encrypted) ≡ ok p
  unfolding decrypt_parts
  decrypt_parts-encrypt secret iv drawn strong valid l =
      let plain = written P p in
      let encrypted = P.encrypt secret iv plain in
      let sealed = laws.bytes-encrypt secret iv plain reads.bytes in
      let twelve : (length iv == 12) ≡ true = ground (arith, ==_iff (length iv) 12) in
      let long : leb 17 (length encrypted) ≡ true =
        ground (arith, laws.length-encrypt secret iv plain, reads.positive) in
      let read : assert_envelope (object (envelope_fields p)) ≡ ok p =
        assert_envelope-envelope_fields p
        ∙ ap (λ b. if b then ok p else throw invalid_permit) valid in
      rw
        (
          from_base64_url-to_base64_url P.coder laws.coder_laws iv drawn,
          twelve,
          is_text_eq_self (to_base64_url P.coder iv),
          from_base64_url-to_base64_url P.coder laws.coder_laws encrypted sealed,
          long,
          is_text_eq_self (to_base64_url P.coder encrypted),
          strong,
          laws.decrypt-encrypt secret iv plain,
          reads.parse-stringify,
        )
        read

  -- What a successful encryption tells.
  encrypt_permit-ok :
      (secret : String) (iv : List ℕ) (token : Text)
      → encrypt_permit P p secret iv ≡ ok token
      → (is_strong secret ≡ true)
        × (is_valid_envelope p ≡ true)
        × (token ≡ token_of P.coder iv (P.encrypt secret iv (written P p)))
        × (ltb envelope_max_length (length token) ≡ false)
  unfolding encrypt_permit
  encrypt_permit-ok secret iv token e =
      let read = assert_envelope-envelope_fields p in
      (ground arith, ground arith, ground arith, ground arith)

-- A permit that is encrypted with a drawn vector of 12 bytes is decrypted to itself with the same secret: if
-- the encryption returns a token, the decryption of that token returns the payload, where the platform
-- keeps what it promises and reads back this payload as it was written.
pub decrypt_permit-encrypt_permit :
    (P : Platform) (p : PermitEnvelope) (secret : String) (iv : List ℕ) (token : Text)
    → IsLawfulPlatform P
    → IsReadBack P p
    → are_bytes iv ≡ true
    → length iv ≡ 12
    → encrypt_permit P p secret iv ≡ ok token
    → decrypt_permit P token secret ≡ ok p
unfolding decrypt_permit
decrypt_permit-encrypt_permit P p secret iv token laws reads drawn l e =
    let plain = written P p in
    let encrypted = P.encrypt secret iv plain in
    let first = to_base64_url P.coder iv in
    let second = to_base64_url P.coder encrypted in
    let (strong, valid, shape, short) = encrypt_permit-ok P p laws reads secret iv token e in
    let sealed = laws.bytes-encrypt secret iv plain reads.bytes in
    let parts : split b'.' token ≡ (first ∷ second ∷ []) =
      ap (split b'.') shape
      ∙ split-token first second (to_base64_url-alphabet P.coder laws.coder_laws iv drawn)
          (to_base64_url-alphabet P.coder laws.coder_laws encrypted sealed) in
    let opened =
      of_parts-decrypt_parts P secret first second
        (nonempty_url P p laws reads iv (omega arith) drawn)
        (nonempty_url P p laws reads encrypted (omega (arith, laws.length-encrypt secret iv plain))
          sealed) in
    rw (short, parts) (opened ∙ decrypt_parts-encrypt P p laws reads secret iv drawn strong valid l)
