-- ===== src/Core/Tests.antt =====
-- A platform that keeps its promises, with a base64 coder that spends four units on a byte and a cipher that
-- only prefixes the text, and the theorems at it.
use hyeboard.Prelude.{
  utf16_length, ℕ, ◌+◌, ◌-◌, ◌*◌, ◌/◌, ◌%◌, ◌≡◌, refl, ap, true, Option, none, some, List, [], ◌∷◌,
  ◌++◌, String, arith, length, all, drop, ok, is_hex,
}
use hyeboard.Core.Base64.{Text, Coder, IsLawful, are_bytes, is_base64_unit, repeat, to_base64_url}
use hyeboard.Core.Json.{Json, object, has_exact_keys}
use hyeboard.Core.Permit.{
  PermitEnvelope, envelope_fields, is_std_id, is_solid, is_valid_envelope, read_selector,
  read_envelope, assert_envelope, Platform, token_of, encrypt_permit, decrypt_permit,
}
use hyeboard.Core.RoundTrip.{IsLawfulPlatform, decrypt_permit-encrypt_permit}

unfoldable wide_btoa : List ℕ → Text
wide_btoa [] = []
wide_btoa (b ∷ bs) = (65 + b / 16) ∷ (65 + b % 16) ∷ 65 ∷ 65 ∷ wide_btoa bs

abbrev cons_byte : ℕ → ℕ → Option (List ℕ) → Option (List ℕ)
cons_byte h l none = none
cons_byte h l (some bs) = some (((h - 65) * 16 + (l - 65)) ∷ bs)

unfoldable wide_atob : Text → Option (List ℕ)
wide_atob [] = some []
wide_atob (h ∷ l ∷ x ∷ y ∷ rest) = cons_byte h l (wide_atob rest)
wide_atob _ = none

wide_atob-wide_btoa : (bs : List ℕ) → are_bytes bs ≡ true → wide_atob (wide_btoa bs) ≡ some bs
unfolding wide_btoa wide_atob
wide_atob-wide_btoa [] h = refl
wide_atob-wide_btoa (b ∷ bs) h =
    let byte : (65 + b / 16 - 65) * 16 + (65 + b % 16 - 65) ≡ b = omega arith in
    rw (wide_atob-wide_btoa bs (ground arith), byte) refl

append_nothing : (xs : Text) → xs ≡ xs ++ repeat 0 b'='
append_nothing [] = refl
append_nothing (x ∷ xs) = ap (λ ys. x ∷ ys) (append_nothing xs)

wide_btoa-alphabet : (bs : List ℕ) → are_bytes bs ≡ true → all is_base64_unit (wide_btoa bs) ≡ true
unfolding wide_btoa
wide_btoa-alphabet [] h = refl
wide_btoa-alphabet (b ∷ bs) h = ground (arith, wide_btoa-alphabet bs)

length-wide_btoa : (bs : List ℕ) → length (wide_btoa bs) ≡ 4 * length bs
unfolding wide_btoa
length-wide_btoa [] = refl
length-wide_btoa (b ∷ bs) = omega (arith, length-wide_btoa bs)

abbrev wide_coder : Coder
wide_coder = record { btoa = wide_btoa; atob = wide_atob }

wide_coder-IsLawful : IsLawful wide_coder
unfolding wide_btoa
wide_coder-IsLawful = record {
  decodes = wide_atob-wide_btoa;
  empty = refl;
  body = wide_btoa;
  padding = λ bs. 0;
  shape = λ bs h. append_nothing (wide_btoa bs);
  alphabet = wide_btoa-alphabet;
  padding-le = λ bs h. omega arith;
  quantum = λ bs h. omega (arith, length-wide_btoa bs);
}

abbrev nonce : String
nonce = "cccccccccccccccccccccccccccccccc"

abbrev hmac : String
hmac = "0123456789abcdef0123456789abcdef0123456789abcdef0123456789abcdef"

abbrev sample : PermitEnvelope
sample = record {
  nonce = nonce;
  target_hmac = hmac;
  revision_hmac = hmac;
  row_hmac = hmac;
  std_id = "21020001";
  class_id = "INT1001";
  term_ordinal = "251";
}

abbrev read_sample : List ℕ → Option Json
read_sample [] = none
read_sample (b ∷ bs) = some (object (envelope_fields sample))

abbrev platform : Platform
platform = record {
  coder = wide_coder;
  encrypt = λ secret iv plain. repeat 16 0 ++ plain;
  decrypt = λ secret iv encrypted. some (drop 16 encrypted);
  stringify = λ value. 7 ∷ [];
  parse = read_sample;
}

platform-IsLawfulPlatform : IsLawfulPlatform platform
platform-IsLawfulPlatform = record {
  coder_laws = wide_coder-IsLawful;
  decrypt-encrypt = λ secret iv plain. refl;
  length-encrypt = λ secret iv plain. omega arith;
  bytes-encrypt = λ secret iv plain h. h;
}

abbrev vector : List ℕ
vector = repeat 12 200

abbrev sample_token : Text
sample_token = token_of wide_coder vector (repeat 16 0 ++ (7 ∷ []))

decrypt_permit-encrypt_permit_example : decrypt_permit platform sample_token nonce ≡ ok sample
unfolding encrypt_permit assert_envelope read_envelope read_selector has_exact_keys
    is_valid_envelope is_std_id is_solid is_hex utf16_length to_base64_url wide_btoa
decrypt_permit-encrypt_permit_example =
    decrypt_permit-encrypt_permit platform sample nonce vector sample_token
      platform-IsLawfulPlatform
      (record { parse-stringify = refl; positive = omega arith; bytes = refl }) refl refl refl
