-- ===== src/Core/Permit.antt =====
-- packages/core/src/index.ts: the envelope of a cross-detail permit, encrypted and decrypted. The cipher
-- of the platform, its key derivation, and `JSON` with the text coder are parameters; so is the
-- initial vector that is drawn.
use hyeboard.Prelude.{
  utf16_length, ℕ, Bool, true, false, not, ◌&&◌, ◌||◌, Option, none, some, List, [], ◌∷◌, ◌++◌,
  String, codes, if◌then◌else◌, ◌==◌, leb, ltb, length, all, is_hex, Outcome, ok, throw, ◌>>=◌,
  ◌>>◌, ensure,
}
use hyeboard.Core.Base64.{Text, Coder, to_base64_url, from_base64_url}
use hyeboard.Core.Json.{
  Json, text, number, object, Fields, end_object, field, get, has_exact_keys, is_number, is_text,
}

pub record PermitEnvelope : Type 0 where
  pub nonce : String
  pub target_hmac : String
  pub revision_hmac : String
  pub row_hmac : String
  pub std_id : String
  pub class_id : String
  pub term_ordinal : String

pub data PermitError : Type 0 where
  weak_secret invalid_permit : PermitError

abbrev pub envelope_max_length : ℕ
envelope_max_length = 1024

abbrev pub envelope_keys : List String
envelope_keys =
    "nonce" ∷ "purpose" ∷ "revisionHmac" ∷ "rowHmac" ∷ "selector" ∷ "targetHmac" ∷ "version" ∷ []

abbrev pub selector_keys : List String
selector_keys = "classId" ∷ "stdId" ∷ "termOrdinal" ∷ []

-- The payload as the object that is written.
abbrev pub selector_fields : PermitEnvelope → Fields
selector_fields p =
    field "stdId" (text p.std_id)
      (field "classId" (text p.class_id) (field "termOrdinal" (text p.term_ordinal) end_object))

abbrev pub envelope_fields : PermitEnvelope → Fields
envelope_fields p = field "version" (number 1) (
    field "purpose" (text "vnu-cross-detail") (
      field "nonce" (text p.nonce) (
        field "targetHmac" (text p.target_hmac) (
          field "revisionHmac" (text p.revision_hmac) (
            field "rowHmac" (text p.row_hmac)
              (field "selector" (object (selector_fields p)) end_object))))))

-- `/^\d{1,11}$/`
unfoldable pub is_std_id : String → Bool
is_std_id s =
    all (λ c. leb b'0' c && leb c b'9') (codes s)
    && leb 1 (length (codes s))
    && leb (length (codes s)) 11

-- `\s`
abbrev is_space : ℕ → Bool
is_space c =
    (leb 9 c && leb c 13)
    || c == 32
    || c == 160
    || c == 5760
    || (leb 8192 c && leb c 8202)
    || c == 8232
    || c == 8233
    || c == 8239
    || c == 8287
    || c == 12288
    || c == 65279

-- `/^\S{1,n}$/`
unfoldable pub is_solid : ℕ → String → Bool
is_solid n s =
    all (λ c. not (is_space c)) (codes s) && leb 1 (utf16_length s) && leb (utf16_length s) n

unfoldable pub is_valid_envelope : PermitEnvelope → Bool
is_valid_envelope p =
    is_hex 32 p.nonce
    && is_hex 64 p.target_hmac
    && is_hex 64 p.revision_hmac
    && is_hex 64 p.row_hmac
    && is_std_id p.std_id
    && is_solid 32 p.class_id
    && is_solid 16 p.term_ordinal

-- A field that must be a text, and one that must be an object.
abbrev pub text_of : Option Json → Outcome PermitError String
text_of (some (text s)) = ok s
text_of _ = throw invalid_permit

abbrev pub object_of : Option Json → Outcome PermitError Fields
object_of (some (object f)) = ok f
object_of _ = throw invalid_permit

unfoldable pub read_selector :
    Fields → String → String → String → String → Outcome PermitError PermitEnvelope
read_selector selector nonce target revision row =
    if not (has_exact_keys selector selector_keys selector_keys) then throw invalid_permit else (do
      std_id ← text_of (get "stdId" selector)
      class_id ← text_of (get "classId" selector)
      term_ordinal ← text_of (get "termOrdinal" selector)
      ok (record {
        nonce = nonce;
        target_hmac = target;
        revision_hmac = revision;
        row_hmac = row;
        std_id = std_id;
        class_id = class_id;
        term_ordinal = term_ordinal;
      }))

unfoldable pub read_envelope : Fields → Outcome PermitError PermitEnvelope
read_envelope fields = do
  nonce ← text_of (get "nonce" fields)
  target ← text_of (get "targetHmac" fields)
  revision ← text_of (get "revisionHmac" fields)
  row ← text_of (get "rowHmac" fields)
  selector ← object_of (get "selector" fields)
  read_selector selector nonce target revision row

abbrev pub checked_envelope : PermitEnvelope → Outcome PermitError PermitEnvelope
checked_envelope p = if is_valid_envelope p then ok p else throw invalid_permit

-- `assertVnuCrossDetailPermitEnvelope`, with what it finds.
unfoldable pub assert_envelope : Json → Outcome PermitError PermitEnvelope
assert_envelope (object fields) =
    if not (has_exact_keys fields envelope_keys envelope_keys)
    then throw invalid_permit
    else if not (is_number 1 (get "version" fields))
    then throw invalid_permit
    else if not (is_text "vnu-cross-detail" (get "purpose" fields))
    then throw invalid_permit
    else read_envelope fields >>= checked_envelope
assert_envelope _ = throw invalid_permit

-- The platform's cipher (AES-GCM with the module's additional data), with the key derived from a
-- secret, and its coder of JSON values as bytes.
pub record Platform : Type 0 where
  pub coder : Coder
  pub encrypt : String → List ℕ → List ℕ → List ℕ
  pub decrypt : String → List ℕ → List ℕ → Option (List ℕ)
  pub stringify : Json → List ℕ
  pub parse : List ℕ → Option Json

-- `assertStrongSecret`
abbrev pub is_strong : String → Bool
is_strong secret = not (ltb (utf16_length secret) 32)

abbrev pub token_of : Coder → List ℕ → List ℕ → Text
token_of C iv encrypted = to_base64_url C iv ++ (b'.' ∷ to_base64_url C encrypted)

-- `encryptVnuCrossDetailPermitEnvelope`, with the vector `iv` drawn.
unfoldable pub encrypt_permit :
    Platform → PermitEnvelope → String → List ℕ → Outcome PermitError Text
encrypt_permit P p secret iv = do
  ensure (is_strong secret) weak_secret
  q ← assert_envelope (object (envelope_fields p))
  let token = token_of P.coder iv (P.encrypt secret iv (P.stringify (object (envelope_fields q))))
  if ltb envelope_max_length (length token) then throw invalid_permit else ok token

-- `split`
abbrev pub prepend : ℕ → List Text → List Text
prepend x [] = []
prepend x (part ∷ parts) = (x ∷ part) ∷ parts

unfoldable pub split : ℕ → Text → List Text
split c [] = [] ∷ []
split c (x ∷ xs) = let parts = split c xs in if x == c then [] ∷ parts else prepend x parts

abbrev pub or_invalid {ℓ} : {A : Type ℓ} → Option A → Outcome PermitError A
or_invalid none = throw invalid_permit
or_invalid (some a) = ok a

abbrev pub is_text_eq : Text → Text → Bool
is_text_eq [] [] = true
is_text_eq (x ∷ xs) (y ∷ ys) = x == y && is_text_eq xs ys
is_text_eq _ _ = false

-- The rest of the decryption, for the two parts of a token.
unfoldable pub decrypt_parts : Platform → String → Text → Text → Outcome PermitError PermitEnvelope
decrypt_parts P secret first second = do
  iv ← or_invalid (from_base64_url P.coder first)
  ensure (length iv == 12 && is_text_eq (to_base64_url P.coder iv) first) invalid_permit
  encrypted ← or_invalid (from_base64_url P.coder second)
  ensure (leb 17 (length encrypted) && is_text_eq (to_base64_url P.coder encrypted) second)
      invalid_permit
  ensure (is_strong secret) weak_secret
  decrypted ← or_invalid (P.decrypt secret iv encrypted)
  payload ← or_invalid (P.parse decrypted)
  assert_envelope payload

abbrev pub of_parts : Platform → String → List Text → Outcome PermitError PermitEnvelope
of_parts P secret ((x ∷ xs) ∷ (y ∷ ys) ∷ []) = decrypt_parts P secret (x ∷ xs) (y ∷ ys)
of_parts P secret _ = throw invalid_permit

-- `decryptVnuCrossDetailPermitEnvelope`
unfoldable pub decrypt_permit : Platform → Text → String → Outcome PermitError PermitEnvelope
decrypt_permit P token secret = do
  ensure (not (ltb envelope_max_length (length token))) invalid_permit
  of_parts P secret (split b'.' token)
