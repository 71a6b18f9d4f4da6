-- ===== src/Protocol/Ids.antt =====
-- packages/automation-protocol/src/index.ts: opaque identifiers. `toBase64Url` and `fromBase64Url`
-- replace, pad and decode as those of packages/core do; the latter also reads back what it decoded.
use hyeboard.Prelude.{
  ℕ, ◌≡◌, refl, Bool, true, false, ◌&&◌, Option, none, some, List, [], ◌∷◌, String, arith, ◌==◌,
  Option-cases, inl, inr, length, all, codes, is_base64url_22, if◌then◌else◌,
}
use hyeboard.Core.Base64.{Text, Coder, is_url_unit, to_base64_url, from_base64_url}

abbrev pub opaque_id_bytes : ℕ
opaque_id_bytes = 16

unfoldable pub is_same_text : Text → Text → Bool
is_same_text [] [] = true
is_same_text [] (y ∷ ys) = false
is_same_text (x ∷ xs) [] = false
is_same_text (x ∷ xs) (y ∷ ys) = x == y && is_same_text xs ys

-- `/^[A-Za-z0-9_-]+$/`
abbrev is_url_text : Text → Bool
is_url_text [] = false
is_url_text (x ∷ xs) = all is_url_unit (x ∷ xs)

unfoldable pub read_base64_url : Coder → Text → Option (List ℕ)
read_base64_url C value =
    let decoded : Option (List ℕ) = elim (from_base64_url C value) [
      | none ↦ none
      | some bytes ↦ if is_same_text (to_base64_url C bytes) value then some bytes else none
    ] in
    if is_url_text value then decoded else none

-- `isOpaqueId`
unfoldable pub is_opaque_id : Coder → String → Bool
is_opaque_id C value = is_base64url_22 value && elim (read_base64_url C (codes value)) [
  | none ↦ false
  | some bytes ↦ length bytes == opaque_id_bytes
]

is_same_text-eq : (a b : Text) → is_same_text a b ≡ true → a ≡ b
unfolding is_same_text
is_same_text-eq [] [] h = refl
is_same_text-eq [] (y ∷ ys) h = ground arith
is_same_text-eq (x ∷ xs) [] h = ground arith
is_same_text-eq (x ∷ xs) (y ∷ ys) h = ground (arith, is_same_text-eq xs ys)

-- What is read is written back as it was: no bytes have a second spelling.
pub read_base64_url-canonical :
    (C : Coder) (value : Text) (bytes : List ℕ)
    → read_base64_url C value ≡ some bytes
    → to_base64_url C bytes ≡ value
unfolding read_base64_url
read_base64_url-canonical C value bytes h = elim (Option-cases (from_base64_url C value)) [
  | inl q ↦ ground arith
  | inr (found, q) ↦ ground (arith, is_same_text-eq (to_base64_url C found) value)
]
