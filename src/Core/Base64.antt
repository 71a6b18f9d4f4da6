-- ===== src/Core/Base64.antt =====
-- packages/core/src/index.ts: `toBase64Url` and `fromBase64Url`. A text is its list of UTF-16 units. The
-- platform's `btoa` and `atob` are parameters.
use hyeboard.Prelude.{
  ℕ, zero, suc, ◌+◌, ◌-◌, ◌*◌, ◌/◌, ◌%◌, ◌≤◌, ◌≡◌, ◌≢◌, refl, sym, ap, ◌∙◌, Bool, true, not, ◌&&◌,
  ◌||◌, Option, some, List, [], ◌∷◌, ◌++◌, arith, if◌then◌else◌, ◌==◌, leb, ltb, length, all,
  select,
}

abbrev pub Text : Type 0
Text = List ℕ

abbrev in_range : ℕ → ℕ → ℕ → Bool
in_range lo hi c = leb lo c && leb c hi

-- `[A-Za-z0-9+/]`
abbrev pub is_base64_unit : ℕ → Bool
is_base64_unit c =
    in_range b'A' b'Z' c || in_range b'a' b'z' c || in_range b'0' b'9' c || c == b'+' || c == b'/'

abbrev pub repeat : ℕ → ℕ → Text
repeat zero c = []
repeat (suc n) c = c ∷ repeat n c

-- `replaceAll` of one unit by another, and by nothing.
abbrev pub replace : ℕ → ℕ → ℕ → ℕ
replace c d x = if x == c then d else x

abbrev pub replace_all : ℕ → ℕ → Text → Text
replace_all c d [] = []
replace_all c d (x ∷ xs) = replace c d x ∷ replace_all c d xs

abbrev pub remove_all : ℕ → Text → Text
remove_all c xs = select (λ x. not (x == c)) xs

abbrev pub pad_end : Text → ℕ → ℕ → Text
pad_end xs target c = xs ++ repeat (target - length xs) c

abbrev pub are_bytes : List ℕ → Bool
are_bytes bytes = all (λ b. ltb b 256) bytes

-- The base64 coder of the platform: what it encodes it decodes, nothing as nothing, and an encoding is of units of its
-- alphabet and at most two `=` after them, of a length that is a multiple of four.
pub record Coder : Type 0 where
  pub btoa : List ℕ → Text
  pub atob : Text → Option (List ℕ)

pub record IsLawful (C : Coder) : Type 0 where
  pub decodes : (bytes : List ℕ) → are_bytes bytes ≡ true → C.atob (C.btoa bytes) ≡ some bytes
  pub empty : C.btoa [] ≡ []
  pub body : List ℕ → Text
  pub padding : List ℕ → ℕ
  pub shape :
      (bytes : List ℕ)
      → are_bytes bytes ≡ true
      → C.btoa bytes ≡ body bytes ++ repeat (padding bytes) b'='
  pub alphabet : (bytes : List ℕ) → are_bytes bytes ≡ true → all is_base64_unit (body bytes) ≡ true
  pub padding-le : (bytes : List ℕ) → are_bytes bytes ≡ true → padding bytes ≤ 2
  pub quantum :
      (bytes : List ℕ) → are_bytes bytes ≡ true → (length (body bytes) + padding bytes) % 4 ≡ 0

unfoldable pub to_base64_url : Coder → List ℕ → Text
to_base64_url C bytes =
    remove_all b'=' (replace_all b'/' b'_' (replace_all b'+' b'-' (C.btoa bytes)))

-- `Math.ceil(n / 4) * 4`
abbrev pub padded_length : ℕ → ℕ
padded_length n = (n + 3) / 4 * 4

unfoldable pub from_base64_url : Coder → Text → Option (List ℕ)
from_base64_url C value = C.atob (
    pad_end (replace_all b'_' b'/' (replace_all b'-' b'+' value)) (padded_length (length value))
      b'=')

-- `[A-Za-z0-9_-]`
abbrev pub is_url_unit : ℕ → Bool
is_url_unit c =
    in_range b'A' b'Z' c || in_range b'a' b'z' c || in_range b'0' b'9' c || c == b'_' || c == b'-'

abbrev to_url : Text → Text
to_url xs = replace_all b'/' b'_' (replace_all b'+' b'-' xs)

abbrev from_url : Text → Text
from_url xs = replace_all b'_' b'/' (replace_all b'-' b'+' xs)

-- One unit there and back; it becomes one of the URL's alphabet, which is not `=`.
unit_back :
    (x : ℕ)
    → is_base64_unit x ≡ true
    → replace b'_' b'/' (replace b'-' b'+' (replace b'/' b'_' (replace b'+' b'-' x))) ≡ x
unit_back x h = ground arith

unit_url :
    (x : ℕ) → is_base64_unit x ≡ true → is_url_unit (replace b'/' b'_' (replace b'+' b'-' x)) ≡ true
unit_url x h = ground arith

from_url-to_url : (xs : Text) → all is_base64_unit xs ≡ true → from_url (to_url xs) ≡ xs
from_url-to_url [] h = refl
from_url-to_url (x ∷ xs) h = ground (arith, unit_back x, from_url-to_url xs)

all-to_url : (xs : Text) → all is_base64_unit xs ≡ true → all is_url_unit (to_url xs) ≡ true
all-to_url [] h = refl
all-to_url (x ∷ xs) h = ground (arith, unit_url x, all-to_url xs)

length-to_url : (xs : Text) → length (to_url xs) ≡ length xs
length-to_url [] = refl
length-to_url (x ∷ xs) = ap (λ n. suc n) (length-to_url xs)

to_url-append : (xs ys : Text) → to_url (xs ++ ys) ≡ to_url xs ++ to_url ys
to_url-append [] ys = refl
to_url-append (x ∷ xs) ys =
    ap (λ zs. replace b'/' b'_' (replace b'+' b'-' x) ∷ zs) (to_url-append xs ys)

to_url-repeat : (n : ℕ) → to_url (repeat n b'=') ≡ repeat n b'='
to_url-repeat zero = refl
to_url-repeat (suc n) = ap (λ zs. b'=' ∷ zs) (to_url-repeat n)

remove_all-repeat : (n : ℕ) → remove_all b'=' (repeat n b'=') ≡ []
remove_all-repeat zero = refl
remove_all-repeat (suc n) = remove_all-repeat n

-- Removing `=` from a text of the alphabet and some `=` after it leaves the text.
remove_all-url :
    (xs : Text) (n : ℕ) → all is_url_unit xs ≡ true → remove_all b'=' (xs ++ repeat n b'=') ≡ xs
remove_all-url [] n h = remove_all-repeat n
remove_all-url (x ∷ xs) n h = ground (arith, remove_all-url xs n)

module _ (C : Coder) (laws : IsLawful C) where
  to_base64_url-body :
      (bytes : List ℕ) → are_bytes bytes ≡ true → to_base64_url C bytes ≡ to_url (laws.body bytes)
  unfolding to_base64_url
  to_base64_url-body bytes y =
      ap (λ t. remove_all b'=' (to_url t)) (laws.shape bytes y)
      ∙ ap (remove_all b'=') (to_url-append (laws.body bytes) (repeat (laws.padding bytes) b'='))
      ∙ ap (λ t. remove_all b'=' (to_url (laws.body bytes) ++ t))
          (to_url-repeat (laws.padding bytes))
      ∙ remove_all-url (to_url (laws.body bytes)) (laws.padding bytes)
          (all-to_url (laws.body bytes) (laws.alphabet bytes y))

  -- The encoding is of the URL's alphabet.
  pub to_base64_url-alphabet :
      (bytes : List ℕ) → are_bytes bytes ≡ true → all is_url_unit (to_base64_url C bytes) ≡ true
  to_base64_url-alphabet bytes y =
      rw (to_base64_url-body bytes y) (all-to_url (laws.body bytes) (laws.alphabet bytes y))

  -- What is encoded is decoded.
  pub from_base64_url-to_base64_url :
      (bytes : List ℕ)
      → are_bytes bytes ≡ true
      → from_base64_url C (to_base64_url C bytes) ≡ some bytes
  unfolding from_base64_url
  from_base64_url-to_base64_url bytes y =
      let b = laws.body bytes in
      let t = to_url b in
      let full : padded_length (length t) - length b ≡ laws.padding bytes =
        omega
          (arith, length-to_url (laws.body bytes), laws.padding-le bytes y, laws.quantum bytes y) in
      ap (λ u. C.atob (pad_end (from_url u) (padded_length (length u)) b'='))
        (to_base64_url-body bytes y)
      ∙ ap (λ u. C.atob (pad_end u (padded_length (length t)) b'='))
          (from_url-to_url b (laws.alphabet bytes y))
      ∙ ap (λ k. C.atob (b ++ repeat k b'=')) full
      ∙ ap C.atob (sym (laws.shape bytes y))
      ∙ laws.decodes bytes y

  empty_url : to_base64_url C [] ≡ []
  unfolding to_base64_url
  empty_url = ap (λ t. remove_all b'=' (to_url t)) laws.empty

  -- Only nothing is encoded as nothing.
  pub to_base64_url-nonempty :
      (x : ℕ) (bytes : List ℕ) → are_bytes (x ∷ bytes) ≡ true → to_base64_url C (x ∷ bytes) ≢ []
  to_base64_url-nonempty x bytes y e =
      let blank : to_base64_url C [] ≡ [] = empty_url in
      let same : some (x ∷ bytes) ≡ some [] =
        sym (from_base64_url-to_base64_url (x ∷ bytes) y)
        ∙ ap (from_base64_url C) (e ∙ sym blank)
        ∙ from_base64_url-to_base64_url [] refl in
      cc
