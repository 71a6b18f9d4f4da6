-- ===== src/Core/Json.antt =====
-- packages/core/src/index.ts: the values that `JSON.parse` returns, as far as the envelopes look at
-- them, and `isJsonObject` and `hasExactKeys`.
use hyeboard.Prelude.{
  ℕ, Bool, true, false, ◌&&◌, ◌||◌, Option, none, some, List, [], ◌∷◌, String, if◌then◌else◌,
  str_eq, ◌==◌,
}

-- An object is its list of fields; arrays, Booleans and null are not told apart.
mutual
  pub data Json : Type 0 where
    text : String → Json
    number : ℕ → Json
    object : Fields → Json
    other : Json

  pub data Fields : Type 0 where
    end_object : Fields
    field : String → Json → Fields → Fields

abbrev pub get : String → Fields → Option Json
get k end_object = none
get k (field j v rest) = let later = get k rest in if str_eq j k then some v else later

abbrev pub includes : List String → String → Bool
includes [] k = false
includes (j ∷ js) k = str_eq j k || includes js k

abbrev pub has_only : List String → Fields → Bool
has_only allowed end_object = true
has_only allowed (field k v rest) = includes allowed k && has_only allowed rest

abbrev pub is_found : Option Json → Bool
is_found none = false
is_found (some v) = true

abbrev pub has_own : Fields → List String → Bool
has_own fields [] = true
has_own fields (k ∷ ks) = is_found (get k fields) && has_own fields ks

-- `hasExactKeys`
unfoldable pub has_exact_keys : Fields → List String → List String → Bool
has_exact_keys fields allowed required = has_only allowed fields && has_own fields required

abbrev pub is_number : ℕ → Option Json → Bool
is_number n (some (number m)) = m == n
is_number n _ = false

abbrev pub is_text : String → Option Json → Bool
is_text t (some (text s)) = str_eq s t
is_text t _ = false
