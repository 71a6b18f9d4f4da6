-- ===== src/Lookup/Targets.antt =====
-- apps/web/src/lib/lookup/bulk-lookup.ts: `parseBulkTargets` and `deriveBulkLookupViewState`. How the
-- platform splits the input into lines and trims a line are parameters.
use hyeboard.Prelude.{
  ℕ, ltb, ◌≤◌, ◌==◌, ◌≡◌, refl, arith, Bool, true, false, not, ◌&&◌, ◌||◌, Option, none, some, List,
  [], ◌∷◌, String, map, length, str_eq, str_eq_iff, is_positive_safe, if◌then◌else◌, Bool-cases,
  inl, inr,
}

pub data BulkTargetError : Type 0 where
  disabled empty too_many : BulkTargetError

pub record ParsedBulkTargets : Type 0 where
  pub targets : List String
  pub error : Option BulkTargetError

pub data BulkLookupViewState : Type 0 where
  view_empty view_validation view_loading view_completed : BulkLookupViewState

abbrev pub has : String → List String → Bool
has t [] = false
has t (x ∷ xs) = str_eq x t || has t xs

-- `.map(trim).filter(Boolean)`, of trimmed lines.
abbrev pub filled : List String → List String
filled [] = []
filled (x ∷ xs) = if str_eq x "" then filled xs else x ∷ filled xs

-- `[...new Set(xs)]`: each text where it comes first, `seen` being those that came before.
unfoldable pub distinct_from : List String → List String → List String
distinct_from seen [] = []
distinct_from seen (x ∷ xs) = elim (has x seen) [
  | true ↦ distinct_from seen xs
  | false ↦ x ∷ distinct_from (x ∷ seen) xs
]

-- A maximum that is left out, or is no positive safe integer, disables the lookup.
abbrev is_enabled : Option ℕ → Bool
is_enabled none = false
is_enabled (some n) = is_positive_safe n

abbrev is_over : Option ℕ → ℕ → Bool
is_over none n = false
is_over (some most) n = ltb most n

abbrev error_of : Option ℕ → ℕ → Option BulkTargetError
error_of max n =
    if not (is_enabled max)
    then some disabled
    else if n == 0
    then some empty
    else if is_over max n
    then some too_many
    else none

unfoldable pub parse_bulk_targets :
    (String → List String) → (String → String) → String → Option ℕ → ParsedBulkTargets
parse_bulk_targets split trim raw max =
    let targets = distinct_from [] (filled (map trim (split raw))) in
    record { targets = targets; error = error_of max (length targets) }

abbrev is_empty_error : Option BulkTargetError → Bool
is_empty_error (some empty) = true
is_empty_error _ = false

abbrev is_error : Option BulkTargetError → Bool
is_error none = false
is_error (some e) = true

unfoldable pub derive_bulk_lookup_view_state : ParsedBulkTargets → Bool → ℕ → BulkLookupViewState
derive_bulk_lookup_view_state input active processed =
    if active
    then view_loading
    else if is_empty_error input.error && processed == 0
    then view_empty
    else if is_error input.error
    then view_validation
    else if ltb 0 processed
    then view_completed
    else view_empty

-- No target comes twice.
abbrev pub AreDistinct : List String → Type 0
AreDistinct [] = Unit
AreDistinct (t ∷ ts) = (has t ts ≡ false) × AreDistinct ts

-- What is taken is what comes up and was not seen before.
has-distinct_from :
    (t : String) (seen xs : List String)
    → has t (distinct_from seen xs) ≡ (has t xs && not (has t seen))
unfolding distinct_from
has-distinct_from t seen [] = refl
has-distinct_from t seen (x ∷ xs) = elim (Bool-cases (has x seen)) [
  | inl q ↦ rw (distinct_from, q, has-distinct_from t seen xs) (ground (arith, str_eq_iff x t, q))
  | inr q ↦
      rw (distinct_from, q, has-distinct_from t (x ∷ seen) xs) (ground (arith, str_eq_iff x t, q))
]

distinct_from-AreDistinct : (seen xs : List String) → AreDistinct (distinct_from seen xs)
unfolding distinct_from
distinct_from-AreDistinct seen [] = tt
distinct_from-AreDistinct seen (x ∷ xs) = elim (Bool-cases (has x seen)) [
  | inl q ↦ rw (distinct_from, q) (distinct_from-AreDistinct seen xs)
  | inr q ↦
      rw (distinct_from, q)
        (
          (ground (arith, has-distinct_from x (x ∷ seen) xs, str_eq_iff x x)),
          distinct_from-AreDistinct (x ∷ seen) xs,
        )
]

has-filled : (t : String) (xs : List String) → has t (filled xs) ≡ (has t xs && not (str_eq t ""))
has-filled t [] = refl
has-filled t (x ∷ xs) =
    ground (arith, str_eq_iff x "", str_eq_iff x t, str_eq_iff t "", has-filled t xs)

-- The targets of an input are distinct, and are just the texts, other than the empty one, that a line
-- comes to once trimmed.
pub parse_bulk_targets_lem :
    (split : String → List String) (trim : String → String) (raw : String) (max : Option ℕ)
    → let targets = (parse_bulk_targets split trim raw max).targets in
      AreDistinct targets
      × ((t : String) → has t targets ≡ (has t (map trim (split raw)) && not (str_eq t "")))
unfolding parse_bulk_targets
parse_bulk_targets_lem split trim raw max =
    let lines = map trim (split raw) in
    (
      distinct_from-AreDistinct [] (filled lines),
      λ t. ground (arith, has-distinct_from t [] (filled lines), has-filled t lines),
    )

-- An input without an error has targets, and no more than the maximum.
pub parse_bulk_targets_fit :
    (split : String → List String) (trim : String → String) (raw : String) (max : Option ℕ)
    → let parsed = parse_bulk_targets split trim raw max in
      parsed.error ≡ none
      → (most : ℕ) × (max ≡ some most)
        × (1 ≤ length parsed.targets)
        × (length parsed.targets ≤ most)
unfolding parse_bulk_targets
parse_bulk_targets_fit split trim raw none h = ground arith
parse_bulk_targets_fit split trim raw (some most) h = (most, refl, ground arith, ground arith)
