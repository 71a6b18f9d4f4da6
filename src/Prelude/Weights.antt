-- ===== src/Prelude/Weights.antt =====
-- Association lists under writes and deletions: distinct keys, the sum of a measure of the values,
-- and the room that distinct keys take.
use Prim.Native.Nat.{ℕ, ◌+◌, ◌<◌}
use Prim.Native.String.{String}
use mathlib.Core.Path.{◌≡◌, refl}
use mathlib.Core.List.{[], ◌∷◌}
use mathlib.Core.Option.{Option, none, some}
use native.Mathlib.Omega.{arith}
use hyeboard.Prelude.Tests.{if_cases}
use hyeboard.Prelude.Lists.{length}
use hyeboard.Prelude.Texts.{str_eq, str_eq_iff}
use hyeboard.Prelude.Records.{
  Dict, lookup, insert, erase, lookup-insert, lookup-erase, HasUniqueKeys, length-erase-le,
}

module _ {ℓ} {V : Type ℓ} where
  pub insert-HasUniqueKeys :
      (k : String) (v : V) (m : Dict V) → HasUniqueKeys m → HasUniqueKeys (insert k v m)
  unfolding insert lookup
  insert-HasUniqueKeys k v [] u = (refl, tt)
  insert-HasUniqueKeys k v ((j, w) ∷ m) u =
      let rest = insert-HasUniqueKeys k v m u.1 in
      if_cases HasUniqueKeys (str_eq j k) (λ same. (ground (arith, str_eq_iff j k, u.0), u.1))
        (λ other.
          (ground (arith, str_eq_iff k j, str_eq_iff j k, lookup-insert k j v m, u.0), rest))

  pub erase-HasUniqueKeys : (k : String) (m : Dict V) → HasUniqueKeys m → HasUniqueKeys (erase k m)
  unfolding erase
  erase-HasUniqueKeys k [] u = tt
  erase-HasUniqueKeys k ((j, w) ∷ m) u =
      let rest = erase-HasUniqueKeys k m u.1 in
      if_cases HasUniqueKeys (str_eq j k) (λ _. rest)
        (λ _. (ground (arith, lookup-erase k j m, u.0), rest))

  pub erase_absent : (k : String) (m : Dict V) → lookup k m ≡ none → erase k m ≡ m
  unfolding lookup erase
  erase_absent k [] h = refl
  erase_absent k ((j, w) ∷ m) h = ground (arith, erase_absent k m)

  -- The sum of a measure over the values.
  abbrev pub total : (V → ℕ) → Dict V → ℕ
  total f [] = 0
  total f ((k, v) ∷ m) = f v + total f m

  abbrev pub weight : (V → ℕ) → Option V → ℕ
  weight f none = 0
  weight f (some v) = f v

  pub total-erase :
      (f : V → ℕ) (k : String) (m : Dict V)
      → HasUniqueKeys m
      → total f (erase k m) + weight f (lookup k m) ≡ total f m
  unfolding lookup erase
  total-erase f k [] u = omega arith
  total-erase f k ((j, w) ∷ m) u =
      ground (arith, str_eq_iff j k, erase_absent k m, u.0, total-erase f k m u.1)

  pub total-insert :
      (f : V → ℕ) (k : String) (v : V) (m : Dict V)
      → HasUniqueKeys m
      → total f (insert k v m) + weight f (lookup k m) ≡ total f m + f v
  unfolding lookup insert
  total-insert f k v [] u = omega arith
  total-insert f k v ((j, w) ∷ m) u = ground (arith, total-insert f k v m u.1)

  pub length-erase-lt :
      (k : String) (v : V) (m : Dict V) → lookup k m ≡ some v → length (erase k m) < length m
  unfolding lookup erase
  length-erase-lt k v [] h = ground arith
  length-erase-lt k v ((j, w) ∷ m) h = ground (arith, length-erase-le k m, length-erase-lt k v m)
