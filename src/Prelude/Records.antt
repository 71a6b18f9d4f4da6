-- ===== src/Prelude/Records.antt =====
-- `Record<string, V>` and `Map<string, V>` as association lists in order of insertion: a write to
-- a key that is there keeps its place, as in JavaScript, and a new key goes to the end.
use Prim.Native.Nat.{◌≤◌, suc}
use Prim.Native.String.{String}
use mathlib.Core.Path.{◌≡◌, refl}
use mathlib.Core.Bool.{Bool, true, ◌&&◌}
use mathlib.Core.List.{List, [], ◌∷◌}
use mathlib.Core.Option.{Option, none, some}
use native.Mathlib.Omega.{arith}
use hyeboard.Prelude.Tests.{if◌then◌else◌, if_cases}
use hyeboard.Prelude.Lists.{length}
use hyeboard.Prelude.Texts.{str_eq, str_eq_iff}

abbrev pub Dict {ℓ} : Type ℓ → Type ℓ
Dict V = List (String × V)

module _ {ℓ} {V : Type ℓ} where
  unfoldable pub lookup : String → Dict V → Option V
  lookup k [] = none
  lookup k ((j, v) ∷ m) = if str_eq j k then some v else lookup k m

  unfoldable pub insert : String → V → Dict V → Dict V
  insert k v [] = (k, v) ∷ []
  insert k v ((j, w) ∷ m) = if str_eq j k then (k, v) ∷ m else (j, w) ∷ insert k v m

  unfoldable pub erase : String → Dict V → Dict V
  erase k [] = []
  erase k ((j, w) ∷ m) = let rest = erase k m in if str_eq j k then rest else (j, w) ∷ rest

  -- `Object.fromEntries(Object.entries(m).filter(([k, v]) => p(k, v)))`
  unfoldable pub keep : (String → V → Bool) → Dict V → Dict V
  keep p [] = []
  keep p ((j, w) ∷ m) = let rest = keep p m in if p j w then (j, w) ∷ rest else rest

  abbrev pub values : Dict V → List V
  values [] = []
  values ((j, w) ∷ m) = w ∷ values m

  abbrev pub all_entries : (String → V → Bool) → Dict V → Bool
  all_entries p [] = true
  all_entries p ((j, w) ∷ m) = p j w && all_entries p m

  pub lookup-insert :
      (k j : String) (v : V) (m : Dict V)
      → lookup j (insert k v m) ≡ (if str_eq k j then some v else lookup j m)
  unfolding lookup insert
  lookup-insert k j v [] = refl
  lookup-insert k j v ((i, w) ∷ m) =
      ground (arith, str_eq_iff k j, str_eq_iff i k, str_eq_iff i j, lookup-insert k j v m)

  pub lookup-insert_self : (k : String) (v : V) (m : Dict V) → lookup k (insert k v m) ≡ some v
  lookup-insert_self k v m = ground (arith, lookup-insert k k v m, str_eq_iff k k)

  pub lookup-erase :
      (k j : String) (m : Dict V) → lookup j (erase k m) ≡ (if str_eq k j then none else lookup j m)
  unfolding lookup erase
  lookup-erase k j [] = ground arith
  lookup-erase k j ((i, w) ∷ m) =
      ground (arith, str_eq_iff k j, str_eq_iff i k, str_eq_iff i j, lookup-erase k j m)

  -- A key that is absent stays absent, and an entry that passes the test stays.
  pub lookup-keep-none :
      (p : String → V → Bool) (k : String) (m : Dict V)
      → lookup k m ≡ none
      → lookup k (keep p m) ≡ none
  unfolding lookup keep
  lookup-keep-none p k [] h = refl
  lookup-keep-none p k ((j, w) ∷ m) h = ground (arith, lookup-keep-none p k m)

  pub lookup-keep-some :
      (p : String → V → Bool) (k : String) (v : V) (m : Dict V)
      → lookup k m ≡ some v
      → p k v ≡ true
      → lookup k (keep p m) ≡ some v
  unfolding lookup keep
  lookup-keep-some p k v [] h q = ground arith
  lookup-keep-some p k v ((j, w) ∷ m) h q = ground (arith, str_eq_iff j k, lookup-keep-some p k v m)

  pub length-keep-le : (p : String → V → Bool) (m : Dict V) → length (keep p m) ≤ length m
  unfolding keep
  length-keep-le p [] = omega arith
  length-keep-le p ((j, w) ∷ m) = ground (arith, length-keep-le p m)

  pub keep_idem : (p : String → V → Bool) (m : Dict V) → keep p (keep p m) ≡ keep p m
  unfolding keep
  keep_idem p [] = refl
  keep_idem p ((j, w) ∷ m) = ground (arith, keep_idem p m)

  pub keep_all : (p : String → V → Bool) (m : Dict V) → all_entries p m ≡ true → keep p m ≡ m
  unfolding keep
  keep_all p [] h = refl
  keep_all p ((j, w) ∷ m) h = ground (arith, keep_all p m)

  pub all_entries-keep : (p : String → V → Bool) (m : Dict V) → all_entries p (keep p m) ≡ true
  unfolding keep
  all_entries-keep p [] = refl
  all_entries-keep p ((j, w) ∷ m) = ground (arith, all_entries-keep p m)

  -- What held of all entries holds of those that are kept.
  pub all_entries-keep_of :
      (q p : String → V → Bool) (m : Dict V)
      → all_entries q m ≡ true
      → all_entries q (keep p m) ≡ true
  unfolding keep
  all_entries-keep_of q p [] h = refl
  all_entries-keep_of q p ((j, w) ∷ m) h = ground (arith, all_entries-keep_of q p m)

  pub all_entries-insert :
      (q : String → V → Bool) (k : String) (v : V) (m : Dict V)
      → all_entries q m ≡ true
      → q k v ≡ true
      → all_entries q (insert k v m) ≡ true
  unfolding insert
  all_entries-insert q k v [] h e = ground arith
  all_entries-insert q k v ((j, w) ∷ m) h e = ground (arith, all_entries-insert q k v m)

  pub all_entries-lookup :
      (q : String → V → Bool) (k : String) (v : V) (m : Dict V)
      → all_entries q m ≡ true
      → lookup k m ≡ some v
      → q k v ≡ true
  unfolding lookup
  all_entries-lookup q k v [] h e = ground arith
  all_entries-lookup q k v ((j, w) ∷ m) h e =
      ground (arith, str_eq_iff j k, all_entries-lookup q k v m)

  pub length-insert-le : (k : String) (v : V) (m : Dict V) → length (insert k v m) ≤ suc (length m)
  unfolding insert
  length-insert-le k v [] = omega arith
  length-insert-le k v ((j, w) ∷ m) = ground (arith, length-insert-le k v m)

  pub length-erase-le : (k : String) (m : Dict V) → length (erase k m) ≤ length m
  unfolding erase
  length-erase-le k [] = omega arith
  length-erase-le k ((j, w) ∷ m) = ground (arith, length-erase-le k m)

  -- No key stands twice, as in every object of JavaScript.
  abbrev pub HasUniqueKeys : Dict V → Type ℓ
  HasUniqueKeys [] = Unit
  HasUniqueKeys ((k, v) ∷ m) = (lookup k m ≡ none) × HasUniqueKeys m

  pub lookup-keep_unique :
      (p : String → V → Bool) (k : String) (v : V) (m : Dict V)
      → HasUniqueKeys m
      → lookup k (keep p m) ≡ some v
      → lookup k m ≡ some v
  unfolding lookup keep
  lookup-keep_unique p k v [] u h = h
  lookup-keep_unique p k v ((j, w) ∷ m) u h =
      ground (arith, str_eq_iff j k, lookup-keep-none p k m, lookup-keep_unique p k v m u.1, u.0)

  pub keep-HasUniqueKeys :
      (p : String → V → Bool) (m : Dict V) → HasUniqueKeys m → HasUniqueKeys (keep p m)
  unfolding keep
  keep-HasUniqueKeys p [] u = tt
  keep-HasUniqueKeys p ((j, w) ∷ m) u =
      if_cases HasUniqueKeys (p j w) (λ _. (lookup-keep-none p j m u.0, keep-HasUniqueKeys p m u.1))
        (λ _. keep-HasUniqueKeys p m u.1)

  -- Every entry of the key `k` passes `q`.
  abbrev pub at_key : (V → Bool) → String → String → V → Bool
  at_key q k j v = if str_eq j k then q v else true

  all_entries-at_key-none :
      (q : V → Bool) (k : String) (m : Dict V)
      → lookup k m ≡ none
      → all_entries (at_key q k) m ≡ true
  unfolding lookup
  all_entries-at_key-none q k [] h = refl
  all_entries-at_key-none q k ((j, w) ∷ m) h = ground (arith, all_entries-at_key-none q k m)

  pub all_entries-at_key-insert :
      (q : V → Bool) (k : String) (v : V) (m : Dict V)
      → HasUniqueKeys m
      → q v ≡ true
      → all_entries (at_key q k) (insert k v m) ≡ true
  unfolding insert
  all_entries-at_key-insert q k v [] u h = ground arith
  all_entries-at_key-insert q k v ((j, w) ∷ m) u h = ground (
    arith,
    str_eq_iff j k,
    all_entries-at_key-none q k m,
    u.0,
    all_entries-at_key-insert q k v m u.1 h,
  )
