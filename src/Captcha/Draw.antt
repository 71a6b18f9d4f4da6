-- ===== src/Captcha/Draw.antt =====
-- apps/worker/src/captcha/captcha-relay.ts: `prepare` draws identifiers until one is not in use.
use hyeboard.Prelude.{
  ℕ, zero, suc, ◌+◌, ◌≤◌, ◌<◌, ◌≡◌, ◌≢◌, refl, inl, inr, Option, none, some, String, arith, Dict,
  lookup, erase, lookup-erase, length, length-erase-lt, Option-cases, str_eq_iff, if◌then◌else◌,
  ◌∙◌, sym, ap,
}
use hyeboard.Captcha.Local.{LocalRelay, LocalRelays, place, is_present}

-- `createId`, as the identifiers that it returns one after the other.
unfoldable pub draw : ℕ → (ℕ → String) → ℕ → Dict LocalRelay → Option String
draw zero create_id drawn relays = none
draw (suc fuel) create_id drawn relays =
    let rest = draw fuel create_id (suc drawn) relays in
    if is_present (lookup (create_id drawn) relays) then rest else some (create_id drawn)

unfoldable pub prepare : ℕ → (ℕ → String) → ℕ → LocalRelays → Option (String × LocalRelays)
prepare fuel create_id drawn s = elim (draw fuel create_id drawn s.relays) [
  | none ↦ none
  | some id ↦ some (id, place s id)
]

abbrev pub IsInjective : (ℕ → String) → Type 0
IsInjective f = (i j : ℕ) → f i ≡ f j → i ≡ j

-- Those before the last are still in use once the last is gone.
others :
    (n : ℕ) (f : ℕ → String) (m : Dict LocalRelay)
    → IsInjective f
    → ((i : ℕ) → i < suc n → lookup (f i) m ≢ none)
    → (i : ℕ) → i < n
    → lookup (f i) (erase (f n) m) ≢ none
others n f m j h i l e =
    let apart : f n ≢ f i = λ q. (let same = j n i q in let off : ⊥ = omega arith in off) in
    h i (omega arith) (ground (arith, lookup-erase (f n) (f i) m, str_eq_iff (f n) (f i)))

-- Distinct keys that are all in use take room for each.
distinct_keys_le :
    (n : ℕ) (f : ℕ → String) (m : Dict LocalRelay)
    → IsInjective f
    → ((i : ℕ) → i < n → lookup (f i) m ≢ none)
    → n ≤ length m
distinct_keys_le zero f m j h = omega arith
distinct_keys_le (suc n) f m j h = elim (Option-cases (lookup (f n) m)) [
  | inl q ↦ elim (h n (omega arith) q) [ ]
  | inr (v, q) ↦
      let rest = distinct_keys_le n f (erase (f n) m) j (others n f m j h) in
      let shorter = length-erase-lt (f n) v m q in omega arith
]

draw-none :
    (fuel : ℕ) (f : ℕ → String) (drawn : ℕ) (m : Dict LocalRelay)
    → draw fuel f drawn m ≡ none
    → (i : ℕ) → i < fuel
    → lookup (f (i + drawn)) m ≢ none
unfolding draw
draw-none zero f drawn m e i l q = let off : ⊥ = omega arith in off
draw-none (suc fuel) f drawn m e zero l q = ground arith
draw-none (suc fuel) f drawn m e (suc i) l q =
    let shift : suc i + drawn ≡ i + suc drawn = omega arith in
    draw-none fuel f (suc drawn) m (ground arith) i (omega arith)
      (ap (λ k. lookup (f k) m) (sym shift) ∙ q)

draw-some :
    (fuel : ℕ) (f : ℕ → String) (drawn : ℕ) (m : Dict LocalRelay) (id : String)
    → draw fuel f drawn m ≡ some id
    → lookup id m ≡ none
unfolding draw
draw-some zero f drawn m id e = ground arith
draw-some (suc fuel) f drawn m id e =
    ground (arith, Option-cases (lookup (f drawn) m), draw-some fuel f (suc drawn) m id)

-- The loop of `prepare` ends after at most one draw more than there are relays, if `createId` never
-- repeats itself, and the identifier that it ends with is not in use: it starts a relay of its own.
pub prepare_terminates :
    (create_id : ℕ → String) (drawn fuel : ℕ) (s : LocalRelays)
    → IsInjective create_id
    → length s.relays < fuel
    → (id : String) × (prepare fuel create_id drawn s ≡ some (id, place s id))
      × (lookup id s.relays ≡ none)
unfolding prepare
prepare_terminates f drawn fuel s j l = elim (Option-cases (draw fuel f drawn s.relays)) [
  | inr (id, q) ↦ (id, rw (q, prepare) refl, draw-some fuel f drawn s.relays id q)
  | inl q ↦
      let full =
        distinct_keys_le fuel (λ i. f (i + drawn)) s.relays
          (λ i k e. (let same = j (i + drawn) (k + drawn) e in omega arith))
          (draw-none fuel f drawn s.relays q) in
      let off : ⊥ = omega arith in elim off [ ]
]
