-- ===== src/Resolver/Prefix.antt =====
-- apps/worker/src/vnu/vnu-student-id-resolver.ts: the scan of the settled prefix for a winner.
use hyeboard.Prelude.{
  ℕ, zero, suc, ◌+◌, ◌≤◌, ◌<◌, ◌≡◌, inl, inr, true, false, Option, none, some, String, arith,
  Bool-cases, Option-cases,
}
use hyeboard.Resolver.Pool.{is_target, scan_prefix}
use hyeboard.Resolver.Occupied.{is_settled, hits}

-- The winner is an exact match, and all before it are settled and none.
pub scan_prefix-some :
    (fuel : ℕ) (t : String) (settled : ℕ → Option (Option String)) (i w : ℕ)
    → scan_prefix fuel t settled i ≡ some w
    → (hits t (settled w) ≡ true)
      × (w < i + fuel)
      × ((j : ℕ) → i ≤ j → j < w → (is_settled (settled j) ≡ true) × (hits t (settled j) ≡ false))
unfolding scan_prefix
scan_prefix-some zero t settled i w h = ground arith
scan_prefix-some (suc fuel) t settled i w h = elim (Option-cases (settled i)) [
  | inl q ↦ let off : ⊥ = ground arith in elim off [ ]
  | inr (code, q) ↦ elim (Bool-cases (is_target t code)) [
    | inl exact ↦
        let same : i ≡ w = ground arith in
        (ground arith, omega arith, λ j a b. (let off : ⊥ = omega arith in elim off [ ]))
    | inr other ↦
        let (hit, lt, before) = scan_prefix-some fuel t settled (suc i) w (ground arith) in
        (hit, omega arith, λ j a b. ground (arith, before j))
  ]
]

pub scan_prefix-none :
    (fuel : ℕ) (t : String) (settled : ℕ → Option (Option String)) (i e : ℕ)
    → scan_prefix fuel t settled i ≡ none
    → i ≤ e
    → e < i + fuel
    → ((j : ℕ) → j ≤ e → is_settled (settled j) ≡ true)
    → hits t (settled e) ≡ false
unfolding scan_prefix
scan_prefix-none zero t settled i e h a b all = let off : ⊥ = omega arith in elim off [ ]
scan_prefix-none (suc fuel) t settled i e h a b all = ground (
  arith,
  all i,
  λ (l : suc i ≤ e) (n : scan_prefix fuel t settled (suc i) ≡ none).
      scan_prefix-none fuel t settled (suc i) e n l (omega arith) all,
)
