-- ===== src/Policy/Ceilings.antt =====
-- apps/worker/src/policy/feature-policy.ts: a policy narrows what a university offers, and never
-- widens it.
use hyeboard.Prelude.{
  ℕ, ◌≤◌, ◌<◌, ◌≡◌, refl, sym, ap, ◌∙◌, ◌↔◌, ◌⊎◌, inl, inr, Bool, true, false, Option, none, some,
  ◌++◌, String, arith, lookup, minimum, ok, Outcome-cases, Option-cases, max_safe_integer,
}
use hyeboard.Policy.Content.{
  CapabilityKey, cross_lookup, OperationalLimitKey, bulk_max_targets, bulk_direct_chunk_max_targets,
  mode_stdid_to_code, mode_stdid_to_transcript, mode_code_to_stdid, detail_max_targets,
  detail_max_rows, detail_concurrency, FeaturePolicyContent, University, HardLimits,
  CrossLookupLimits,
}
use hyeboard.Policy.Resolve.{
  EffectiveLimit, resolve_capability, resolve_limit, is_disabled, university_capability,
  university_limit, flatten_limits, safe_ceiling, projected_limit,
}
use hyeboard.Policy.University.{
  ProjectedLimits, projected_limits, project_limits, resolved, effective_capability,
  effective_university, is_given, projected_of,
}

-- A capability is enabled just when the adapter supports it and neither the global policy nor the
-- university's says `false`; it is locked just when the adapter does not support it.
pub resolve_capability_iff :
    (supported : Bool) (policy : FeaturePolicyContent) (id : String) (key : CapabilityKey)
    → let r = resolve_capability supported policy id key in
      ((r.enabled ≡ true)
        ↔ (supported ≡ true)
          × (is_disabled (policy.whole.capabilities key) ≡ false)
          × (is_disabled (university_capability (lookup id policy.universities) key) ≡ false))
      × ((r.locked ≡ true) ↔ (supported ≡ false))
unfolding resolve_capability
resolve_capability_iff supported policy id key = ground arith

-- A limit that is resolved is at most the ceiling and at most the configured number; it is that
-- ceiling if none is configured, and clamped just when the configured number is above the ceiling. What
-- is configured is the university's number if it has one.
pub resolve_limit_bounded :
    (policy : FeaturePolicyContent) (id : String) (key : OperationalLimitKey) (ceiling : ℕ)
    (r : EffectiveLimit)
    → resolve_limit policy id key ceiling ≡ ok r
    → (r.value ≤ ceiling)
      × (r.configured ≡ none → r.value ≡ ceiling)
      × ((n : ℕ)
          → r.configured ≡ some n
          → (r.value ≤ n) × (1 ≤ n) × ((r.clamped ≡ true) ↔ (ceiling < n)))
      × ((n : ℕ)
          → university_limit (lookup id policy.universities) key ≡ some n
          → r.configured ≡ some n)
unfolding resolve_limit
resolve_limit_bounded policy id key ceiling r h = ground arith

-- A limit is positive, and above neither of the ceilings that are safe integers.
abbrev IsUnder : Option ℕ → ℕ → Type 0
IsUnder o x = (n : ℕ) → o ≡ some n → n ≤ max_safe_integer → x ≤ n

abbrev pub IsNarrowed : Option ℕ → Option ℕ → ℕ → Type 0
IsNarrowed native_limit hard_limit x = (1 ≤ x) × IsUnder native_limit x × IsUnder hard_limit x

minimum-le_both :
    (native_limit hard_limit : Option ℕ) (c : ℕ)
    → minimum (safe_ceiling native_limit ++ safe_ceiling hard_limit) ≡ some c
    → IsUnder native_limit c × IsUnder hard_limit c
unfolding minimum
minimum-le_both none none c h = cc
minimum-le_both none (some b) c h = ground arith
minimum-le_both (some a) none c h = ground arith
minimum-le_both (some a) (some b) c h = ground arith

resolve_limit_positive :
    (policy : FeaturePolicyContent) (id : String) (key : OperationalLimitKey) (ceiling : ℕ)
    (r : EffectiveLimit)
    → resolve_limit policy id key ceiling ≡ ok r
    → 1 ≤ ceiling
    → 1 ≤ r.value
unfolding resolve_limit
resolve_limit_positive policy id key ceiling r h c = ground arith

projected_limit-IsNarrowed :
    (policy : FeaturePolicyContent) (id : String) (key : OperationalLimitKey)
    (native_limit hard_limit : Option ℕ) (x : ℕ)
    → projected_limit policy id key native_limit hard_limit ≡ ok (some x)
    → IsNarrowed native_limit hard_limit x
unfolding projected_limit
projected_limit-IsNarrowed policy id key native_limit hard_limit x h =
    elim (Option-cases (minimum (safe_ceiling native_limit ++ safe_ceiling hard_limit))) [
      | inl q ↦ ground arith
      | inr (c, q) ↦
          let (a, b) = minimum-le_both native_limit hard_limit c q in
          elim (Outcome-cases (resolve_limit policy id key c)) [
            | inr (e, r) ↦ ground arith
            | inl (l, r) ↦
                let (le, free, bound, own) = resolve_limit_bounded policy id key c l r in
                ground (arith, resolve_limit_positive policy id key c l r)
          ]
    ]

abbrev field_of : ProjectedLimits → OperationalLimitKey → Option ℕ
field_of p bulk_max_targets = p.bulk_max
field_of p bulk_direct_chunk_max_targets = p.direct_chunk_max
field_of p mode_stdid_to_code = p.stdid_to_code
field_of p mode_stdid_to_transcript = p.stdid_to_transcript
field_of p mode_code_to_stdid = p.code_to_stdid
field_of p detail_max_targets = p.max_targets
field_of p detail_max_rows = p.max_rows
field_of p detail_concurrency = p.concurrency

projected_limits-field :
    (u : University) (policy : FeaturePolicyContent) (hard : HardLimits) (p : ProjectedLimits)
    (key : OperationalLimitKey)
    → projected_limits u policy hard ≡ ok p
    → projected_limit policy u.id key (flatten_limits u.limits key) (hard key) ≡ ok (field_of p key)
unfolding projected_limits
projected_limits-field u policy hard p bulk_max_targets h = ground arith
projected_limits-field u policy hard p bulk_direct_chunk_max_targets h = ground arith
projected_limits-field u policy hard p mode_stdid_to_code h = ground arith
projected_limits-field u policy hard p mode_stdid_to_transcript h = ground arith
projected_limits-field u policy hard p mode_code_to_stdid h = ground arith
projected_limits-field u policy hard p detail_max_targets h = ground arith
projected_limits-field u policy hard p detail_max_rows h = ground arith
projected_limits-field u policy hard p detail_concurrency h = ground arith

flatten-project_limits :
    (p : ProjectedLimits) (key : OperationalLimitKey) (x : ℕ)
    → flatten_limits (project_limits p) key ≡ some x
    → field_of p key ≡ some x
unfolding project_limits
flatten-project_limits p bulk_max_targets x h = ground arith
flatten-project_limits p bulk_direct_chunk_max_targets x h = ground arith
flatten-project_limits p mode_stdid_to_code x h = ground arith
flatten-project_limits p mode_stdid_to_transcript x h = ground arith
flatten-project_limits p mode_code_to_stdid x h = ground arith
flatten-project_limits p detail_max_targets x h = ground arith
flatten-project_limits p detail_max_rows x h = ground arith
flatten-project_limits p detail_concurrency x h = ground arith

projected_of_given :
    (o : Option ℕ) (p : ProjectedLimits)
    → is_given o ≡ true
    → (c : CrossLookupLimits) × (projected_of o p ≡ some c)
projected_of_given none p h = cc
projected_of_given (some n) p h = (_, refl)

project_limits_given :
    (p : ProjectedLimits)
    → is_given p.bulk_max ≡ true
    → (c : CrossLookupLimits) × (project_limits p ≡ some c)
unfolding project_limits
project_limits_given p h = projected_of_given p.bulk_max p h

effective_capability-resolved :
    (u : University) (policy : FeaturePolicyContent) (bulk : Option ℕ) (key : CapabilityKey)
    → effective_capability u policy bulk key ≡ true
    → resolved u policy key ≡ true
effective_capability-resolved u policy bulk key h = ground arith

effective_parts :
    (u v : University) (policy : FeaturePolicyContent) (hard : HardLimits)
    → effective_university u policy hard ≡ ok v
    → (p : ProjectedLimits) × (projected_limits u policy hard ≡ ok p)
      × (v.capabilities ≡ effective_capability u policy p.bulk_max)
      × ((v.limits ≡ none) × (v.capabilities cross_lookup ≡ false)
          ⊎ (v.limits ≡ project_limits p)
            × (v.capabilities cross_lookup ≡ true)
            × (is_given p.bulk_max ≡ true))
unfolding effective_university
effective_parts u v policy hard h = elim (Outcome-cases (projected_limits u policy hard)) [
  | inr (e, q) ↦ ground arith
  | inl (p, q) ↦ (p, q, ground arith, ground arith)
]

-- Where a policy applies at all, the university that it makes narrows the one it starts from: every
-- capability that it offers the original offers and the policy leaves enabled, and
-- every limit that it has is positive and, if the original's or the deployment's is a safe integer, not
-- above that.
pub effective_university_narrows :
    (u v : University) (policy : FeaturePolicyContent) (hard : HardLimits)
    → effective_university u policy hard ≡ ok v
    → ((key : CapabilityKey)
        → v.capabilities key ≡ true
        → (u.capabilities key ≡ true)
          × ((resolve_capability (u.capabilities key) policy u.id key).enabled ≡ true))
      × ((key : OperationalLimitKey) (x : ℕ)
          → flatten_limits v.limits key ≡ some x
          → IsNarrowed (flatten_limits u.limits key) (hard key) x)
effective_university_narrows u v policy hard h =
    let (p, q, can, limits) = effective_parts u v policy hard h in
    (
      λ key on.
          let was =
            effective_capability-resolved u policy p.bulk_max key
              (sym (ap (λ f. f key) can) ∙ on) in
          ((((resolve_capability_iff (u.capabilities key) policy u.id key).0).0 was).0, was),
      λ key x e. elim limits [
        | inl (none_left, _) ↦ cc
        | inr (some_left, _, _) ↦
            projected_limit-IsNarrowed policy u.id key (flatten_limits u.limits key) (hard key) x (
              projected_limits-field u policy hard p key q
              ∙ ap ok (
                  flatten-project_limits p key x
                    (sym (ap (λ l. flatten_limits l key) some_left) ∙ e)))
      ],
    )

-- The university that a policy makes has limits just when it offers cross lookups, and then a bulk limit
-- of at least one.
pub effective_university_limits :
    (u v : University) (policy : FeaturePolicyContent) (hard : HardLimits)
    → effective_university u policy hard ≡ ok v
    → ((v.limits ≡ none) × (v.capabilities cross_lookup ≡ false))
      ⊎ ((c : CrossLookupLimits) × (v.limits ≡ some c)
          × (v.capabilities cross_lookup ≡ true)
          × (1 ≤ c.bulk_max))
effective_university_limits u v policy hard h =
    let (p, q, can, limits) = effective_parts u v policy hard h in
    elim limits [
      | inl l ↦ inl l
      | inr (l, on, given) ↦
          let (c, e) = project_limits_given p given in
          inr (
            c,
            l ∙ e,
            on,
            ((effective_university_narrows u v policy hard h).1 bulk_max_targets c.bulk_max
                (ap (λ o. flatten_limits o bulk_max_targets) (l ∙ e))).0,
          )
    ]
