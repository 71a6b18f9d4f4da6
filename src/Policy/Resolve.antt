-- ===== src/Policy/Resolve.antt =====
-- apps/worker/src/policy/feature-policy.ts: what a policy makes of a university.
use hyeboard.Prelude.{
  ℕ, min, Bool, true, false, not, ◌&&◌, Option, none, some, List, [], ◌∷◌, ◌++◌, String, ltb, leb,
  if◌then◌else◌, lookup, minimum, Outcome, ok, ◌>>=◌, ◌>>◌, ensure, max_safe_integer,
}
use hyeboard.Policy.Content.{
  CapabilityKey, OperationalLimitKey, bulk_max_targets, bulk_direct_chunk_max_targets,
  mode_stdid_to_code, mode_stdid_to_transcript, mode_code_to_stdid, detail_max_targets,
  detail_max_rows, detail_concurrency, GlobalLimit, unset, limited, UniversityPolicy,
  FeaturePolicyContent, CrossDetailLimits, ModeMaxTargets, CrossLookupLimits, HardLimits, Fault,
  invalid_hard_limit, invalid_university_limit, invalid_global_limit,
}

pub data Source : Type 0 where
  adapter native global university : Source

pub record EffectiveCapability : Type 0 where
  pub enabled : Bool
  pub locked : Bool
  pub source : Source

pub record EffectiveLimit : Type 0 where
  pub value : ℕ
  pub configured : Option ℕ
  pub source : Source
  pub clamped : Bool

-- `enabled === false`
abbrev pub is_disabled : Option Bool → Bool
is_disabled (some false) = true
is_disabled _ = false

abbrev pub university_capability : Option UniversityPolicy → CapabilityKey → Option Bool
university_capability none key = none
university_capability (some u) key = u.capabilities key

abbrev pub university_limit : Option UniversityPolicy → OperationalLimitKey → Option ℕ
university_limit none key = none
university_limit (some u) key = u.limits key

unfoldable pub resolve_capability :
    Bool → FeaturePolicyContent → String → CapabilityKey → EffectiveCapability
resolve_capability adapter_supported policy university_id capability =
    if not adapter_supported
    then record { enabled = false; locked = true; source = adapter }
    else if is_disabled (policy.whole.capabilities capability)
    then record { enabled = false; locked = false; source = global }
    else if is_disabled
        (university_capability (lookup university_id policy.universities) capability)
    then record { enabled = false; locked = false; source = university }
    else record { enabled = true; locked = false; source = adapter }

abbrev pub is_safe_ceiling : ℕ → Bool
is_safe_ceiling n = leb n max_safe_integer

abbrev pub is_safe_limit : ℕ → Bool
is_safe_limit n = is_safe_ceiling n && ltb 0 n

abbrev pub is_optional_limit : Option ℕ → Bool
is_optional_limit none = true
is_optional_limit (some n) = is_safe_limit n

abbrev pub is_global_limit : GlobalLimit → Bool
is_global_limit (limited n) = is_safe_limit n
is_global_limit _ = true

-- `university ?? global ?? null`
abbrev pub configured_limit : Option ℕ → GlobalLimit → Option ℕ
configured_limit (some n) g = some n
configured_limit none (limited n) = some n
configured_limit none _ = none

abbrev pub limit_source : Option ℕ → GlobalLimit → Source
limit_source (some n) g = university
limit_source none unset = native
limit_source none _ = global

abbrev pub limit_value : Option ℕ → ℕ → ℕ
limit_value none ceiling = ceiling
limit_value (some n) ceiling = min n ceiling

abbrev pub is_clamped : Option ℕ → ℕ → Bool
is_clamped none ceiling = false
is_clamped (some n) ceiling = ltb ceiling n

unfoldable pub resolve_limit :
    FeaturePolicyContent → String → OperationalLimitKey → ℕ → Outcome Fault EffectiveLimit
resolve_limit policy university_id key hard_ceiling =
    let u = university_limit (lookup university_id policy.universities) key in
    let g = policy.whole.limits key in
    do
      ensure (is_safe_ceiling hard_ceiling) (invalid_hard_limit key)
      ensure (is_optional_limit u) (invalid_university_limit key)
      ensure (is_global_limit g) (invalid_global_limit key)
      ok (record {
        value = limit_value (configured_limit u g) hard_ceiling;
        configured = configured_limit u g;
        source = limit_source u g;
        clamped = is_clamped (configured_limit u g) hard_ceiling;
      })

abbrev mode_limit : (ModeMaxTargets → Option ℕ) → Option ModeMaxTargets → Option ℕ
mode_limit f none = none
mode_limit f (some m) = f m

abbrev detail_limit : (CrossDetailLimits → ℕ) → Option CrossDetailLimits → Option ℕ
detail_limit f none = none
detail_limit f (some d) = some (f d)

-- `flattenLimits`
abbrev pub flatten_limits : Option CrossLookupLimits → OperationalLimitKey → Option ℕ
flatten_limits none key = none
flatten_limits (some c) bulk_max_targets = some c.bulk_max
flatten_limits (some c) bulk_direct_chunk_max_targets = c.bulk_direct_chunk_max
flatten_limits (some c) mode_stdid_to_code = mode_limit (λ m. m.stdid_to_code) c.bulk_mode_max
flatten_limits (some c) mode_stdid_to_transcript =
    mode_limit (λ m. m.stdid_to_transcript) c.bulk_mode_max
flatten_limits (some c) mode_code_to_stdid = mode_limit (λ m. m.code_to_stdid) c.bulk_mode_max
flatten_limits (some c) detail_max_targets = detail_limit (λ d. d.max_targets) c.cross_detail
flatten_limits (some c) detail_max_rows = detail_limit (λ d. d.max_rows) c.cross_detail
flatten_limits (some c) detail_concurrency = detail_limit (λ d. d.concurrency) c.cross_detail

-- `[…].filter(isSafeCeiling)` of one of the two.
abbrev pub safe_ceiling : Option ℕ → List ℕ
safe_ceiling none = []
safe_ceiling (some n) = if is_safe_ceiling n then n ∷ [] else []

unfoldable pub projected_limit :
    FeaturePolicyContent
    → String
    → OperationalLimitKey
    → Option ℕ
    → Option ℕ
    → Outcome Fault (Option ℕ)
projected_limit policy university_id key native_limit hard_limit =
    elim (minimum (safe_ceiling native_limit ++ safe_ceiling hard_limit)) [
      | none ↦ ok none
      | some ceiling ↦
          if leb ceiling 0
          then ok none
          else (do l ← resolve_limit policy university_id key ceiling; ok (some l.value))
    ]

-- `validateHardLimits`, of the keys one after the other; that there are no others is in the type.
unfoldable pub validate_hard_limit : HardLimits → OperationalLimitKey → Outcome Fault (Unit {0})
validate_hard_limit hard key = elim (hard key) [
  | none ↦ ok tt
  | some n ↦ ensure (is_safe_ceiling n) (invalid_hard_limit key)
]

unfoldable pub validate_hard_limits : HardLimits → Outcome Fault (Unit {0})
unfolding validate_hard_limit
validate_hard_limits hard = do
  validate_hard_limit hard bulk_max_targets
  validate_hard_limit hard bulk_direct_chunk_max_targets
  validate_hard_limit hard mode_stdid_to_code
  validate_hard_limit hard mode_stdid_to_transcript
  validate_hard_limit hard mode_code_to_stdid
  validate_hard_limit hard detail_max_targets
  validate_hard_limit hard detail_max_rows
  validate_hard_limit hard detail_concurrency
