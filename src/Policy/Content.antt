-- ===== src/Policy/Content.antt =====
-- The data of apps/worker/src/policy/feature-policy.ts, whose shapes are those of
-- packages/schemas/src/capabilities.ts, feature-policy.ts and index.ts. A record with a fixed set of
-- keys is a function of the key; the other fields of a university pass through and are left out.
use hyeboard.Prelude.{ℕ, String, Bool, Option, none, [], Dict}

pub data CapabilityKey : Type 0 where
  profile terms timetable courses assignments grades exams attendance : CapabilityKey
  notifications documents tuition news training_points requests : CapabilityKey
  class_lookup cross_lookup : CapabilityKey

pub data OperationalLimitKey : Type 0 where
  bulk_max_targets bulk_direct_chunk_max_targets : OperationalLimitKey
  mode_stdid_to_code mode_stdid_to_transcript mode_code_to_stdid : OperationalLimitKey
  detail_max_targets detail_max_rows detail_concurrency : OperationalLimitKey

-- `undefined`, `null` or a number.
pub data GlobalLimit : Type 0 where
  unset unlimited : GlobalLimit
  limited : ℕ → GlobalLimit

pub record GlobalPolicy : Type 0 where
  pub capabilities : CapabilityKey → Option Bool
  pub limits : OperationalLimitKey → GlobalLimit

pub record UniversityPolicy : Type 0 where
  pub capabilities : CapabilityKey → Option Bool
  pub limits : OperationalLimitKey → Option ℕ

pub record FeaturePolicyContent : Type 0 where
  pub whole : GlobalPolicy
  pub universities : Dict UniversityPolicy

pub record CrossDetailLimits : Type 0 where
  pub max_targets : ℕ
  pub max_rows : ℕ
  pub concurrency : ℕ

pub record ModeMaxTargets : Type 0 where
  pub stdid_to_code : Option ℕ
  pub stdid_to_transcript : Option ℕ
  pub code_to_stdid : Option ℕ

pub record CrossLookupLimits : Type 0 where
  pub bulk_max : ℕ
  pub bulk_direct_chunk_max : Option ℕ
  pub bulk_mode_max : Option ModeMaxTargets
  pub cross_detail : Option CrossDetailLimits

-- `limits?.crossLookup`: no limits and limits without `crossLookup` read alike.
pub record University : Type 0 where
  pub id : String
  pub capabilities : CapabilityKey → Bool
  pub limits : Option CrossLookupLimits

abbrev pub HardLimits : Type 0
HardLimits = OperationalLimitKey → Option ℕ

-- Names a key that is not the operator's to set, or whose number is no limit.
pub data Fault : Type 0 where
  invalid_hard_limit invalid_university_limit invalid_global_limit : OperationalLimitKey → Fault
  policy_conflict : ℕ → Fault
  invalid_request : Fault
  unparsable : Fault

unfoldable pub empty_policy : FeaturePolicyContent
empty_policy = record {
  whole = record { capabilities = λ _. none; limits = λ _. unset };
  universities = [];
}
