-- ===== src/Budget/Checks.antt =====
-- apps/worker/src/vnu/vnu-probe-budget.ts: the shapes of what the cross-detail permits store, carry
-- and present. Numbers are natural ones here, so of `Number.isSafeInteger` only the bound is left.
use hyeboard.Prelude.{
  ℕ, String, Bool, true, false, ◌&&◌, List, [], ◌∷◌, ltb, leb, ◌==◌, str_eq, if◌then◌else◌, length,
  is_hex, utf16_length, is_positive_safe, all,
}

abbrev pub vnu_probe_budget_limit : ℕ
vnu_probe_budget_limit = 300

abbrev pub vnu_probe_budget_window_seconds : ℕ
vnu_probe_budget_window_seconds = 600

abbrev pub vnu_brc1_permit_limit : ℕ
vnu_brc1_permit_limit = 6

abbrev pub vnu_brc1_permit_lease_ms : ℕ
vnu_brc1_permit_lease_ms = 125000

abbrev pub vnu_cross_detail_policy_version : ℕ
vnu_cross_detail_policy_version = 1

abbrev pub vnu_cross_detail_lease_ms : ℕ
vnu_cross_detail_lease_ms = 125000

abbrev pub vnu_cross_detail_envelope_max_length : ℕ
vnu_cross_detail_envelope_max_length = 1024

pub record CrossDetailLimits : Type 0 where
  pub max_targets : ℕ
  pub max_rows : ℕ
  pub concurrency : ℕ
  pub budget : ℕ
  pub window_seconds : ℕ

pub record PermitRecord : Type 0 where
  pub requester_hmac : String
  pub target_hmac : String
  pub revision_hmac : String
  pub row_hmac : String
  pub policy_version : ℕ
  pub nonce : String
  pub envelope : String
  pub expires_at : ℕ

pub record IssuedPermit : Type 0 where
  pub permit_hash : String
  pub permit : PermitRecord

pub record ConsumeInput : Type 0 where
  pub permit_hash : String
  pub nonce : String
  pub requester_hmac : String
  pub target_hmac : String
  pub revision_hmac : String
  pub row_hmac : String
  pub policy_version : ℕ

unfoldable pub are_valid_limits : CrossDetailLimits → Bool
are_valid_limits l =
    is_positive_safe l.max_targets
    && is_positive_safe l.max_rows
    && is_positive_safe l.concurrency
    && leb l.concurrency 16
    && is_positive_safe l.budget
    && is_positive_safe l.window_seconds

unfoldable pub is_valid_permit_record : PermitRecord → Bool
is_valid_permit_record r =
    is_hex 64 r.requester_hmac
    && is_hex 64 r.target_hmac
    && is_hex 64 r.revision_hmac
    && is_hex 64 r.row_hmac
    && r.policy_version == vnu_cross_detail_policy_version
    && is_hex 32 r.nonce
    && ltb 0 (utf16_length r.envelope)
    && leb (utf16_length r.envelope) vnu_cross_detail_envelope_max_length
    && is_positive_safe r.expires_at

abbrev pub contains : String → List String → Bool
contains x [] = false
contains x (y ∷ ys) = if str_eq y x then true else contains x ys

-- The values of `new Set(…)`.
unfoldable pub distinct : List String → List String
distinct [] = []
distinct (x ∷ xs) = let rest = distinct xs in if contains x rest then rest else x ∷ rest

abbrev pub target_hmacs : List IssuedPermit → List String
target_hmacs [] = []
target_hmacs (p ∷ ps) = p.permit.target_hmac ∷ target_hmacs ps

unfoldable pub are_valid_issued_permits : List IssuedPermit → CrossDetailLimits → Bool
are_valid_issued_permits permits l =
    ltb 0 (length permits)
    && leb (length permits) l.max_rows
    && all (λ p. is_hex 64 p.permit_hash && is_valid_permit_record p.permit) permits
    && leb (length (distinct (target_hmacs permits))) l.max_targets

unfoldable pub is_valid_consume_input : ConsumeInput → Bool
is_valid_consume_input i =
    is_hex 64 i.permit_hash
    && is_hex 32 i.nonce
    && is_hex 64 i.requester_hmac
    && is_hex 64 i.target_hmac
    && is_hex 64 i.revision_hmac
    && is_hex 64 i.row_hmac
    && i.policy_version == vnu_cross_detail_policy_version

-- `assertValidConsumeAmount`
unfoldable pub is_valid_amount : ℕ → Bool
is_valid_amount n = is_positive_safe n && leb n vnu_probe_budget_limit
