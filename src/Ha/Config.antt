-- ===== src/Ha/Config.antt =====
-- apps/worker/src/ha/ha-contracts.ts: `parseHaConfig` over the environment and the configuration file,
-- with the warnings that it gives, and `checkSessionEpoch`.
use hyeboard.Prelude.{
  ℕ, Bool, true, false, not, ◌&&◌, ◌||◌, Option, none, some, List, [], ◌∷◌, String, str_eq, codes,
  length, all, leb, ltb, ◌==◌, if◌then◌else◌, utf16_length, number_of, max_safe_integer,
}

pub data HaMode : Type 0 where
  cloudflare distributed memory : HaMode

pub data HaConfigSetting : Type 0 where
  ha_mode ha_node_id ha_session_epoch ha_enforce_session_epoch : HaConfigSetting

-- `undefined`, a text, a number that is a natural one, a Boolean, and every other value: another number
-- among them.
pub data Value : Type 0 where
  undefined other : Value
  text : String → Value
  number : ℕ → Value
  boolean : Bool → Value

pub record HaConfig : Type 0 where
  pub mode : HaMode
  pub node_id : Option String
  pub session_epoch : ℕ
  pub enforce_session_epoch : Bool

-- `DEFAULT_HA_CONFIG`
abbrev pub default_ha_config : HaConfig
default_ha_config = record {
  mode = memory;
  node_id = none;
  session_epoch = 0;
  enforce_session_epoch = false;
}

-- A warning names the setting and the fallback that takes effect.
pub data HaConfigWarning : Type 0 where
  mode_warning : HaMode → HaConfigWarning
  node_id_warning : HaConfigWarning
  epoch_warning : ℕ → HaConfigWarning
  enforce_warning : Bool → HaConfigWarning

unfoldable pub env_or_file :
    (HaConfigSetting → Option String) → (HaConfigSetting → Value) → HaConfigSetting → Value
env_or_file environment file setting = elim (environment setting) [
  | some t ↦ text t
  | none ↦ file setting
]

unfoldable pub parse_mode : Value → Option HaMode
parse_mode (text t) =
    if str_eq t "cloudflare"
    then some cloudflare
    else if str_eq t "distributed"
    then some distributed
    else if str_eq t "memory"
    then some memory
    else none
parse_mode _ = none

unfoldable pub parse_node_id : Value → Option String
parse_node_id (text t) = if ltb 0 (utf16_length t) && leb (utf16_length t) 128 then some t else none
parse_node_id _ = none

abbrev is_digit : ℕ → Bool
is_digit c = leb b'0' c && leb c b'9'

-- `/^(?:0|[1-9]\d*)$/`
abbrev is_canonical_integer : List ℕ → Bool
is_canonical_integer [] = false
is_canonical_integer (c ∷ cs) =
    c == b'0' && length cs == 0 || leb b'1' c && leb c b'9' && all is_digit cs

abbrev if_safe : ℕ → Option ℕ
if_safe n = if leb n max_safe_integer then some n else none

unfoldable pub parse_session_epoch : Value → Option ℕ
parse_session_epoch (number n) = if_safe n
parse_session_epoch (text t) =
    if is_canonical_integer (codes t) then if_safe (number_of t) else none
parse_session_epoch _ = none

unfoldable pub parse_boolean : Value → Option Bool
parse_boolean (boolean b) = some b
parse_boolean (text t) =
    if str_eq t "true" || str_eq t "1"
    then some true
    else if str_eq t "false" || str_eq t "0"
    then some false
    else none
parse_boolean _ = none

module _ {A : Type 0} where
  -- `input === undefined ? fallback : parsed`
  abbrev pub or_default : Value → A → Option A → Option A
  or_default undefined fallback parsed = some fallback
  or_default _ fallback parsed = parsed

  -- `parsed ?? fallback`
  abbrev pub or_else : Option A → A → A
  or_else none fallback = fallback
  or_else (some a) fallback = a

  abbrev pub is_some : Option A → Bool
  is_some none = false
  is_some (some a) = true

abbrev pub is_undefined : Value → Bool
is_undefined undefined = true
is_undefined _ = false

abbrev pub is_empty_text : Value → Bool
is_empty_text (text t) = str_eq t ""
is_empty_text _ = false

abbrev pub is_distributed : HaMode → Bool
is_distributed distributed = true
is_distributed _ = false

abbrev pub is_true : Option Bool → Bool
is_true (some true) = true
is_true _ = false

abbrev pub warn_if : Bool → HaConfigWarning → List HaConfigWarning → List HaConfigWarning
warn_if b w rest = if b then w ∷ rest else rest

-- `enforceSessionEpoch`
unfoldable pub enforces : Value → Value → Value → Bool
enforces mode epoch enforce =
    is_distributed (or_else (or_default mode memory (parse_mode mode)) memory)
    && is_true (or_default enforce false (parse_boolean enforce))
    && not (is_undefined epoch)
    && is_some (or_default epoch 0 (parse_session_epoch epoch))

module _ (environment : HaConfigSetting → Option String) (file : HaConfigSetting → Value) where
  unfoldable pub parse_ha_config : HaConfig
  parse_ha_config =
      let input = env_or_file environment file in
      record {
        mode = or_else (or_default (input ha_mode) memory (parse_mode (input ha_mode))) memory;
        node_id = parse_node_id (input ha_node_id);
        session_epoch =
            or_else
              (or_default (input ha_session_epoch) 0 (parse_session_epoch (input ha_session_epoch)))
              0;
        enforce_session_epoch =
            enforces (input ha_mode) (input ha_session_epoch) (input ha_enforce_session_epoch);
      }

  -- What `parseHaConfig` calls `warn` with, in order.
  unfoldable pub warnings : List HaConfigWarning
  warnings =
      let input = env_or_file environment file in
      let mode = input ha_mode in
      let node = input ha_node_id in
      let epoch = input ha_session_epoch in
      let enforce = input ha_enforce_session_epoch in
      let requested = or_default enforce false (parse_boolean enforce) in
      let effect =
        warn_if (is_true requested && not (enforces mode epoch enforce)) (enforce_warning false)
          [] in
      let enforcement =
        warn_if (not (is_undefined enforce) && not (is_some requested)) (enforce_warning false)
          effect in
      let epochs =
        warn_if (not (is_undefined epoch) && not (is_some (parse_session_epoch epoch)))
          (epoch_warning 0) enforcement in
      let nodes =
        warn_if
          (not (is_undefined node)
            && not (is_empty_text node)
            && not (is_some (parse_node_id node)))
          node_id_warning epochs in
      warn_if (not (is_undefined mode) && not (is_some (parse_mode mode))) (mode_warning memory)
        nodes

pub record SessionMetadata : Type 0 where
  pub session_id : Option String
  pub session_epoch : Option ℕ

pub data SessionEpochCheck : Type 0 where
  enforcement_disabled matching_epoch : SessionEpochCheck
  missing_session_metadata session_epoch_mismatch : SessionEpochCheck

abbrev pub is_accepted : SessionEpochCheck → Bool
is_accepted enforcement_disabled = true
is_accepted matching_epoch = true
is_accepted _ = false

-- `!sessionId`
abbrev pub is_blank : Option String → Bool
is_blank none = true
is_blank (some t) = str_eq t ""

abbrev pub compare_epoch : Option ℕ → ℕ → SessionEpochCheck
compare_epoch none epoch = missing_session_metadata
compare_epoch (some e) epoch = if not (e == epoch) then session_epoch_mismatch else matching_epoch

unfoldable pub check_session_epoch : SessionMetadata → HaConfig → SessionEpochCheck
check_session_epoch payload config =
    if not (is_distributed config.mode) || not config.enforce_session_epoch
    then enforcement_disabled
    else if is_blank payload.session_id
    then missing_session_metadata
    else compare_epoch payload.session_epoch config.session_epoch
