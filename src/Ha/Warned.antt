-- ===== src/Ha/Warned.antt =====
-- apps/worker/src/ha/ha-contracts.ts: when `parseHaConfig` warns.
use hyeboard.Prelude.{
  ap, List, ◌&&◌, not, ◌≡◌, ◌↔◌, ◌⊎◌, refl, Bool, true, false, Option, none, some, [], String,
  str_eq_iff, arith, Bool-cases, inl, inr,
}
use hyeboard.Ha.Enforced.{or_default-cases, is_true_iff}
use hyeboard.Ha.Config.{
  is_empty_text, HaConfigWarning, warn_if, HaConfigSetting, ha_mode, ha_node_id, ha_session_epoch,
  ha_enforce_session_epoch, Value, undefined, text, other, number, boolean, is_undefined, is_true,
  is_some, or_default, env_or_file, parse_mode, parse_node_id, parse_session_epoch, parse_boolean,
  enforces, parse_ha_config, warnings,
}

-- The setting is left out, or its value parses.
abbrev pub IsFit : {A : Type 0} → Value → Option A → Type 0
IsFit {A = A} v parsed = (v ≡ undefined) ⊎ ((a : A) × (parsed ≡ some a))

warn_if_none :
    (b : Bool) (w : HaConfigWarning) (rest : List HaConfigWarning)
    → (warn_if b w rest ≡ []) ↔ ((b ≡ false) × (rest ≡ []))
warn_if_none true w rest = (λ h. cc, λ (b, q). cc)
warn_if_none false w rest = (λ h. (refl, h), λ (b, q). q)

malformed_iff :
    {A : Type 0} (v : Value) (o : Option A)
    → ((not (is_undefined v) && not (is_some o)) ≡ false) ↔ IsFit v o
malformed_iff undefined o = (λ h. inl refl, λ h. refl)
malformed_iff other none = ground arith
malformed_iff other (some a) = (λ h. inr (a, refl), λ h. refl)
malformed_iff (text t) none = ground arith
malformed_iff (text t) (some a) = (λ h. inr (a, refl), λ h. refl)
malformed_iff (number n) none = ground arith
malformed_iff (number n) (some a) = (λ h. inr (a, refl), λ h. refl)
malformed_iff (boolean b) none = ground arith
malformed_iff (boolean b) (some a) = (λ h. inr (a, refl), λ h. refl)

is_empty_text-true : (v : Value) → is_empty_text v ≡ true → v ≡ text ""
is_empty_text-true (text t) h = ap text ((str_eq_iff t "").0 h)
is_empty_text-true undefined h = cc
is_empty_text-true other h = cc
is_empty_text-true (number n) h = cc
is_empty_text-true (boolean b) h = cc

malformed_node_iff :
    (v : Value)
    → ((not (is_undefined v) && not (is_empty_text v) && not (is_some (parse_node_id v))) ≡ false)
      ↔ ((v ≡ text "") ⊎ IsFit v (parse_node_id v))
malformed_node_iff v =
    let fit = malformed_iff v (parse_node_id v) in
    elim (Bool-cases (is_empty_text v)) [
      | inl e ↦ (λ h. inl (is_empty_text-true v e), λ h. ground arith)
      | inr e ↦ (
        λ h. inr (fit.0 (ground arith)),
        λ h. elim h [
          | inl q ↦ let blank : is_empty_text v ≡ true = rw q refl in ground arith
          | inr f ↦ let rest = fit.1 f in ground arith
        ],
      )
    ]

-- An enforcement that was asked for and does not take effect.
ineffective_iff :
    (v : Value) (b : Bool)
    → ((is_true (or_default v false (parse_boolean v)) && not b) ≡ false)
      ↔ (parse_boolean v ≡ some true → b ≡ true)
unfolding parse_boolean
ineffective_iff v true = ground arith
ineffective_iff v false = ground (
  arith,
  or_default-cases v false (parse_boolean v),
  is_true_iff (or_default v false (parse_boolean v)),
)

malformed_default_iff :
    (v : Value)
    → ((not (is_undefined v) && not (is_some (or_default v false (parse_boolean v)))) ≡ false)
      ↔ IsFit v (parse_boolean v)
malformed_default_iff v = elim (or_default-cases v false (parse_boolean v)) [
  | inl (u, q) ↦ (λ h. inl u, λ h. rw u refl)
  | inr (u, q) ↦ rw q (malformed_iff v (parse_boolean v))
]

module _ (environment : HaConfigSetting → Option String) (file : HaConfigSetting → Value) where
  abbrev setting : HaConfigSetting → Value
  setting = env_or_file environment file

  -- No warning is given exactly when each setting is left out or well formed, where an empty node
  -- identifier counts as left out, and an enforcement that is asked for takes effect.
  pub warnings_none_iff : (warnings environment file ≡ []) ↔ (
      IsFit (setting ha_mode) (parse_mode (setting ha_mode))
      × ((setting ha_node_id ≡ text "")
          ⊎ IsFit (setting ha_node_id) (parse_node_id (setting ha_node_id)))
      × IsFit (setting ha_session_epoch) (parse_session_epoch (setting ha_session_epoch))
      × IsFit (setting ha_enforce_session_epoch) (parse_boolean (setting ha_enforce_session_epoch))
      × (parse_boolean (setting ha_enforce_session_epoch) ≡ some true
          → (parse_ha_config environment file).enforce_session_epoch ≡ true))
  unfolding warnings parse_ha_config
  warnings_none_iff =
      let mode = setting ha_mode in
      let node = setting ha_node_id in
      let epoch = setting ha_session_epoch in
      let enforce = setting ha_enforce_session_epoch in
      let m = malformed_iff mode (parse_mode mode) in
      let n = malformed_node_iff node in
      let e = malformed_iff epoch (parse_session_epoch epoch) in
      let f = malformed_default_iff enforce in
      let asked = ineffective_iff enforce (enforces mode epoch enforce) in
      (
        λ h.
            let (b1, h1) = (warn_if_none _ _ _).0 h in
            let (b2, h2) = (warn_if_none _ _ _).0 h1 in
            let (b3, h3) = (warn_if_none _ _ _).0 h2 in
            let (b4, h4) = (warn_if_none _ _ _).0 h3 in
            let (b5, h5) = (warn_if_none _ _ _).0 h4 in
            (m.0 b1, n.0 b2, e.0 b3, f.0 b4, asked.0 b5),
        λ (fm, fn, fe, ff, effect).
            let b5 = (warn_if_none _ _ _).1 (asked.1 effect, refl) in
            let b4 = (warn_if_none _ _ _).1 (f.1 ff, b5) in
            let b3 = (warn_if_none _ _ _).1 (e.1 fe, b4) in
            let b2 = (warn_if_none _ _ _).1 (n.1 fn, b3) in (warn_if_none _ _ _).1 (m.1 fm, b2),
      )
