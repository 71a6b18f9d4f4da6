-- ===== src/Ha/Enforced.antt =====
-- apps/worker/src/ha/ha-contracts.ts: when a session is refused for its epoch.
use hyeboard.Prelude.{
  subst, sym, ℕ, ◌≡◌, ◌≢◌, ◌↔◌, ◌⊎◌, refl, Bool, true, false, Option, none, some, String,
  str_eq_iff, arith, Option-cases, Bool-cases, inl, inr,
}
use hyeboard.Ha.Config.{
  HaConfig, HaConfigSetting, ha_mode, ha_session_epoch, ha_enforce_session_epoch, Value, undefined,
  text, distributed, memory, cloudflare, HaMode, other, number, boolean, is_undefined, is_true,
  is_some, is_distributed, or_else, or_default, env_or_file, parse_mode, parse_session_epoch,
  parse_boolean, enforces, parse_ha_config, SessionMetadata, check_session_epoch, is_accepted,
}

-- The session says that it is of the epoch.
abbrev pub IsOfEpoch : SessionMetadata → ℕ → Type 0
IsOfEpoch p epoch =
    ((id : String) × (p.session_id ≡ some id) × (id ≢ "")) × (p.session_epoch ≡ some epoch)

-- The settings ask for the enforcement of the epoch.
abbrev pub Enforces : Value → Value → Value → ℕ → Type 0
Enforces mode epoch enforce e =
    (parse_mode mode ≡ some distributed)
    × (parse_boolean enforce ≡ some true)
    × (parse_session_epoch epoch ≡ some e)

pub or_default-cases :
    {A : Type 0} (v : Value) (fallback : A) (parsed : Option A)
    → ((v ≡ undefined) × (or_default v fallback parsed ≡ some fallback))
      ⊎ ((is_undefined v ≡ false) × (or_default v fallback parsed ≡ parsed))
or_default-cases undefined fallback parsed = inl (refl, refl)
or_default-cases other fallback parsed = inr (refl, refl)
or_default-cases (text t) fallback parsed = inr (refl, refl)
or_default-cases (number n) fallback parsed = inr (refl, refl)
or_default-cases (boolean b) fallback parsed = inr (refl, refl)

is_distributed_iff :
    (o : Option HaMode) → (is_distributed (or_else o memory) ≡ true) ↔ (o ≡ some distributed)
is_distributed_iff none = ground arith
is_distributed_iff (some distributed) = ground arith
is_distributed_iff (some memory) = ground arith
is_distributed_iff (some cloudflare) = ground arith

pub is_true_iff : (o : Option Bool) → (is_true o ≡ true) ↔ (o ≡ some true)
is_true_iff o = ground arith

pub is_some_iff : {A : Type 0} (o : Option A) → (is_some o ≡ true) ↔ ((a : A) × (o ≡ some a))
is_some_iff none = (λ h. cc, λ (a, q). cc)
is_some_iff (some a) = (λ h. (a, refl), λ h. refl)

enforces_iff :
    (mode epoch enforce : Value)
    → (enforces mode epoch enforce ≡ true) ↔ ((e : ℕ) × Enforces mode epoch enforce e)
unfolding enforces parse_mode parse_session_epoch parse_boolean
enforces_iff mode epoch enforce = ground (
  arith,
  or_default-cases mode memory (parse_mode mode),
  or_default-cases epoch 0 (parse_session_epoch epoch),
  or_default-cases enforce false (parse_boolean enforce),
  is_distributed_iff (or_default mode memory (parse_mode mode)),
  is_true_iff (or_default enforce false (parse_boolean enforce)),
  is_some_iff (or_default epoch 0 (parse_session_epoch epoch)),
)

-- Under a configuration that enforces its epoch, and under one that does not.
check_session_epoch-enforced :
    (p : SessionMetadata) (c : HaConfig)
    → c.mode ≡ distributed
    → c.enforce_session_epoch ≡ true
    → (is_accepted (check_session_epoch p c) ≡ true) ↔ IsOfEpoch p c.session_epoch
unfolding check_session_epoch
check_session_epoch-enforced p c m on = elim (Option-cases p.session_id) [
  | inl q ↦ ground (arith, q)
  | inr (id, q) ↦ elim (Option-cases p.session_epoch) [
    | inl o ↦ ground (arith, q, o)
    | inr (n, o) ↦ ground (arith, q, o, str_eq_iff id "")
  ]
]

check_session_epoch-disabled :
    (p : SessionMetadata) (c : HaConfig)
    → c.enforce_session_epoch ≡ false
    → is_accepted (check_session_epoch p c) ≡ true
unfolding check_session_epoch
check_session_epoch-disabled p c off = ground arith

-- What is configured where the enforcement of an epoch is asked for.
Enforces-config :
    (mode epoch enforce : Value) (e : ℕ)
    → Enforces mode epoch enforce e
    → (or_else (or_default mode memory (parse_mode mode)) memory ≡ distributed)
      × (or_else (or_default epoch 0 (parse_session_epoch epoch)) 0 ≡ e)
unfolding parse_mode parse_session_epoch
Enforces-config mode epoch enforce e (m, t, q) = ground (
  arith,
  or_default-cases mode memory (parse_mode mode),
  or_default-cases epoch 0 (parse_session_epoch epoch),
  m,
  q,
)

module _ (environment : HaConfigSetting → Option String) (file : HaConfigSetting → Value) where
  abbrev setting : HaConfigSetting → Value
  setting = env_or_file environment file

  -- Whatever the settings are, an epoch that is left out or malformed among them: a session is refused
  -- exactly when an epoch is enforced and the session is not of it.
  check_session_epoch_iff :
      (p : SessionMetadata)
      → (is_accepted (check_session_epoch p (parse_ha_config environment file)) ≡ false) ↔ (
          (e : ℕ) × Enforces
            (setting ha_mode)
            (setting ha_session_epoch)
            (setting ha_enforce_session_epoch)
            e
          × ¬ (IsOfEpoch p e))
  unfolding parse_ha_config
  check_session_epoch_iff p =
      let c = parse_ha_config environment file in
      let mode = setting ha_mode in
      let epoch = setting ha_session_epoch in
      let enforce = setting ha_enforce_session_epoch in
      let decided = enforces_iff mode epoch enforce in
      elim (Bool-cases (enforces mode epoch enforce)) [
        | inr off ↦
            let fine = check_session_epoch-disabled p c off in
            (
              λ h. let wrong : ⊥ = cc in elim wrong [ ],
              λ (e, asked, apart).
                  let on = decided.1 (e, asked) in let wrong : ⊥ = cc in elim wrong [ ],
            )
        | inl on ↦
            let (e, asked) = decided.0 on in
            let (m, q) = Enforces-config mode epoch enforce e asked in
            let fine = check_session_epoch-enforced p c m on in
            (
              λ h. (
                e,
                asked,
                λ k.
                    let taken = fine.1 (subst (IsOfEpoch p) (sym q) k) in
                    let wrong : ⊥ = cc in wrong,
              ),
              λ (d, again, apart).
                  let (n, same) = Enforces-config mode epoch enforce d again in
                  elim (Bool-cases (is_accepted (check_session_epoch p c))) [
                    | inr out ↦ out
                    | inl taken ↦ elim (apart (subst (IsOfEpoch p) same (fine.0 taken))) [ ]
                  ],
            )
      ]

  -- Where the setting of the epoch is well formed and says `epoch`, a session is refused for its epoch
  -- exactly when the settings say distributed mode and ask for the enforcement, and the session has no
  -- identifier, an empty one, no epoch, or another epoch than `epoch`. (Settings whose epoch is absent
  -- or malformed are left out.)
  pub check_session_epoch_refuses :
      (p : SessionMetadata) (epoch : ℕ)
      → parse_session_epoch (setting ha_session_epoch) ≡ some epoch
      → (is_accepted (check_session_epoch p (parse_ha_config environment file)) ≡ false) ↔ (
          (parse_mode (setting ha_mode) ≡ some distributed)
          × (parse_boolean (setting ha_enforce_session_epoch) ≡ some true)
          × ¬ (IsOfEpoch p epoch))
  check_session_epoch_refuses p epoch well =
      let refused = check_session_epoch_iff p in
      (
        λ h.
            let (e, (mode, asked, given), apart) = refused.0 h in
            let same : e ≡ epoch = cc in (mode, asked, subst (λ n. ¬ (IsOfEpoch p n)) same apart),
        λ (mode, asked, apart). refused.1 (epoch, (mode, asked, well), apart),
      )
