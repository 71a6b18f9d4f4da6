-- ===== src/Budget/Alarm.antt =====
-- apps/worker/src/vnu/vnu-probe-budget-durable-object.ts: `rescheduleAlarm` wakes the object at the
-- first expiry of all that is live.
use hyeboard.Prelude.{
  ℕ, ◌≤◌, ◌<◌, ◌≡◌, refl, ◌⊎◌, inl, inr, ◌&&◌, some, List, [], ◌∷◌, ◌++◌, String, arith, lookup,
  Dict, values, minimum, ok, min, ltb, leb, str_eq, All, max_safe_integer, if_cases, Bool-cases,
  Option-cases, subst, sym, ◌∙◌, lt→ltb, le→leb,
}
use hyeboard.Budget.Store.{
  BudgetStore, StoredPermit, reschedule_alarm, live_instants, permit_instants, parse_stored_permits,
}

-- The instant `e` is one of the list.
abbrev pub Has : ℕ → List ℕ → Type 0
Has e [] = ⊥
Has e (x ∷ xs) = (e ≡ x) ⊎ Has e xs

Has-append_left : (e : ℕ) (xs ys : List ℕ) → Has e xs → Has e (xs ++ ys)
Has-append_left e (x ∷ xs) ys (inl h) = inl h
Has-append_left e (x ∷ xs) ys (inr h) = inr (Has-append_left e xs ys h)
Has-append_left e [] ys h = elim h [ ]

Has-append_right : (e : ℕ) (xs ys : List ℕ) → Has e ys → Has e (xs ++ ys)
Has-append_right e [] ys h = h
Has-append_right e (x ∷ xs) ys h = inr (Has-append_right e xs ys h)

minimum-le : (xs : List ℕ) (e : ℕ) → Has e xs → (a : ℕ) × (minimum xs ≡ some a) × (a ≤ e)
unfolding minimum
minimum-le [] e h = elim h [ ]
minimum-le (x ∷ xs) e (inr h) = let (a, q, l) = minimum-le xs e h in (min x a, rw q, omega arith)
minimum-le (x ∷ xs) e (inl h) = elim (Option-cases (minimum xs)) [
  | inl q ↦ (x, rw q, omega arith)
  | inr (a, q) ↦ (min x a, rw q, omega arith)
]

minimum-Has : (xs : List ℕ) (a : ℕ) → minimum xs ≡ some a → Has a xs
unfolding minimum
minimum-Has [] a h = cc
minimum-Has (x ∷ xs) a h = elim (Option-cases (minimum xs)) [
  | inl q ↦ inl (ground arith)
  | inr (b, q) ↦ elim (Bool-cases (leb x b)) [
    | inl l ↦ inl (ground arith)
    | inr l ↦ inr (subst (λ c. Has c xs) (ground arith) (minimum-Has xs b q))
  ]
]

All-Has : (P : ℕ → Type 0) (e : ℕ) (xs : List ℕ) → All P xs → Has e xs → P e
All-Has P e (x ∷ xs) (p, ps) (inl h) = subst P (sym h) p
All-Has P e (x ∷ xs) (p, ps) (inr h) = All-Has P e xs ps h
All-Has P e [] p h = elim h [ ]

All-append : (P : ℕ → Type 0) (xs ys : List ℕ) → All P xs → All P ys → All P (xs ++ ys)
All-append P [] ys p q = q
All-append P (x ∷ xs) ys (p, ps) q = (p, All-append P xs ys ps q)

module _ (now : ℕ) where
  abbrev Later : ℕ → Type 0
  Later e = now < e

  live_instants-Later : (es : List ℕ) → All Later (live_instants now es)
  live_instants-Later [] = tt
  live_instants-Later (e ∷ es) =
      if_cases (All Later) (leb e max_safe_integer && ltb now e)
        (λ h. (ground arith, live_instants-Later es)) (λ _. live_instants-Later es)

  permit_instants-Later : (m : Dict StoredPermit) → All Later (permit_instants now m)
  permit_instants-Later [] = tt
  permit_instants-Later ((k, p) ∷ m) =
      if_cases (All Later) (ltb now p.expires_at) (λ h. (ground arith, permit_instants-Later m))
        (λ _. permit_instants-Later m)

  Has-live_instants :
      (k : String) (e : ℕ) (m : Dict ℕ)
      → lookup k m ≡ some e
      → now < e
      → e ≤ max_safe_integer
      → Has e (live_instants now (values m))
  unfolding lookup
  Has-live_instants k e [] h l b = cc
  Has-live_instants k e ((j, w) ∷ m) h l b = elim (Bool-cases (str_eq j k)) [
    | inl q ↦
        let same : w ≡ e = ground arith in
        rw (same, lt→ltb now e l, le→leb e max_safe_integer b) (inl refl)
    | inr q ↦
        if_cases (Has e) (leb w max_safe_integer && ltb now w)
          (λ _. inr (Has-live_instants k e m (ground arith) l b))
          (λ _. Has-live_instants k e m (ground arith) l b)
  ]

  Has-permit_instants :
      (k : String) (p : StoredPermit) (m : Dict StoredPermit)
      → lookup k m ≡ some p
      → now < p.expires_at
      → Has p.expires_at (permit_instants now m)
  unfolding lookup
  Has-permit_instants k p [] h l = cc
  Has-permit_instants k p ((j, w) ∷ m) h l = elim (Bool-cases (str_eq j k)) [
    | inl q ↦ let same : w ≡ p = ground arith in rw (same, lt→ltb now p.expires_at l) (inl refl)
    | inr q ↦
        if_cases (Has p.expires_at) (ltb now w.expires_at)
          (λ _. inr (Has-permit_instants k p m (ground arith) l))
          (λ _. Has-permit_instants k p m (ground arith) l)
  ]

abbrev alarm_instants : BudgetStore → ℕ → List ℕ
alarm_instants s now =
    live_instants now (values s.permits)
    ++ (permit_instants now s.detail_permits ++ live_instants now (values s.detail_leases))

reschedule-minimum :
    (s s' : BudgetStore) (now : ℕ)
    → reschedule_alarm s now ≡ ok s'
    → s'.alarm ≡ minimum (alarm_instants s now)
unfolding reschedule_alarm parse_stored_permits
reschedule-minimum s s' now h = ground arith

-- The instant is the live expiry of something stored: a Brc1 permit, a detail permit or a detail
-- lease.
pub data IsPending (s : BudgetStore) (now e : ℕ) : Type 0 where
  brc1 : (id : String) → lookup id s.permits ≡ some e → e ≤ max_safe_integer → IsPending s now e
  detail :
      (hash : String) (p : StoredPermit)
      → lookup hash s.detail_permits ≡ some p
      → p.expires_at ≡ e
      → IsPending s now e
  detail_lease :
      (id : String) → lookup id s.detail_leases ≡ some e → e ≤ max_safe_integer → IsPending s now e

pending-Has :
    (s : BudgetStore) (now e : ℕ) → now < e → IsPending s now e → Has e (alarm_instants s now)
pending-Has s now e l (brc1 id h b) =
    Has-append_left e _ _ (Has-live_instants now id e s.permits h l b)
pending-Has s now e l (detail hash p h q) =
    Has-append_right e (live_instants now (values s.permits)) _ (
      Has-append_left e _ _ (
        subst (λ x. Has x (permit_instants now s.detail_permits)) q
          (Has-permit_instants now hash p s.detail_permits h (omega arith))))
pending-Has s now e l (detail_lease id h b) =
    Has-append_right e (live_instants now (values s.permits)) _ (
      Has-append_right e (permit_instants now s.detail_permits) _
        (Has-live_instants now id e s.detail_leases h l b))

-- The alarm that `rescheduleAlarm` sets at `now` lies after `now`, and whenever something stored has yet
-- to expire it is set, at that instant or earlier.
pub reschedule_alarm_covers :
    (s s' : BudgetStore) (now : ℕ)
    → reschedule_alarm s now ≡ ok s'
    → ((a : ℕ) → s'.alarm ≡ some a → now < a)
      × ((e : ℕ) → now < e → IsPending s now e → (a : ℕ) × (s'.alarm ≡ some a) × (a ≤ e))
reschedule_alarm_covers s s' now h = (
  λ a q.
      All-Has (Later now) a (alarm_instants s now)
        (All-append (Later now) _ _ (live_instants-Later now (values s.permits)) (
          All-append (Later now) _ _ (permit_instants-Later now s.detail_permits)
            (live_instants-Later now (values s.detail_leases))))
        (minimum-Has _ a (sym (reschedule-minimum s s' now h) ∙ q)),
  λ e l pending.
      let (a, q, le) = minimum-le _ e (pending-Has s now e l pending) in
      (a, reschedule-minimum s s' now h ∙ q, le),
)
