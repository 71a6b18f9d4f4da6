-- ===== src/Budget/Presented.antt =====
-- apps/worker/src/vnu/vnu-probe-budget.ts: `consumeCrossDetailPermit` of the coordinator, over the history of
-- a namespace.
use hyeboard.Prelude.{
  and_true, is_hex, ℕ, ◌≡◌, refl, ap, ◌∙◌, subst, inl, inr, Bool, true, false, ◌&&◌, List, [], ◌∷◌,
  ◌++◌, String, arith, Outcome, ok, throw, Bool-cases, str_eq, HasUniqueKeys, Rpc, answered,
  never_sent, reply_lost, put, put_self, if◌then◌else◌,
}
use hyeboard.Budget.Checks.{CrossDetailLimits, ConsumeInput}
use hyeboard.Budget.Store.{
  BudgetStore, Fault, ConsumeAnswer, consumed, invalid, over_budget, detail_busy, Call, acquire,
  release, release_detail, consume, issue, fires, reserves, consume_cross_detail_permit, step, run,
  store_of,
}
use hyeboard.Budget.SingleUse.{issues, NotIssued, consume_once}
use hyeboard.Budget.Coordinator.{
  asserted, Rejection, Response, lease, Namespace, of_consume, replied, reaches, coordinate,
  coordinate-reaches, Event, request, alarm, handle_all, delivered_by, delivered,
  handle_all-delivered_calls,
}

-- The coordinator is not asked to issue a permit of this hash for the session.
abbrev pub NotReissued : String → String → List (ℕ × Event) → Type 0
NotReissued key hash [] = Unit
NotReissued key hash ((now, request rpc k (issue ps limits)) ∷ es) =
    ((str_eq k key && issues hash ps) ≡ false) × NotReissued key hash es
NotReissued key hash (_ ∷ es) = NotReissued key hash es

abbrev pub is_lease : Outcome Rejection Response → Bool
is_lease (ok (lease id expires_at envelope)) = true
is_lease _ = false

module _ (hash : String) (now : ℕ) (rest : List (ℕ × Call)) where
  delivered_or_not :
      (b : Bool) (call : Call)
      → (b ≡ true → NotIssued hash ((now, call) ∷ rest))
      → NotIssued hash rest
      → NotIssued hash ((if b then (now, call) ∷ [] else []) ++ rest)
  delivered_or_not true call with_it without = with_it refl
  delivered_or_not false call with_it without = without

delivered-NotIssued :
    (key hash : String) (es : List (ℕ × Event))
    → NotReissued key hash es
    → NotIssued hash (delivered key es)
delivered-NotIssued key hash [] n = tt
delivered-NotIssued key hash ((now, e) ∷ es) n =
    let rest = delivered-NotIssued key hash es in event e n rest
  where
    event :
        (e : Event)
        → NotReissued key hash ((now, e) ∷ es)
        → (NotReissued key hash es → NotIssued hash (delivered key es))
        → NotIssued hash (delivered_by key now e ++ delivered key es)
    event (alarm k) n rest =
        delivered_or_not hash now (delivered key es) (str_eq k key) fires (λ _. rest n) (rest n)
    event (request rpc k (issue ps limits)) (f, n) rest =
        delivered_or_not hash now (delivered key es)
          (reaches rpc k (issue ps limits) && str_eq k key) (issue ps limits)
          (λ sent. (
            ground (arith, and_true (reaches rpc k (issue ps limits)) (str_eq k key) sent, f),
            rest n,
          ))
          (rest n)
    event (request rpc k (consume i limits id)) n rest =
        delivered_or_not hash now (delivered key es)
          (reaches rpc k (consume i limits id) && str_eq k key) (consume i limits id) (λ _. rest n)
          (rest n)
    event (request rpc k (acquire id)) n rest =
        delivered_or_not hash now (delivered key es) (reaches rpc k (acquire id) && str_eq k key)
          (acquire id) (λ _. rest n) (rest n)
    event (request rpc k (release id)) n rest =
        delivered_or_not hash now (delivered key es) (reaches rpc k (release id) && str_eq k key)
          (release id) (λ _. rest n) (rest n)
    event (request rpc k (release_detail id)) n rest =
        delivered_or_not hash now (delivered key es)
          (reaches rpc k (release_detail id) && str_eq k key) (release_detail id) (λ _. rest n)
          (rest n)
    event (request rpc k (reserves amount)) n rest =
        delivered_or_not hash now (delivered key es)
          (reaches rpc k (reserves amount) && str_eq k key) (reserves amount) (λ _. rest n) (rest n)
    event (request rpc k fires) n rest =
        delivered_or_not hash now (delivered key es) (reaches rpc k fires && str_eq k key) fires
          (λ _. rest n) (rest n)

-- A lease comes only from an object that consumes the permit.
of_consume_lease :
    (limits : CrossDetailLimits) (o : Outcome Fault (ConsumeAnswer × BudgetStore))
    → is_lease (of_consume limits o) ≡ true
    → (id : String) × (expires_at : ℕ) × (envelope : String) × (s : BudgetStore) × (o
        ≡ ok (consumed id expires_at envelope, s))
of_consume_lease limits (ok (consumed id expires_at envelope, s)) h =
    (id, expires_at, envelope, s, refl)
of_consume_lease limits (ok (over_budget n, s)) h = cc
of_consume_lease limits (ok (detail_busy n, s)) h = cc
of_consume_lease limits (ok (invalid, s)) h = cc
of_consume_lease limits (throw e) h = cc

replied_lease :
    (rpc : Rpc) (r : Outcome Rejection Response)
    → is_lease (replied rpc r) ≡ true
    → is_lease r ≡ true
replied_lease answered r h = h
replied_lease never_sent r h = cc
replied_lease reply_lost r h = cc

-- What a lease that the coordinator returns says of the object.
coordinate_lease :
    (rpc : Rpc) (ns : Namespace) (key : String) (i : ConsumeInput) (limits : CrossDetailLimits)
    (id : String) (now : ℕ)
    → is_lease (coordinate rpc ns key (consume i limits id) now).0 ≡ true
    → is_lease (of_consume limits (consume_cross_detail_permit (ns key) i limits id now)) ≡ true
unfolding coordinate
coordinate_lease rpc ns key i limits id now h = elim (Bool-cases (is_hex 64 key)) [
  | inr bad ↦ ground arith
  | inl hex ↦ elim (Bool-cases (asserted (consume i limits id))) [
    | inr bad ↦ ground arith
    | inl shaped ↦ replied_lease rpc _ (ground arith)
  ]
]

-- Once an object grants the presentation of a permit that the coordinator sends it, the reply lost or
-- not, whatever the coordinator is asked afterwards, for whatever sessions and with whatever losses,
-- no later presentation of a permit of the same hash for the session is answered with a lease, unless
-- one is issued anew for it. (The keys of the stored table are distinct, as those of every object are.)
pub coordinated_single_use :
    (rpc rpc' : Rpc) (ns : Namespace) (key : String) (i j : ConsumeInput)
    (limits limits' : CrossDetailLimits) (id id' : String) (now later : ℕ) (answer : String)
    (expires_at : ℕ) (envelope : String) (s : BudgetStore) (es : List (ℕ × Event))
    → HasUniqueKeys (ns key).detail_permits
    → reaches rpc key (consume i limits id) ≡ true
    → consume_cross_detail_permit (ns key) i limits id now
      ≡ ok (consumed answer expires_at envelope, s)
    → NotReissued key i.permit_hash es
    → j.permit_hash ≡ i.permit_hash
    → let after = handle_all (coordinate rpc ns key (consume i limits id) now).1 es in
      is_lease (coordinate rpc' after key (consume j limits' id') later).0 ≡ false
unfolding step
coordinated_single_use rpc rpc' ns key i j limits limits' id id' now later answer expires_at
      envelope s es u sent granted n same =
    let first = (coordinate rpc ns key (consume i limits id) now).1 in
    let after = handle_all first es in
    let made : first key ≡ put ns key (step (ns key) now (consume i limits id)) key =
      ap (λ m. m key) (rw sent at (coordinate-reaches rpc ns key (consume i limits id) now)) in
    let here : first key ≡ s =
      made
      ∙ put_self ns key (step (ns key) now (consume i limits id))
      ∙ ap (store_of (ns key)) granted in
    let stored : after key ≡ run s (delivered key es) =
      handle_all-delivered_calls es first key ∙ ap (λ t. run t (delivered key es)) here in
    elim (Bool-cases (is_lease (coordinate rpc' after key (consume j limits' id') later).0)) [
      | inr refused ↦ refused
      | inl leased ↦
          let (l, x, e, t, q) =
            of_consume_lease limits' _
              (coordinate_lease rpc' after key j limits' id' later leased) in
          let again : consume_cross_detail_permit (run s (delivered key es)) j limits' id' later
              ≡ ok (consumed l x e, t) =
            subst (λ r. consume_cross_detail_permit r j limits' id' later ≡ ok (consumed l x e, t))
              stored q in
          let spent =
            consume_once (ns key) s i j limits limits' id id' now later answer expires_at envelope
              (delivered key es) (consumed l x e) t u granted
              (delivered-NotIssued key i.permit_hash es n) same again in
          let wrong : ⊥ = cc in elim wrong [ ]
    ]
