-- ===== src/Automation/Batches.antt =====
-- apps/automation-worker/src/transport/broker.ts: a batch of entries that is read and acknowledged.
use hyeboard.Prelude.{
  ℕ, zero, suc, ◌+◌, ◌≤◌, ◌≡◌, refl, ap, Bool, false, not, ◌&&◌, ◌||◌, Option, some, List, [], ◌∷◌,
  ◌++◌, String, arith, length, take, drop, Dict, ◌==◌,
}
use hyeboard.Automation.Broker.{
  Entry, Pending, GroupState, StreamsBroker, entries_of, delete_pending, first_delivery, deliver,
  read_entries,
}
use hyeboard.Automation.Accounts.{has_pending, has_pending-set_pending, has_pending-delete_pending}

abbrev pub first_deliveries : String → ℕ → List Entry → List Pending
first_deliveries consumer now [] = []
first_deliveries consumer now (e ∷ es) =
    first_delivery consumer now e ∷ first_deliveries consumer now es

abbrev pub has_entry : ℕ → List Entry → Bool
has_entry id [] = false
has_entry id (e ∷ es) = (e.id == id) || has_entry id es

abbrev pub delete_all : List Entry → List Pending → List Pending
delete_all [] ps = ps
delete_all (e ∷ es) ps = delete_all es (delete_pending e.id ps)

pub has_pending-delete_all :
    (id : ℕ) (es : List Entry) (ps : List Pending)
    → has_pending id (delete_all es ps) ≡ (has_pending id ps && not (has_entry id es))
has_pending-delete_all id [] ps = ground arith
has_pending-delete_all id (e ∷ es) ps = ground (
  arith,
  has_pending-delete_all id es (delete_pending e.id ps),
  has_pending-delete_pending id e.id ps,
)

pub no_pending : (ps : List Pending) → ((id : ℕ) → has_pending id ps ≡ false) → ps ≡ []
unfolding has_pending
no_pending [] h = refl
no_pending (p ∷ ps) h = let one = h p.message.id in let off : ⊥ = ground arith in elim off [ ]

-- What a read returns, how far it gets, and what is pending after it.
pub read_entries_lem :
    (consumer : String) (now count : ℕ) (es : List Entry) (g : GroupState)
    → let r = read_entries consumer now count es g in
      (r.0 ≡ first_deliveries consumer now (take count es))
      × (r.1.next_index ≡ g.next_index + length (take count es))
      × ((id : ℕ)
          → has_pending id r.1.pending ≡ (has_pending id g.pending || has_entry id (take count es)))
unfolding read_entries
read_entries_lem consumer now zero [] g = (refl, omega arith, λ id. ground arith)
read_entries_lem consumer now (suc count) [] g = (refl, omega arith, λ id. ground arith)
read_entries_lem consumer now zero (e ∷ es) g = (refl, omega arith, λ id. ground arith)
read_entries_lem consumer now (suc count) (e ∷ es) g =
    let (out, next, has) = read_entries_lem consumer now count es (deliver consumer now e g) in
    (
      ap (λ l. first_delivery consumer now e ∷ l) out,
      omega (arith, next),
      λ id.
          ground
            (arith, has id, has_pending-set_pending id (first_delivery consumer now e) g.pending),
    )

pub entries_of-groups :
    (b : StreamsBroker) (gs : Dict GroupState) (stream : String)
    → entries_of (record b { groups = gs }) stream ≡ entries_of b stream
unfolding entries_of
entries_of-groups b gs stream = refl

pub drop_all : (n : ℕ) (es : List Entry) → length es ≤ n → drop n es ≡ []
drop_all zero [] h = refl
drop_all zero (e ∷ es) h = let off : ⊥ = omega arith in elim off [ ]
drop_all (suc n) [] h = refl
drop_all (suc n) (e ∷ es) h = drop_all n es (omega arith)

pub take_rest : (n : ℕ) (es : List Entry) → take n es ++ drop (length (take n es)) es ≡ es
take_rest zero es = refl
take_rest (suc n) [] = refl
take_rest (suc n) (e ∷ es) = ap (λ l. e ∷ l) (take_rest n es)

pub idle_after :
    {m n : ℕ} {ps : List Pending}
    → m ≡ n
    → ps ≡ []
    → ◌≡◌ {A = Option GroupState}
        (some (record { next_index = m; pending = ps }))
        (some (record { next_index = n; pending = [] }))
idle_after e h = rw (e, h) refl
