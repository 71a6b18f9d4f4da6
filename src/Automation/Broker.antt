-- ===== src/Automation/Broker.antt =====
-- apps/automation-worker/src/transport/broker.ts: `InMemoryStreamsBroker`. The identifier `n-0` of an
-- entry is the number `n`, and a group's `lastIndex + 1` is `next_index`. A call takes one instant.
use Prim.Native.String.{◌++◌ as append_text}
use hyeboard.Prelude.{
  ℕ, zero, suc, ◌+◌, Bool, Option, none, some, List, [], ◌∷◌, ◌++◌, String, Dict, lookup, insert,
  drop, if◌then◌else◌, ◌==◌, ltb, Outcome, ok, throw,
}

pub record Entry : Type 0 where
  pub id : ℕ
  pub contents : Dict String

pub record Pending : Type 0 where
  pub message : Entry
  pub delivery_count : ℕ
  pub consumer : String
  pub claimed_at : ℕ
  pub idle_ms : Option ℕ

pub record GroupState : Type 0 where
  pub next_index : ℕ
  pub pending : List Pending

pub record StreamsBroker : Type 0 where
  pub streams : Dict (List Entry)
  pub groups : Dict GroupState
  pub sequence : ℕ

pub data BrokerError : Type 0 where
  group_missing : BrokerError

abbrev pub new_broker : StreamsBroker
new_broker = record { streams = []; groups = []; sequence = 0 }

abbrev pub group_key : String → String → String
group_key stream group = append_text stream (append_text ":" group)

abbrev pub entries_or : Option (List Entry) → List Entry
entries_or none = []
entries_or (some es) = es

abbrev pub new_group : GroupState
new_group = record { next_index = 0; pending = [] }

abbrev pub group_or : Option GroupState → GroupState
group_or none = new_group
group_or (some g) = g

-- `this.streams.get(stream) ?? []`
unfoldable pub entries_of : StreamsBroker → String → List Entry
entries_of b stream = entries_or (lookup stream b.streams)

-- `ensureGroup`
unfoldable pub ensure_group : String → String → StreamsBroker → StreamsBroker
ensure_group stream group b =
    let key = group_key stream group in
    record b {
      streams = insert stream (entries_of b stream) b.streams;
      groups = insert key (group_or (lookup key b.groups)) b.groups;
    }

-- `pending.set` and `pending.delete`
unfoldable pub set_pending : Pending → List Pending → List Pending
set_pending m [] = m ∷ []
set_pending m (p ∷ ps) = if p.message.id == m.message.id then m ∷ ps else p ∷ set_pending m ps

unfoldable pub delete_pending : ℕ → List Pending → List Pending
delete_pending id [] = []
delete_pending id (p ∷ ps) =
    let rest = delete_pending id ps in if p.message.id == id then rest else p ∷ rest

abbrev pub first_delivery : String → ℕ → Entry → Pending
first_delivery consumer now e = record {
  message = e;
  delivery_count = 1;
  consumer = consumer;
  claimed_at = now;
  idle_ms = none;
}

abbrev pub deliver : String → ℕ → Entry → GroupState → GroupState
deliver consumer now e g = record {
  next_index = suc g.next_index;
  pending = set_pending (first_delivery consumer now e) g.pending;
}

-- The loop of `readGroup` over the entries that the group has not been given: at most `count` of them.
unfoldable pub read_entries : String → ℕ → ℕ → List Entry → GroupState → List Pending × GroupState
read_entries consumer now count [] g = ([], g)
read_entries consumer now zero (e ∷ es) g = ([], g)
read_entries consumer now (suc count) (e ∷ es) g =
    let (output, g') = read_entries consumer now count es (deliver consumer now e g) in
    (first_delivery consumer now e ∷ output, g')

abbrev unless_aborted : Bool → List Pending → List Pending
unless_aborted aborted output = if aborted then [] else output

-- `readGroup`: what is read is pending, also where the signal is aborted and nothing is returned.
unfoldable pub read_group :
    String
    → String
    → String
    → ℕ
    → Bool
    → ℕ
    → StreamsBroker
    → Outcome BrokerError (List Pending) × StreamsBroker
read_group stream group consumer count aborted now b =
    elim (lookup (group_key stream group) b.groups) [
      | none ↦ (throw group_missing, b)
      | some g ↦
          let (output, g') =
            read_entries consumer now count (drop g.next_index (entries_of b stream)) g in
          (
            ok (unless_aborted aborted output),
            record b { groups = insert (group_key stream group) g' b.groups },
          )
    ]

abbrev pub claim : String → ℕ → Pending → Pending
claim consumer now p = record p {
  consumer = consumer;
  claimed_at = now;
  delivery_count = suc p.delivery_count;
  idle_ms = some 0;
}

-- The loop of `reclaimPending`: what has been idle for `min_idle` is claimed, at most `count` messages.
unfoldable pub reclaim : String → ℕ → ℕ → ℕ → List Pending → List Pending × List Pending
reclaim consumer now min_idle count [] = ([], [])
reclaim consumer now min_idle zero (p ∷ ps) = ([], p ∷ ps)
reclaim consumer now min_idle (suc count) (p ∷ ps) =
    let skipped : List Pending × List Pending =
      let (output, ps') = reclaim consumer now min_idle (suc count) ps in (output, p ∷ ps') in
    let claimed : List Pending × List Pending =
      let (output, ps') = reclaim consumer now min_idle count ps in
      (claim consumer now p ∷ output, claim consumer now p ∷ ps') in
    if ltb now (p.claimed_at + min_idle) then skipped else claimed

unfoldable pub reclaim_pending :
    String
    → String
    → String
    → ℕ
    → ℕ
    → Bool
    → ℕ
    → StreamsBroker
    → Outcome BrokerError (List Pending) × StreamsBroker
reclaim_pending stream group consumer count min_idle aborted now b =
    elim (lookup (group_key stream group) b.groups) [
      | none ↦ (throw group_missing, b)
      | some g ↦
          let (output, ps) = reclaim consumer now min_idle count g.pending in
          (
            ok (unless_aborted aborted output),
            record b {
              groups = insert (group_key stream group) (record g { pending = ps }) b.groups;
            },
          )
    ]

-- `ack`
unfoldable pub ack_message : String → String → ℕ → StreamsBroker → StreamsBroker
ack_message stream group id b = elim (lookup (group_key stream group) b.groups) [
  | none ↦ b
  | some g ↦ record b {
    groups =
        insert (group_key stream group) (record g { pending = delete_pending id g.pending })
          b.groups;
  }
]

-- `add`
unfoldable pub add_entry : String → Dict String → StreamsBroker → StreamsBroker
add_entry stream contents b = record b {
  sequence = suc b.sequence;
  streams =
      insert stream
        (entries_of b stream ++ record { id = suc b.sequence; contents = contents } ∷ []) b.streams;
}

-- A call of the broker.
pub data BrokerCall : Type 0 where
  ensures : String → String → BrokerCall
  reads : String → String → String → ℕ → Bool → BrokerCall
  reclaims : String → String → String → ℕ → ℕ → Bool → BrokerCall
  acks : String → String → ℕ → BrokerCall
  adds : String → Dict String → BrokerCall

unfoldable pub call_broker : StreamsBroker → ℕ → BrokerCall → StreamsBroker
call_broker b now (ensures stream group) = ensure_group stream group b
call_broker b now (reads stream group consumer count aborted) =
    (read_group stream group consumer count aborted now b).1
call_broker b now (reclaims stream group consumer count min_idle aborted) =
    (reclaim_pending stream group consumer count min_idle aborted now b).1
call_broker b now (acks stream group id) = ack_message stream group id b
call_broker b now (adds stream contents) = add_entry stream contents b

unfoldable pub run_broker : StreamsBroker → List (ℕ × BrokerCall) → StreamsBroker
run_broker b [] = b
run_broker b ((now, call) ∷ rest) = run_broker (call_broker b now call) rest
