-- ===== src/Automation/Delivery.antt =====
-- apps/automation-worker/src/transport/broker.ts: what a group has been given is pending until it is
-- acknowledged.
use hyeboard.Prelude.{
  ℕ, suc, ◌≡◌, sym, subst, inl, inr, Bool, true, not, ◌||◌, some, List, [], ◌∷◌, ◌++◌, String,
  arith, take, drop, append-take-drop, length-append, length-take, Dict, lookup, insert,
  lookup-insert, str_eq, str_eq_iff, Option-cases, Bool-cases, if◌then◌else◌,
}
use hyeboard.Automation.Broker.{
  Entry, GroupState, StreamsBroker, new_broker, group_key, entries_of, group_or, ensure_group,
  delete_pending, read_entries, read_group, reclaim, reclaim_pending, ack_message, add_entry,
  BrokerCall, ensures, reads, reclaims, acks, adds, call_broker, run_broker,
}
use hyeboard.Automation.Accounts.{
  has_pending-reclaim, has_pending-delete_pending, IsAccounted, AccountsFor, All-mono, take-append,
  read_entries-AccountsFor,
}

module _ (stream group : String) where
  abbrev key : String
  key = group_key stream group

  -- A call for another stream is not for this group: the names of the two are told apart.
  abbrev is_named_apart : String → String → Bool
  is_named_apart s g = not (str_eq (group_key s g) key) || str_eq s stream

  abbrev pub is_apart : BrokerCall → Bool
  is_apart (ensures s g) = is_named_apart s g
  is_apart (reads s g consumer count aborted) = is_named_apart s g
  is_apart (reclaims s g consumer count min_idle aborted) = is_named_apart s g
  is_apart (acks s g id) = is_named_apart s g
  is_apart (adds s contents) = true

  abbrev pub AreApart : List (ℕ × BrokerCall) → Type 0
  AreApart [] = Unit
  AreApart ((now, call) ∷ rest) = (is_apart call ≡ true) × AreApart rest

  -- What has been acknowledged to the group.
  abbrev acked_by : BrokerCall → List ℕ → List ℕ
  acked_by (acks s g id) acked = if str_eq (group_key s g) key then id ∷ acked else acked
  acked_by _ acked = acked

  abbrev pub acked_in : List (ℕ × BrokerCall) → List ℕ → List ℕ
  acked_in [] acked = acked
  acked_in ((now, call) ∷ rest) acked = acked_in rest (acked_by call acked)

  abbrev pub IsDelivered : List ℕ → StreamsBroker → Type 0
  IsDelivered acked b =
      (g : GroupState) → lookup key b.groups ≡ some g → AccountsFor acked (entries_of b stream) g

  -- What the group becomes, where a call writes it.
  written :
      (b : StreamsBroker) (k : String) (g' : GroupState) (acked : List ℕ)
      → IsDelivered acked b
      → (str_eq k key ≡ true → AccountsFor acked (entries_of b stream) g')
      → IsDelivered acked (record b { groups = insert k g' b.groups })
  unfolding entries_of
  written b k g' acked d new g h = elim (Bool-cases (str_eq k key)) [
    | inl same ↦
        let eq : g' ≡ g = ground (arith, lookup-insert k key g' b.groups) in
        subst (AccountsFor acked (entries_of b stream)) eq (new same)
    | inr other ↦ d g (ground (arith, lookup-insert k key g' b.groups))
  ]

  -- A group under the same key is this one.
  same_group :
      (b : StreamsBroker) (s g : String) (old : GroupState)
      → str_eq (group_key s g) key ≡ true
      → lookup (group_key s g) b.groups ≡ some old
      → lookup key b.groups ≡ some old
  same_group b s g old same q =
      subst (λ k. lookup k b.groups ≡ some old) ((str_eq_iff (group_key s g) key).0 same) q

  entries_of-ensure_group :
      (b : StreamsBroker) (s g : String)
      → entries_of (ensure_group s g b) stream ≡ entries_of b stream
  unfolding ensure_group entries_of
  entries_of-ensure_group b s g = ground (
    arith,
    lookup-insert s stream (entries_of b s) b.streams,
    str_eq_iff s stream,
    Option-cases (lookup s b.streams),
  )

  ensures-IsDelivered :
      (b : StreamsBroker) (s g : String) (acked : List ℕ)
      → IsDelivered acked b
      → IsDelivered acked (ensure_group s g b)
  unfolding entries_of
  ensures-IsDelivered b s g acked d =
      let old = lookup (group_key s g) b.groups in
      let made = written b (group_key s g) (group_or old) acked d fresh in
      λ g' h.
        (subst (λ es. AccountsFor acked es g') (sym (entries_of-ensure_group b s g))
          (made g' (unfold ensure_group in h)))
    where
      fresh :
          str_eq (group_key s g) key ≡ true
          → AccountsFor acked (entries_of b stream) (group_or (lookup (group_key s g) b.groups))
      fresh same = elim (Option-cases (lookup (group_key s g) b.groups)) [
        | inl q ↦ rw (q) (omega arith, tt)
        | inr (old, q) ↦ rw (q) (d old (same_group b s g old same q))
      ]

  reads-IsDelivered :
      (b : StreamsBroker) (s g consumer : String) (count now : ℕ) (aborted : Bool) (acked : List ℕ)
      → is_named_apart s g ≡ true
      → IsDelivered acked b
      → IsDelivered acked (read_group s g consumer count aborted now b).1
  unfolding read_group
  reads-IsDelivered b s g consumer count now aborted acked n d =
      elim (Option-cases (lookup (group_key s g) b.groups)) [
        | inl q ↦ rw (q, read_group) d
        | inr (old, q) ↦
            rw (q, read_group)
              (written b (group_key s g)
                (read_entries consumer now count (drop old.next_index (entries_of b s)) old).1 acked
                d (read_on old q))
      ]
    where
      read_on :
          (old : GroupState)
          → lookup (group_key s g) b.groups ≡ some old
          → str_eq (group_key s g) key ≡ true
          → AccountsFor acked
              (entries_of b stream)
              (read_entries consumer now count (drop old.next_index (entries_of b s)) old).1
      read_on old q same =
          let there : s ≡ stream = ground (arith, str_eq_iff s stream) in
          let es = entries_of b stream in
          let (within, all) = d old (same_group b s g old same q) in
          let more =
            read_entries-AccountsFor acked consumer now (take old.next_index es)
              (drop old.next_index es) count old (omega (arith, length-take old.next_index es))
              all in
          rw (there) (
            subst
              (λ l.
                AccountsFor acked l
                  (read_entries consumer now count (drop old.next_index es) old).1)
              (append-take-drop old.next_index es) more)

  reclaims-IsDelivered :
      (b : StreamsBroker) (s g consumer : String) (count min_idle now : ℕ) (aborted : Bool)
      (acked : List ℕ)
      → IsDelivered acked b
      → IsDelivered acked (reclaim_pending s g consumer count min_idle aborted now b).1
  unfolding reclaim_pending
  reclaims-IsDelivered b s g consumer count min_idle now aborted acked d =
      elim (Option-cases (lookup (group_key s g) b.groups)) [
        | inl q ↦ rw (q, reclaim_pending) d
        | inr (old, q) ↦
            let ps = (reclaim consumer now min_idle count old.pending).1 in
            let g' : GroupState = record old { pending = ps } in
            rw (q, reclaim_pending)
              (written b (group_key s g) g' acked d (λ same.
                (let (within, all) = d old (same_group b s g old same q) in
                  (
                    within,
                    All-mono (IsAccounted acked old.pending) (IsAccounted acked ps)
                        (take old.next_index (entries_of b stream))
                        (λ e h.
                          ground (
                            arith,
                            has_pending-reclaim e.id consumer now min_idle count old.pending,
                          ))
                        all,
                  ))))
      ]

  acks-IsDelivered :
      (b : StreamsBroker) (s g : String) (id : ℕ) (acked : List ℕ)
      → IsDelivered acked b
      → IsDelivered (acked_by (acks s g id) acked) (ack_message s g id b)
  unfolding ack_message
  acks-IsDelivered b s g id acked d =
      let acked' = acked_by (acks s g id) acked in
      let grown : IsDelivered acked' b = λ old h.
        (let (within, all) = d old h in
          (
            within,
            All-mono (IsAccounted acked old.pending) (IsAccounted acked' old.pending)
                (take old.next_index (entries_of b stream)) (λ e x. ground arith) all,
          )) in
      elim (Option-cases (lookup (group_key s g) b.groups)) [
        | inl q ↦ rw (q, ack_message) grown
        | inr (old, q) ↦
            let ps = delete_pending id old.pending in
            let g' : GroupState = record old { pending = ps } in
            rw (q, ack_message)
              (written b (group_key s g) g' acked' grown (λ same.
                (let (within, all) = d old (same_group b s g old same q) in
                  (
                    within,
                    All-mono (IsAccounted acked old.pending) (IsAccounted acked' ps)
                        (take old.next_index (entries_of b stream))
                        (λ e x. ground (arith, has_pending-delete_pending e.id id old.pending)) all,
                  ))))
      ]

  adds-IsDelivered :
      (b : StreamsBroker) (s : String) (contents : Dict String) (acked : List ℕ)
      → IsDelivered acked b
      → IsDelivered acked (add_entry s contents b)
  unfolding add_entry entries_of
  adds-IsDelivered b s contents acked d g h =
      let e : Entry = record { id = suc b.sequence; contents = contents } in
      let es = entries_of b stream in
      let (within, all) = d g h in
      elim (Bool-cases (str_eq s stream)) [
        | inl same ↦
            let there : entries_of (add_entry s contents b) stream ≡ es ++ e ∷ [] = ground (
              arith,
              lookup-insert s stream (entries_of b s ++ e ∷ []) b.streams,
              str_eq_iff s stream,
            ) in
            subst (λ l. AccountsFor acked l g) (sym there)
              (
                omega (arith, length-append {0} es (e ∷ [])),
                rw (take-append g.next_index es (e ∷ []) within) all,
              )
        | inr other ↦
            let there : entries_of (add_entry s contents b) stream ≡ es =
              ground (arith, lookup-insert s stream (entries_of b s ++ e ∷ []) b.streams) in
            subst (λ l. AccountsFor acked l g) (sym there) (within, all)
      ]

  call_broker-IsDelivered :
      (b : StreamsBroker) (now : ℕ) (call : BrokerCall) (acked : List ℕ)
      → is_apart call ≡ true
      → IsDelivered acked b
      → IsDelivered (acked_by call acked) (call_broker b now call)
  unfolding call_broker
  call_broker-IsDelivered b now (ensures s g) acked a d = ensures-IsDelivered b s g acked d
  call_broker-IsDelivered b now (reads s g consumer count aborted) acked a d =
      reads-IsDelivered b s g consumer count now aborted acked a d
  call_broker-IsDelivered b now (reclaims s g consumer count min_idle aborted) acked a d =
      reclaims-IsDelivered b s g consumer count min_idle now aborted acked d
  call_broker-IsDelivered b now (acks s g id) acked a d = acks-IsDelivered b s g id acked d
  call_broker-IsDelivered b now (adds s contents) acked a d = adds-IsDelivered b s contents acked d

  run_broker-IsDelivered :
      (history : List (ℕ × BrokerCall)) (b : StreamsBroker) (acked : List ℕ)
      → AreApart history
      → IsDelivered acked b
      → IsDelivered (acked_in history acked) (run_broker b history)
  unfolding run_broker
  run_broker-IsDelivered [] b acked a d = d
  run_broker-IsDelivered ((now, call) ∷ rest) b acked (a, others) d =
      run_broker-IsDelivered rest (call_broker b now call) (acked_by call acked) others
        (call_broker-IsDelivered b now call acked a d)

  -- No message is lost: after any calls of a new broker, whose names keep the group apart from
  -- those of other streams, each entry that the group has been given, which are the first
  -- `next_index` of the stream, is pending or was acknowledged.
  pub run_broker_delivers :
      (history : List (ℕ × BrokerCall)) (g : GroupState)
      → AreApart history
      → lookup key (run_broker new_broker history).groups ≡ some g
      → AccountsFor (acked_in history []) (entries_of (run_broker new_broker history) stream) g
  unfolding lookup
  run_broker_delivers history g a h =
      run_broker-IsDelivered history new_broker [] a (λ g' q. cc) g h
