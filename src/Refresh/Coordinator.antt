-- ===== src/Refresh/Coordinator.antt =====
-- apps/worker/src/vnu/vnu-refresh-control.ts: `DurableObjectVnuRefreshControlCoordinator`, over a
-- namespace with one storage for each principal. What becomes of the remote call is an argument: it
-- is answered, never arrives, or runs and its reply is lost.
use hyeboard.Prelude.{
  ℕ, ◌≤◌, ◌≡◌, refl, ◌∙◌, sym, ap, inl, inr, Bool, false, ◌&&◌, List, [], ◌∷◌, ◌++◌, if_cases,
  String, arith, Outcome, ok, throw, if◌then◌else◌, str_eq, str_eq_iff, is_hex, Bool-cases,
  HasUniqueKeys, Rpc, answered, never_sent, reply_lost, is_sent, put, put_self,
}
use hyeboard.Refresh.State.{LinkedPair}
use hyeboard.Refresh.Valid.{Fault, is_linked_pair}
use hyeboard.Refresh.Transitions.{Reply, done, revoked, is_grant}
use hyeboard.Refresh.Store.{
  Storage, Answer, Call, activate, begin, check, revoke_access, revoke_grant, revoke_pair, complete,
  abort, alarm_fires, perform, storage_after, run,
}
use hyeboard.Refresh.Forever.{grants_access, InOrder}
use hyeboard.Refresh.Revocation.{tombstones}
use hyeboard.Refresh.Revoked.{revocation_is_permanent}

-- `vnuRefreshUnavailable()`: the one error that a caller sees.
pub data Unavailable : Type 0 where
  unavailable : Unavailable

abbrev pub Namespace : Type 0
Namespace = String → Storage

-- The assertions of each method before its remote call.
abbrev pub asserted : Call → Bool
asserted (activate p) = is_linked_pair p
asserted (begin p) = is_linked_pair p
asserted (check p) = is_linked_pair p
asserted (revoke_access p) = is_linked_pair p
asserted (revoke_grant p) = is_linked_pair p
asserted (revoke_pair p) = is_linked_pair p
asserted (complete old next) = is_linked_pair old && is_linked_pair next
asserted (abort p terminal) = is_linked_pair p
asserted alarm_fires = false

-- What a method returns of the object's reply: `abortRefresh` nothing.
abbrev pub returned : Call → Reply → Reply
returned (abort p terminal) r = done
returned _ r = r

abbrev answer_of : Call → Outcome Fault Answer → Outcome Unavailable Reply
answer_of call (ok a) = ok (returned call a.reply)
answer_of call (throw e) = throw unavailable

abbrev pub replied : Rpc → Call → Outcome Fault Answer → Outcome Unavailable Reply
replied answered call a = answer_of call a
replied never_sent call a = throw unavailable
replied reply_lost call a = throw unavailable

-- `stub`'s test of the principal, then the method's assertions; either throws inside `call`.
abbrev pub reaches : Rpc → String → Call → Bool
reaches rpc key call = is_hex 64 key && asserted call && is_sent rpc

unfoldable pub coordinate :
    Rpc → Namespace → String → Call → ℕ → Outcome Unavailable Reply × Namespace
coordinate rpc ns key call now =
    if reaches rpc key call
    then (
      replied rpc call (perform call (ns key) now),
      put ns key (storage_after (ns key) (perform call (ns key) now)),
    )
    else (throw unavailable, ns)

-- A method of the coordinator, or the alarm of one principal's object.
pub data Event : Type 0 where
  request : Rpc → String → Call → Event
  alarm : String → Event

unfoldable pub handle : Namespace → ℕ → Event → Namespace
handle ns now (request rpc key call) = (coordinate rpc ns key call now).1
handle ns now (alarm key) = put ns key (storage_after (ns key) (perform alarm_fires (ns key) now))

unfoldable pub handle_all : Namespace → List (ℕ × Event) → Namespace
handle_all ns [] = ns
handle_all ns ((now, e) ∷ es) = handle_all (handle ns now e) es

-- The calls that one principal's object runs in an event, and in a history of them.
abbrev pub delivered_by : String → ℕ → Event → List (ℕ × Call)
delivered_by key now (request rpc k call) =
    if reaches rpc k call && str_eq k key then (now, call) ∷ [] else []
delivered_by key now (alarm k) = if str_eq k key then (now, alarm_fires) ∷ [] else []

abbrev pub delivered : String → List (ℕ × Event) → List (ℕ × Call)
delivered key [] = []
delivered key ((now, e) ∷ es) = delivered_by key now e ++ delivered key es

run-append : (xs ys : List (ℕ × Call)) (s : Storage) → run s (xs ++ ys) ≡ run (run s xs) ys
unfolding run
run-append [] ys s = refl
run-append ((now, call) ∷ xs) ys s = run-append xs ys (storage_after s (perform call s now))

put-run :
    (ns : Namespace) (k key : String) (now : ℕ) (call : Call)
    → put ns k (storage_after (ns k) (perform call (ns k) now)) key
      ≡ run (ns key) (if str_eq k key then (now, call) ∷ [] else [])
unfolding run
put-run ns k key now call = elim (Bool-cases (str_eq k key)) [
  | inr other ↦ rw other refl
  | inl same ↦
      let e : k ≡ key = (str_eq_iff k key).0 same in
      rw same (ap (λ j. storage_after (ns j) (perform call (ns j) now)) e)
]

handle-delivered_by :
    (ns : Namespace) (now : ℕ) (e : Event) (key : String)
    → handle ns now e key ≡ run (ns key) (delivered_by key now e)
unfolding handle coordinate run
handle-delivered_by ns now (alarm k) key = put-run ns k key now alarm_fires
handle-delivered_by ns now (request rpc k call) key = elim (Bool-cases (reaches rpc k call)) [
  | inr lost ↦ rw (lost, handle, coordinate) refl
  | inl sent ↦ rw (sent, handle, coordinate) (put-run ns k key now call)
]

-- Whatever the coordinator is asked, and whatever is lost on the way, the storage of a principal is
-- what its object makes of the calls delivered to it: other principals' calls do not touch it, and a
-- call that does not arrive leaves no trace.
pub handle_all-delivered :
    (es : List (ℕ × Event)) (ns : Namespace) (key : String)
    → handle_all ns es key ≡ run (ns key) (delivered key es)
unfolding handle_all run
handle_all-delivered [] ns key = refl
handle_all-delivered ((now, e) ∷ es) ns key =
    handle_all-delivered es (handle ns now e) key
    ∙ ap (λ s. run s (delivered key es)) (handle-delivered_by ns now e key)
    ∙ sym (run-append (delivered_by key now e) (delivered key es) (ns key))

-- The events come in order, none before `from` or after `until`.
abbrev pub EventsInOrder : ℕ → List (ℕ × Event) → ℕ → Type 0
EventsInOrder from [] until = from ≤ until
EventsInOrder from ((now, e) ∷ es) until = (from ≤ now) × EventsInOrder now es until

later_calls :
    (from now until : ℕ) (h : List (ℕ × Call))
    → from ≤ now
    → InOrder now h until
    → InOrder from h until
later_calls from now until [] l o = omega arith
later_calls from now until ((at, call) ∷ h) l (o, r) = (omega arith, r)

delivered-InOrder :
    (key : String) (es : List (ℕ × Event)) (from until : ℕ)
    → EventsInOrder from es until
    → InOrder from (delivered key es) until
delivered-InOrder key [] from until o = o
delivered-InOrder key ((now, request rpc k call) ∷ es) from until (l, o) =
    let rest = delivered-InOrder key es now until o in
    if_cases (λ xs. InOrder from (xs ++ delivered key es) until)
      (reaches rpc k call && str_eq k key) (λ _. (l, rest))
      (λ _. later_calls from now until (delivered key es) l rest)
delivered-InOrder key ((now, alarm k) ∷ es) from until (l, o) =
    let rest = delivered-InOrder key es now until o in
    if_cases (λ xs. InOrder from (xs ++ delivered key es) until) (str_eq k key) (λ _. (l, rest))
      (λ _. later_calls from now until (delivered key es) l rest)

abbrev pub grants : Outcome Unavailable Reply → Bool
grants (throw e) = false
grants (ok r) = is_grant r

-- The coordinator grants a check or a refresh only if the object does.
coordinate-grants :
    (rpc : Rpc) (ns : Namespace) (key : String) (p : LinkedPair) (now : ℕ)
    → (grants_access (perform (check p) (ns key) now) ≡ false)
    → (grants_access (perform (begin p) (ns key) now) ≡ false)
    → (grants (coordinate rpc ns key (check p) now).0 ≡ false)
      × (grants (coordinate rpc ns key (begin p) now).0 ≡ false)
unfolding coordinate
coordinate-grants rpc ns key p now c b = (ground arith, ground arith)

-- Once the object of a principal answers a revocation by access with `revoked`, whatever the coordinator
-- is asked afterwards in order of time, for whatever principals and with whatever losses, it grants
-- neither a check nor a refresh of the pair. (The keys of the stored tombstones are distinct, as
-- those of every object are.)
pub coordinated_revocation :
    (p : LinkedPair) (ns : Namespace) (key : String) (now : ℕ) (a : Answer) (es : List (ℕ × Event))
    (until : ℕ) (rpc : Rpc)
    → HasUniqueKeys (tombstones (ns key).state)
    → perform (revoke_access p) (ns key) now ≡ ok a
    → a.reply ≡ revoked
    → EventsInOrder now es until
    → let later = handle_all (put ns key a.storage) es in
      (grants (coordinate rpc later key (check p) until).0 ≡ false)
      × (grants (coordinate rpc later key (begin p) until).0 ≡ false)
coordinated_revocation p ns key now a es until rpc u e r o =
    let later = handle_all (put ns key a.storage) es in
    let here : put ns key a.storage key ≡ a.storage = put_self ns key a.storage in
    let stored : later key ≡ run a.storage (delivered key es) =
      handle_all-delivered es (put ns key a.storage) key
      ∙ ap (λ s. run s (delivered key es)) here in
    let (c, b) =
      revocation_is_permanent p (ns key) now a (delivered key es) until u e r
        (delivered-InOrder key es now until o) in
    coordinate-grants rpc later key p until
      (ap (λ s. grants_access (perform (check p) s until)) stored ∙ c)
      (ap (λ s. grants_access (perform (begin p) s until)) stored ∙ b)
