-- ===== src/Refresh/Available.antt =====
-- apps/worker/src/vnu/vnu-refresh-control.ts: when `DurableObjectVnuRefreshControlCoordinator` answers, and
-- when its caller is told that VNU reconnect is unavailable.
use hyeboard.Prelude.{
  sym, ap, ◌∙◌, is_sent, ◌>>◌, ◌==◌, ==_iff, ℕ, ◌≡◌, ◌↔◌, refl, inl, inr, true, Option, List, [],
  ◌∷◌, String, arith, all, Outcome, ok, is_hex, Bool-cases, Rpc, answered, never_sent, reply_lost,
}
use hyeboard.Refresh.State.{LinkedPair, VnuRefreshControlState}
use hyeboard.Refresh.Valid.{Fault, is_linked_pair, assert_linked_pair}
use hyeboard.Refresh.Transitions.{
  Reply, Transition, apply_activate_pair, apply_begin_refresh, apply_complete_refresh,
  apply_abort_refresh, apply_revoke_linked_pair_by_access, apply_revoke_principal_by_linked_grant,
  apply_check_access, complete_refresh, check_access,
}
use hyeboard.Refresh.Store.{
  Storage, Answer, Call, activate, begin, check, revoke_access, revoke_grant, revoke_pair, complete,
  abort, alarm_fires, commit, mutate, transition, perform, check_access_authoritatively,
}
use hyeboard.Refresh.Calls.{IsRotation}
use hyeboard.Refresh.Preserve.{IsReadable}
use hyeboard.Refresh.Coordinator.{returned, replied, Namespace, asserted, reaches, coordinate}

-- The pairs that a caller hands over.
abbrev pub pairs_of : Call → List LinkedPair
pairs_of (activate p) = p ∷ []
pairs_of (begin p) = p ∷ []
pairs_of (check p) = p ∷ []
pairs_of (revoke_access p) = p ∷ []
pairs_of (revoke_grant p) = p ∷ []
pairs_of (revoke_pair p) = p ∷ []
pairs_of (complete old next) = old ∷ next ∷ []
pairs_of (abort p terminal) = p ∷ []
pairs_of alarm_fires = []

-- The call is a method of the coordinator, and the pairs of a completed refresh are a rotation.
abbrev pub IsAsked : Option VnuRefreshControlState → Call → Type 0
IsAsked stored (complete old next) = IsRotation stored old next
IsAsked stored alarm_fires = ⊥
IsAsked stored _ = Unit

mutate_answers :
    (f : Option VnuRefreshControlState → ℕ → Outcome Fault Transition) (storage : Storage) (now : ℕ)
    (t : Transition)
    → IsReadable storage.state
    → f storage.state now ≡ ok t
    → (a : Answer) × (mutate f storage now ≡ ok a)
unfolding mutate
mutate_answers f storage now t r h =
    (record { reply = t.result; storage = commit storage t }, rw (r, h) refl)

-- A transition that starts with the assertion of a pair goes on where the pair is well formed.
after_assertion :
    (p : LinkedPair) (m : Outcome Fault Transition)
    → is_linked_pair p ≡ true
    → (assert_linked_pair p >> m) ≡ m
unfolding assert_linked_pair
after_assertion p m h = rw h refl

-- So does that of a completed refresh, where the pairs are a rotation.
complete_answers :
    (stored : Option VnuRefreshControlState) (old next : LinkedPair) (now : ℕ)
    → IsRotation stored old next
    → is_linked_pair old ≡ true
    → is_linked_pair next ≡ true
    → apply_complete_refresh stored old next now ≡ ok (complete_refresh stored old next now)
unfolding apply_complete_refresh assert_linked_pair
complete_answers stored old next now r o n =
    let same : (next.grant_expires_at == old.grant_expires_at) ≡ true = (==_iff _ _).1 r.same_end in
    rw (o, n, same, r.other_access, r.other_grant, r.no_collision) refl

check_answers :
    (p : LinkedPair) (storage : Storage) (now : ℕ)
    → IsReadable storage.state
    → is_linked_pair p ≡ true
    → (a : Answer) × (perform (check p) storage now ≡ ok a)
unfolding perform check_access_authoritatively apply_check_access assert_linked_pair mutate
check_answers p storage now r h = elim (Bool-cases (check_access storage.state p now).changed) [
  | inl c ↦ (
    record {
      reply = (check_access storage.state p now).result;
      storage = commit storage (check_access storage.state p now);
    },
    rw (r, h, c) refl,
  )
  | inr c ↦ (
    record { reply = (check_access storage.state p now).result; storage = storage },
    rw (r, h, c) refl,
  )
]

perform_answers :
    (call : Call) (storage : Storage) (now : ℕ)
    → IsReadable storage.state
    → IsAsked storage.state call
    → all is_linked_pair (pairs_of call) ≡ true
    → (a : Answer) × (perform call storage now ≡ ok a)
unfolding perform transition apply_activate_pair apply_begin_refresh apply_abort_refresh
    apply_revoke_linked_pair_by_access apply_revoke_principal_by_linked_grant
perform_answers (activate p) storage now r i h =
    mutate_answers _ storage now _ r (after_assertion p _ (ground arith))
perform_answers (begin p) storage now r i h =
    mutate_answers _ storage now _ r (after_assertion p _ (ground arith))
perform_answers (check p) storage now r i h = check_answers p storage now r (ground arith)
perform_answers (revoke_access p) storage now r i h =
    mutate_answers _ storage now _ r (after_assertion p _ (ground arith))
perform_answers (revoke_grant p) storage now r i h =
    mutate_answers _ storage now _ r (after_assertion p _ (ground arith))
perform_answers (revoke_pair p) storage now r i h =
    mutate_answers _ storage now _ r (after_assertion p _ (ground arith))
perform_answers (complete old next) storage now r i h =
    mutate_answers _ storage now _ r
      (complete_answers storage.state old next now i (ground arith) (ground arith))
perform_answers (abort p terminal) storage now r i h =
    mutate_answers _ storage now _ r (after_assertion p _ (ground arith))
perform_answers alarm_fires storage now r i h = elim i [ ]

asserted-pairs_of :
    (stored : Option VnuRefreshControlState) (call : Call)
    → IsAsked stored call
    → asserted call ≡ all is_linked_pair (pairs_of call)
asserted-pairs_of stored (activate p) i = ground arith
asserted-pairs_of stored (begin p) i = ground arith
asserted-pairs_of stored (check p) i = ground arith
asserted-pairs_of stored (revoke_access p) i = ground arith
asserted-pairs_of stored (revoke_grant p) i = ground arith
asserted-pairs_of stored (revoke_pair p) i = ground arith
asserted-pairs_of stored (complete old next) i = ground arith
asserted-pairs_of stored (abort p terminal) i = ground arith
asserted-pairs_of stored alarm_fires i = elim i [ ]

reaches_iff :
    (rpc : Rpc) (key : String) (call : Call)
    → (reaches rpc key call ≡ true)
      ↔ ((is_hex 64 key ≡ true) × (asserted call ≡ true) × (is_sent rpc ≡ true))
reaches_iff rpc key call = ground arith

-- A call that reaches the object is answered with what the object replies, unless the reply is lost.
coordinate_reached :
    (rpc : Rpc) (ns : Namespace) (key : String) (call : Call) (now : ℕ) (a : Answer)
    → reaches rpc key call ≡ true
    → perform call (ns key) now ≡ ok a
    → (coordinate rpc ns key call now).0 ≡ replied rpc call (ok a)
unfolding coordinate
coordinate_reached rpc ns key call now a h q = rw (h, q) refl

replied_ok :
    (rpc : Rpc) (call : Call) (o : Outcome Fault Answer) (reply : Reply)
    → replied rpc call o ≡ ok reply
    → rpc ≡ answered
replied_ok answered call o reply h = refl
replied_ok never_sent call o reply h = cc
replied_ok reply_lost call o reply h = cc

-- On a readable storage, the coordinator answers a method exactly when the principal is 64 hexadecimal
-- digits, every pair handed over is well formed, and the reply comes back; else it throws that VNU
-- reconnect is unavailable. (The pairs of a completed refresh are a rotation.)
pub coordinate_answers_iff :
    (rpc : Rpc) (ns : Namespace) (key : String) (call : Call) (now : ℕ)
    → IsReadable (ns key).state
    → IsAsked (ns key).state call
    → ((r : Reply) × ((coordinate rpc ns key call now).0 ≡ ok r))
      ↔ ((is_hex 64 key ≡ true) × (all is_linked_pair (pairs_of call) ≡ true) × (rpc ≡ answered))
unfolding coordinate
coordinate_answers_iff rpc ns key call now r i = (
  λ (reply, q). elim (Bool-cases (reaches rpc key call)) [
    | inr lost ↦ let wrong : ⊥ = ground arith in elim wrong [ ]
    | inl sent ↦
        let parts = (reaches_iff rpc key call).0 sent in
        let pairs = sym (asserted-pairs_of (ns key).state call i) ∙ parts.1 in
        let (a, done) = perform_answers call (ns key) now r i pairs in
        let back = sym (coordinate_reached rpc ns key call now a sent done) ∙ q in
        (parts.0, pairs, replied_ok rpc call (ok a) reply back)
  ],
  λ (hex, pairs, e).
      let asked = asserted-pairs_of (ns key).state call i ∙ pairs in
      let (a, done) = perform_answers call (ns key) now r i pairs in
      let sent = (reaches_iff rpc key call).1 (hex, asked, ap is_sent e) in
      (
        returned call a.reply,
        coordinate_reached rpc ns key call now a sent done ∙ ap (λ c. replied c call (ok a)) e,
      ),
)
