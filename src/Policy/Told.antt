-- ===== src/Policy/Told.antt =====
-- apps/worker/src/policy/feature-policy-store.ts: what the open streams of `InProcessFeaturePolicyEvents`
-- have been told.
use hyeboard.Prelude.{
  ℕ, suc, ◌+◌, ◌-◌, max, ◌≤◌, ◌<◌, ◌≡◌, refl, ltb, leb, ◌==◌, Bool, true, not, ◌&&◌, Option, List,
  [], ◌∷◌, arith, length, All, max_safe_integer, if_cases, Bool-cases, inl, inr,
}
use hyeboard.Policy.Runtime.{is_revision}
use hyeboard.Policy.Events.{
  max_subscribers, RevisionStream, PolicyEvents, new_events, notify, notify_all, publish_revision,
  started, refuses, seen_of, opened_or, open_stream, end_stream, EventsCall, publishes, opens,
  leaves, closes, call_events, run_events,
}

-- Newest first, below a bound.
abbrev pub AreRising : List ℕ → ℕ → Type 0
AreRising [] bound = Unit
AreRising (r ∷ rs) bound = (r < bound) × AreRising rs r

-- The stream has seen the highest revision or a later one, and was sent revisions in rising order.
abbrev pub IsTold : ℕ → RevisionStream → Type 0
IsTold highest s = (highest ≤ s.seen_next) × AreRising s.sent s.seen_next

abbrev pub AreTold : PolicyEvents → Type 0
AreTold e =
    All (IsTold e.highest_next) e.streams
    × (e.active_streams ≡ length e.streams)
    × (length e.streams ≤ max_subscribers)
    × (e.highest_next ≤ suc max_safe_integer)

AreRising-weaken : (rs : List ℕ) (b c : ℕ) → AreRising rs b → b ≤ c → AreRising rs c
AreRising-weaken [] b c a l = tt
AreRising-weaken (r ∷ rs) b c (h, a) l = (omega arith, a)

notify-IsTold :
    (highest r : ℕ) (s : RevisionStream)
    → IsTold highest s
    → IsTold (max highest (suc r)) (notify r s)
unfolding notify
notify-IsTold highest r s (h, a) =
    if_cases (IsTold (max highest (suc r))) (ltb r s.seen_next) (λ q. (ground arith, a))
      (λ q. (ground arith, (omega arith, AreRising-weaken s.sent s.seen_next r a (ground arith))))

notify_all-AreTold :
    (broken : ℕ → Bool) (r highest k active : ℕ) (ss : List RevisionStream)
    → active ≡ length ss + k
    → All (IsTold highest) ss
    → let n = notify_all broken r ss active in
      All (IsTold (max highest (suc r))) n.0 × (n.1 ≡ length n.0 + k) × (length n.0 ≤ length ss)
unfolding notify_all
notify_all-AreTold broken r highest k active [] e a = (tt, e, omega arith)
notify_all-AreTold broken r highest k active (s ∷ ss) e (h, a) =
    elim (Bool-cases (refuses broken r s)) [
      | inl q ↦
          let (told, count, fewer) =
            notify_all-AreTold broken r highest k (active - 1) ss (omega arith) a in
          rw (q, notify_all) (told, count, omega arith)
      | inr q ↦
          let (told, count, fewer) =
            notify_all-AreTold broken r highest (suc k) active ss (omega arith) a in
          rw (q, notify_all) ((notify-IsTold highest r s h, told), omega arith, omega arith)
    ]

end_stream-AreTold :
    (id highest k active : ℕ) (ss : List RevisionStream)
    → active ≡ length ss + k
    → All (IsTold highest) ss
    → let n = end_stream id ss active in
      All (IsTold highest) n.0 × (n.1 ≡ length n.0 + k) × (length n.0 ≤ length ss)
unfolding end_stream
end_stream-AreTold id highest k active [] e a = (tt, e, omega arith)
end_stream-AreTold id highest k active (s ∷ ss) e (h, a) = elim (Bool-cases (s.stream_id == id)) [
  | inl q ↦ rw (q) (a, omega arith, omega arith)
  | inr q ↦
      let (told, count, fewer) = end_stream-AreTold id highest (suc k) active ss (omega arith) a in
      rw (q) ((h, told), omega arith, omega arith)
]

started-IsTold :
    (id highest current : ℕ) (last : Option ℕ)
    → highest ≤ suc max_safe_integer
    → current ≤ suc max_safe_integer
    → IsTold highest (started id last (max current highest))
started-IsTold id highest current last h c =
    if_cases (IsTold highest)
      (ltb (seen_of last) (max current highest) && is_revision (max current highest - 1))
      (λ q. (omega arith, (ground arith, tt))) (λ q. (ground arith, tt))

-- The revision that a stream is opened with is one, or none.
abbrev pub is_known : EventsCall → Bool
is_known (opens id last current aborted) = leb current (suc max_safe_integer)
is_known _ = true

abbrev pub AreKnown : List EventsCall → Type 0
AreKnown [] = Unit
AreKnown (c ∷ cs) = (is_known c ≡ true) × AreKnown cs

call_events-AreTold :
    (e : PolicyEvents) (c : EventsCall) → is_known c ≡ true → AreTold e → AreTold (call_events e c)
unfolding call_events publish_revision open_stream
call_events-AreTold e (publishes broken r) k (all, count, few, safe) =
    let (told, left, fewer) =
      notify_all-AreTold broken r e.highest_next 0 e.active_streams e.streams (omega arith) all in
    if_cases AreTold (not (is_revision r)) (λ _. (all, count, few, safe))
      (λ q. (told, omega arith, omega arith, ground arith))
call_events-AreTold e (opens id last current aborted) k (all, count, few, safe) =
    let same : AreTold e = (all, count, few, safe) in
    if_cases (λ (o : Option PolicyEvents). AreTold (opened_or e o))
      (not (ltb e.active_streams max_subscribers)) (λ _. same)
      λ room.
        if_cases (λ (o : Option PolicyEvents). AreTold (opened_or e o)) aborted (λ _. same)
          (λ _. (
            (started-IsTold id e.highest_next current last safe (ground arith), all),
            omega arith,
            ground arith,
            safe,
          ))
call_events-AreTold e (leaves id) k (all, count, few, safe) =
    let (told, left, fewer) =
      end_stream-AreTold id e.highest_next 0 e.active_streams e.streams (omega arith) all in
    (told, omega arith, omega arith, safe)
call_events-AreTold e closes k (all, count, few, safe) = (tt, omega arith, omega arith, safe)

run_events-AreTold :
    (cs : List EventsCall) (e : PolicyEvents) → AreKnown cs → AreTold e → AreTold (run_events e cs)
unfolding run_events
run_events-AreTold [] e k t = t
run_events-AreTold (c ∷ cs) e (k, ks) t =
    run_events-AreTold cs (call_events e c) ks (call_events-AreTold e c k t)

-- After any calls, opened with known revisions, every open stream has seen the highest revision published,
-- or one that its reader or the caller named and that is later, and was sent revisions in rising
-- order, each one once; the count is that of the open streams, of which there are at most 256.
pub run_events_told : (cs : List EventsCall) → AreKnown cs → AreTold (run_events new_events cs)
run_events_told cs k = run_events-AreTold cs new_events k (tt, refl, omega arith, omega arith)
