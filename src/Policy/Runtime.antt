-- ===== src/Policy/Runtime.antt =====
-- apps/worker/src/policy/feature-policy-store.ts: `FeaturePolicyRuntime`, its cached snapshot against the
-- revisions it was notified of. What the store answers, validated, is an argument of each step; a
-- step is what runs after the store's answer without another wait.
use hyeboard.Prelude.{
  ℕ, max, ◌≤◌, ◌≡◌, refl, Bool, not, Option, none, some, List, [], ◌∷◌, arith, ltb, leb,
  if◌then◌else◌, Outcome, ok, throw, max_safe_integer, ◌⊎◌, inl, inr, Option-cases,
}
use hyeboard.Policy.Content.{Fault}
use hyeboard.Policy.Store.{FeaturePolicySnapshot, FeaturePolicyAuditEntry}

pub record FeaturePolicyRuntime : Type 0 where
  pub cached : Option FeaturePolicySnapshot
  pub highest_notified_revision : ℕ

unfoldable pub new_runtime : FeaturePolicyRuntime
new_runtime = record { cached = none; highest_notified_revision = 0 }

abbrev pub is_revision : ℕ → Bool
is_revision r = leb r max_safe_integer

abbrev drop_older : Option FeaturePolicySnapshot → ℕ → Option FeaturePolicySnapshot
drop_older none r = none
drop_older (some c) r = if ltb c.revision r then none else some c

unfoldable pub invalidate : FeaturePolicyRuntime → ℕ → FeaturePolicyRuntime
invalidate s r = if not (is_revision r) then s else record {
  cached = drop_older s.cached r;
  highest_notified_revision = max s.highest_notified_revision r;
}

-- `if (revision >= this.highestNotifiedRevision) this.cached = snapshot`
unfoldable pub remember : FeaturePolicyRuntime → ℕ → FeaturePolicySnapshot → FeaturePolicyRuntime
remember s r snapshot =
    if leb s.highest_notified_revision r then record s { cached = some snapshot } else s

-- `readCurrent`
unfoldable pub read_current :
    FeaturePolicyRuntime → Outcome Fault FeaturePolicySnapshot → FeaturePolicyRuntime
unfolding remember
read_current s (ok snapshot) = remember s snapshot.revision snapshot
read_current s (throw e) = s

-- What `current` returns, `none` for the error that the policy is unavailable.
unfoldable pub current :
    FeaturePolicyRuntime → Outcome Fault FeaturePolicySnapshot → Option FeaturePolicySnapshot
current s (ok snapshot) = some snapshot
current s (throw e) = s.cached

-- `publish`, once the store has answered.
unfoldable pub publish_answered :
    FeaturePolicyRuntime → Outcome Fault FeaturePolicyAuditEntry → FeaturePolicyRuntime
unfolding remember
publish_answered s (ok e) = remember s e.revision e.snapshot
publish_answered s (throw f) = s

pub data Event : Type 0 where
  notified : ℕ → Event
  read : Outcome Fault FeaturePolicySnapshot → Event
  published : Outcome Fault FeaturePolicyAuditEntry → Event

unfoldable pub handle : FeaturePolicyRuntime → Event → FeaturePolicyRuntime
handle s (notified r) = invalidate s r
handle s (read answer) = read_current s answer
handle s (published answer) = publish_answered s answer

unfoldable pub handle_all : FeaturePolicyRuntime → List Event → FeaturePolicyRuntime
handle_all s [] = s
handle_all s (e ∷ es) = handle_all (handle s e) es

-- The entry that the store answers with has the snapshot of its own revision.
abbrev pub AreConsistent : List Event → Type 0
AreConsistent [] = Unit
AreConsistent (published (ok e) ∷ es) = (e.snapshot.revision ≡ e.revision) × AreConsistent es
AreConsistent (_ ∷ es) = AreConsistent es

-- The runtime was notified of the revision in one of the events.
abbrev pub Notified : ℕ → List Event → Type 0
Notified r [] = ⊥
Notified r (notified q ∷ es) = (r ≡ q) ⊎ Notified r es
Notified r (_ ∷ es) = Notified r es

-- A cached snapshot is at least as new as every notified revision.
abbrev IsFresh : FeaturePolicyRuntime → Type 0
IsFresh s =
    (c : FeaturePolicySnapshot) → s.cached ≡ some c → s.highest_notified_revision ≤ c.revision

new_runtime-IsFresh : IsFresh new_runtime
unfolding new_runtime
new_runtime-IsFresh c h = cc

invalidate-IsFresh : (s : FeaturePolicyRuntime) (r : ℕ) → IsFresh s → IsFresh (invalidate s r)
unfolding invalidate
invalidate-IsFresh s r h c q = elim (Option-cases s.cached) [
  | inl e ↦ ground (arith, h c)
  | inr (d, e) ↦ ground (arith, h d e)
]

remember-IsFresh :
    (s : FeaturePolicyRuntime) (r : ℕ) (snapshot : FeaturePolicySnapshot)
    → snapshot.revision ≡ r
    → IsFresh s
    → IsFresh (remember s r snapshot)
unfolding remember
remember-IsFresh s r snapshot same h c q = ground (arith, h c)

handle_all-IsFresh :
    (es : List Event) (s : FeaturePolicyRuntime)
    → AreConsistent es
    → IsFresh s
    → IsFresh (handle_all s es)
unfolding handle_all handle read_current publish_answered
handle_all-IsFresh [] s k h = h
handle_all-IsFresh (notified r ∷ es) s k h =
    handle_all-IsFresh es (invalidate s r) k (invalidate-IsFresh s r h)
handle_all-IsFresh (read (ok c) ∷ es) s k h =
    handle_all-IsFresh es (remember s c.revision c) k (remember-IsFresh s c.revision c refl h)
handle_all-IsFresh (read (throw f) ∷ es) s k h = handle_all-IsFresh es s k h
handle_all-IsFresh (published (ok e) ∷ es) s (same, k) h =
    handle_all-IsFresh es (remember s e.revision e.snapshot) k
      (remember-IsFresh s e.revision e.snapshot same h)
handle_all-IsFresh (published (throw f) ∷ es) s k h = handle_all-IsFresh es s k h

remember-highest :
    (s : FeaturePolicyRuntime) (r : ℕ) (snapshot : FeaturePolicySnapshot)
    → (remember s r snapshot).highest_notified_revision ≡ s.highest_notified_revision
unfolding remember
remember-highest s r snapshot = ground arith

-- The highest notified revision never falls.
handle_all-highest :
    (es : List Event) (s : FeaturePolicyRuntime)
    → s.highest_notified_revision ≤ (handle_all s es).highest_notified_revision
unfolding handle_all handle read_current publish_answered invalidate
handle_all-highest [] s = omega arith
handle_all-highest (notified r ∷ es) s =
    let rest = handle_all-highest es (invalidate s r) in ground (arith, rest)
handle_all-highest (read (ok c) ∷ es) s =
    omega (arith, remember-highest s c.revision c, handle_all-highest es (remember s c.revision c))
handle_all-highest (read (throw f) ∷ es) s = handle_all-highest es s
handle_all-highest (published (ok e) ∷ es) s = omega (
  arith,
  remember-highest s e.revision e.snapshot,
  handle_all-highest es (remember s e.revision e.snapshot),
)
handle_all-highest (published (throw f) ∷ es) s = handle_all-highest es s

Notified-le :
    (es : List Event) (s : FeaturePolicyRuntime) (r : ℕ)
    → r ≤ max_safe_integer
    → Notified r es
    → r ≤ (handle_all s es).highest_notified_revision
unfolding handle_all handle invalidate
Notified-le [] s r small n = elim n [ ]
Notified-le (notified q ∷ es) s r small (inl same) =
    let rest = handle_all-highest es (invalidate s q) in ground (arith, rest)
Notified-le (notified q ∷ es) s r small (inr n) = Notified-le es (invalidate s q) r small n
Notified-le (read a ∷ es) s r small n = Notified-le es (read_current s a) r small n
Notified-le (published a ∷ es) s r small n = Notified-le es (publish_answered s a) r small n

-- When the store fails, `current` falls back to a cached snapshot only if that is at least as new as
-- every revision that the runtime was notified of, after any notifications, reads and
-- publications, provided the store answers each publication with the snapshot of its own revision.
pub current_fallback_fresh :
    (es : List Event) (r : ℕ) (failure : Fault) (c : FeaturePolicySnapshot)
    → AreConsistent es
    → Notified r es
    → r ≤ max_safe_integer
    → current (handle_all new_runtime es) (throw failure) ≡ some c
    → r ≤ c.revision
unfolding current
current_fallback_fresh es r failure c k n small q =
    let fresh = handle_all-IsFresh es new_runtime k new_runtime-IsFresh c q in
    omega (arith, fresh, Notified-le es new_runtime r small n)
