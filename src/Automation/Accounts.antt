-- ===== src/Automation/Accounts.antt =====
-- apps/automation-worker/src/transport/broker.ts: the messages of a group that are pending.
use hyeboard.Prelude.{
  ℕ, zero, suc, ◌≤◌, ◌≡◌, refl, ap, subst, Bool, true, false, not, ◌&&◌, ◌||◌, List, [], ◌∷◌, ◌++◌,
  String, arith, length, take, All, append_assoc, length-append, ◌==◌,
}
use hyeboard.Automation.Broker.{
  Entry, Pending, GroupState, set_pending, delete_pending, first_delivery, deliver, read_entries,
  reclaim,
}

unfoldable pub has_pending : ℕ → List Pending → Bool
has_pending id [] = false
has_pending id (p ∷ ps) = (p.message.id == id) || has_pending id ps

pub has_pending-set_pending :
    (id : ℕ) (m : Pending) (ps : List Pending)
    → has_pending id (set_pending m ps) ≡ ((m.message.id == id) || has_pending id ps)
unfolding has_pending set_pending
has_pending-set_pending id m [] = ground arith
has_pending-set_pending id m (p ∷ ps) = ground (arith, has_pending-set_pending id m ps)

pub has_pending-delete_pending :
    (id j : ℕ) (ps : List Pending)
    → has_pending id (delete_pending j ps) ≡ (has_pending id ps && not (j == id))
unfolding has_pending delete_pending
has_pending-delete_pending id j [] = refl
has_pending-delete_pending id j (p ∷ ps) = ground (arith, has_pending-delete_pending id j ps)

pub has_pending-reclaim :
    (id : ℕ) (consumer : String) (now min_idle count : ℕ) (ps : List Pending)
    → has_pending id (reclaim consumer now min_idle count ps).1 ≡ has_pending id ps
unfolding has_pending reclaim
has_pending-reclaim id consumer now min_idle count [] = refl
has_pending-reclaim id consumer now min_idle zero (p ∷ ps) = refl
has_pending-reclaim id consumer now min_idle (suc count) (p ∷ ps) = ground (
  arith,
  has_pending-reclaim id consumer now min_idle (suc count) ps,
  has_pending-reclaim id consumer now min_idle count ps,
)

-- The entry is pending, or one of the acknowledged ones.
abbrev pub is_in : List ℕ → ℕ → Bool
is_in [] id = false
is_in (j ∷ js) id = (j == id) || is_in js id

abbrev pub IsAccounted : List ℕ → List Pending → Entry → Type 0
IsAccounted acked ps e = (has_pending e.id ps || is_in acked e.id) ≡ true

-- What the group has been given is there, and each of it is accounted for.
abbrev pub AccountsFor : List ℕ → List Entry → GroupState → Type 0
AccountsFor acked entries g =
    (g.next_index ≤ length entries) × All (IsAccounted acked g.pending) (take g.next_index entries)

pub All-mono :
    (P Q : Entry → Type 0) (es : List Entry) → ((e : Entry) → P e → Q e) → All P es → All Q es
All-mono P Q [] f a = tt
All-mono P Q (e ∷ es) f (p, a) = (f e p, All-mono P Q es f a)

pub All-append :
    (P : Entry → Type 0) (es : List Entry) (e : Entry) → All P es → P e → All P (es ++ e ∷ [])
All-append P [] e a p = (p, tt)
All-append P (x ∷ es) e (q, a) p = (q, All-append P es e a p)

pub take-append : (n : ℕ) (es fs : List Entry) → n ≤ length es → take n (es ++ fs) ≡ take n es
take-append zero es fs h = refl
take-append (suc n) [] fs h = let off : ⊥ = omega arith in elim off [ ]
take-append (suc n) (e ∷ es) fs h = ap (λ l. e ∷ l) (take-append n es fs (omega arith))

take-length-append : (es fs : List Entry) → take (length es) (es ++ fs) ≡ es
take-length-append [] fs = refl
take-length-append (e ∷ es) fs = ap (λ l. e ∷ l) (take-length-append es fs)

-- Reading on from what has been given.
pub read_entries-AccountsFor :
    (acked : List ℕ) (consumer : String) (now : ℕ) (given rest : List Entry) (count : ℕ)
    (g : GroupState)
    → g.next_index ≡ length given
    → All (IsAccounted acked g.pending) given
    → AccountsFor acked (given ++ rest) (read_entries consumer now count rest g).1
unfolding read_entries
read_entries-AccountsFor acked consumer now given [] count g n a =
    (omega (arith, length-append {0} given []), rw (n, take-length-append given []) a)
read_entries-AccountsFor acked consumer now given (e ∷ es) zero g n a =
    (omega (arith, length-append {0} given (e ∷ es)), rw (n, take-length-append given (e ∷ es)) a)
read_entries-AccountsFor acked consumer now given (e ∷ es) (suc count) g n a =
    let m = first_delivery consumer now e in
    let g' = deliver consumer now e g in
    let kept =
      All-mono (IsAccounted acked g.pending) (IsAccounted acked g'.pending) given
        (λ x h. ground (arith, has_pending-set_pending x.id m g.pending)) a in
    let new : IsAccounted acked g'.pending e =
      ground (arith, has_pending-set_pending e.id m g.pending) in
    let more =
      read_entries-AccountsFor acked consumer now (given ++ e ∷ []) es count g'
        (omega (arith, length-append {0} given (e ∷ [])))
        (All-append (IsAccounted acked g'.pending) given e kept new) in
    subst (λ l. AccountsFor acked l (read_entries consumer now count es g').1)
      (append_assoc given (e ∷ []) es) more
