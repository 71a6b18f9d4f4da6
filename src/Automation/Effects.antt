-- ===== src/Automation/Effects.antt =====
-- apps/automation-worker/src/transport/events.ts: what stands in the log of a run, one effect after
-- the other.
use hyeboard.Prelude.{
  ℕ, ◌+◌, ◌≤◌, ◌≡◌, refl, subst, Bool, true, false, ◌&&◌, ◌||◌, List, [], ◌∷◌, ◌++◌, arith,
  if◌then◌else◌,
}
use hyeboard.Automation.Events.{Kind, is_terminal, Effect, published, acked, disconnected, released}

-- The published numbers go up by one from `n` on.
abbrev pub CountsFrom : ℕ → List Effect → Type 0
CountsFrom n [] = Unit
CountsFrom n (published m k ∷ es) = (m ≡ n) × CountsFrom (n + 1) es
CountsFrom n (_ ∷ es) = CountsFrom n es

abbrev pub published_count : List Effect → ℕ
published_count [] = 0
published_count (published m k ∷ es) = published_count es + 1
published_count (_ ∷ es) = published_count es

abbrev pub terminals : List Effect → ℕ
terminals [] = 0
terminals (published m k ∷ es) = (if is_terminal k then 1 else 0) + terminals es
terminals (_ ∷ es) = terminals es

-- The publications that are terminal or come after a terminal one.
abbrev pub closings : Bool → List Effect → ℕ
closings seen [] = 0
closings seen (published m k ∷ es) =
    (if seen || is_terminal k then 1 else 0) + closings (seen || is_terminal k) es
closings seen (_ ∷ es) = closings seen es

-- Each acknowledgement comes after a terminal event, or `seen` says there was one.
abbrev pub acks_settled : Bool → List Effect → Bool
acks_settled seen [] = true
acks_settled seen (published m k ∷ es) = acks_settled (seen || is_terminal k) es
acks_settled seen (acked ∷ es) = seen && acks_settled seen es
acks_settled seen (_ ∷ es) = acks_settled seen es

abbrev pub ends_settled : Bool → List Effect → Bool
ends_settled seen [] = seen
ends_settled seen (published m k ∷ es) = ends_settled (seen || is_terminal k) es
ends_settled seen (_ ∷ es) = ends_settled seen es

abbrev pub number : Effect → ℕ → ℕ
number (published m k) n = m
number _ n = n

abbrev pub is_publication : Effect → Bool
is_publication (published m k) = true
is_publication _ = false

-- One effect more.
pub CountsFrom-append :
    (es : List Effect) (e : Effect) (n : ℕ)
    → CountsFrom n es
    → number e (published_count es + n) ≡ published_count es + n
    → CountsFrom n (es ++ (e ∷ []))
CountsFrom-append [] (published m k) n c q = (omega arith, tt)
CountsFrom-append [] acked n c q = tt
CountsFrom-append [] disconnected n c q = tt
CountsFrom-append [] released n c q = tt
CountsFrom-append (published m k ∷ es) e n (h, c) q =
    let shift : published_count es + 1 + n ≡ published_count es + (n + 1) = omega arith in
    (h, CountsFrom-append es e (n + 1) c (subst (λ x. number e x ≡ x) shift q))
CountsFrom-append (acked ∷ es) e n c q = CountsFrom-append es e n c q
CountsFrom-append (disconnected ∷ es) e n c q = CountsFrom-append es e n c q
CountsFrom-append (released ∷ es) e n c q = CountsFrom-append es e n c q

pub published_count-append :
    (es : List Effect) (e : Effect)
    → published_count (es ++ (e ∷ [])) ≡ published_count es + (if is_publication e then 1 else 0)
published_count-append [] (published m k) = omega arith
published_count-append [] acked = omega arith
published_count-append [] disconnected = omega arith
published_count-append [] released = omega arith
published_count-append (published m k ∷ es) e = omega (arith, published_count-append es e)
published_count-append (acked ∷ es) e = published_count-append es e
published_count-append (disconnected ∷ es) e = published_count-append es e
published_count-append (released ∷ es) e = published_count-append es e

pub terminals-le-closings : (es : List Effect) (seen : Bool) → terminals es ≤ closings seen es
terminals-le-closings [] seen = omega arith
terminals-le-closings (published m k ∷ es) seen =
    ground (arith, terminals-le-closings es (seen || is_terminal k))
terminals-le-closings (acked ∷ es) seen = terminals-le-closings es seen
terminals-le-closings (disconnected ∷ es) seen = terminals-le-closings es seen
terminals-le-closings (released ∷ es) seen = terminals-le-closings es seen

pub closings-append :
    (es : List Effect) (e : Effect) (seen : Bool)
    → is_publication e ≡ false
    → closings seen (es ++ (e ∷ [])) ≡ closings seen es
closings-append [] (published m k) seen h = ground arith
closings-append [] acked seen h = refl
closings-append [] disconnected seen h = refl
closings-append [] released seen h = refl
closings-append (published m k ∷ es) e seen h =
    omega (arith, closings-append es e (seen || is_terminal k) h)
closings-append (acked ∷ es) e seen h = closings-append es e seen h
closings-append (disconnected ∷ es) e seen h = closings-append es e seen h
closings-append (released ∷ es) e seen h = closings-append es e seen h

pub closings-publish :
    (es : List Effect) (m : ℕ) (k : Kind)
    → closings false es ≡ 0
    → closings false (es ++ (published m k ∷ [])) ≡ (if is_terminal k then 1 else 0)
closings-publish [] m k h = ground arith
closings-publish (published i j ∷ es) m k h = ground (arith, closings-publish es m k)
closings-publish (acked ∷ es) m k h = closings-publish es m k h
closings-publish (disconnected ∷ es) m k h = closings-publish es m k h
closings-publish (released ∷ es) m k h = closings-publish es m k h

pub acks_settled-append :
    (es : List Effect) (e : Effect) (seen : Bool)
    → acks_settled seen es ≡ true
    → acks_settled (ends_settled seen es) (e ∷ []) ≡ true
    → acks_settled seen (es ++ (e ∷ [])) ≡ true
acks_settled-append [] e seen h q = q
acks_settled-append (published m k ∷ es) e seen h q =
    acks_settled-append es e (seen || is_terminal k) h q
acks_settled-append (acked ∷ es) e seen h q = ground (arith, acks_settled-append es e seen)
acks_settled-append (disconnected ∷ es) e seen h q = acks_settled-append es e seen h q
acks_settled-append (released ∷ es) e seen h q = acks_settled-append es e seen h q

pub ends_settled-append :
    (es : List Effect) (m : ℕ) (k : Kind) (seen : Bool)
    → is_terminal k ≡ true
    → ends_settled seen (es ++ (published m k ∷ [])) ≡ true
ends_settled-append [] m k seen h = ground arith
ends_settled-append (published i j ∷ es) m k seen h =
    ends_settled-append es m k (seen || is_terminal j) h
ends_settled-append (acked ∷ es) m k seen h = ends_settled-append es m k seen h
ends_settled-append (disconnected ∷ es) m k seen h = ends_settled-append es m k seen h
ends_settled-append (released ∷ es) m k seen h = ends_settled-append es m k seen h
