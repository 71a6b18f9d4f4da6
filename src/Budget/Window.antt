-- ===== src/Budget/Window.antt =====
-- apps/worker/src/vnu/vnu-probe-budget-durable-object.ts: `consumeBudgetWindow`, and what it allows
-- over a history of charges.
use hyeboard.Prelude.{
  ℕ, ◌+◌, ◌*◌, ◌≤◌, ◌<◌, ◌≡◌, refl, Bool, true, false, ◌&&◌, Option, none, some, List, [], ◌∷◌,
  arith, ltb, leb, if◌then◌else◌, retry_after_seconds, is_positive_safe, max_safe_integer,
  Bool-cases, inl, inr,
}

pub record BudgetWindow : Type 0 where
  pub count : ℕ
  pub reset_at : ℕ

pub data BudgetResult : Type 0 where
  allowed : BudgetResult
  refused : ℕ → BudgetResult

pub record BudgetTransition : Type 0 where
  pub window : BudgetWindow
  pub result : BudgetResult

-- `!stored || now >= stored.resetAt ? { count: 0, … } : stored`
unfoldable pub current_window : Option BudgetWindow → ℕ → ℕ → BudgetWindow
current_window none now window_seconds = record {
  count = 0;
  reset_at = now + window_seconds * 1000;
}
current_window (some w) now window_seconds =
    if leb w.reset_at now then record { count = 0; reset_at = now + window_seconds * 1000 } else w

unfoldable pub charge_window : BudgetWindow → ℕ → ℕ → ℕ → BudgetTransition
charge_window w amount now limit =
    if ltb limit (w.count + amount)
    then record { window = w; result = refused (retry_after_seconds w.reset_at now) }
    else record {
      window = record { count = w.count + amount; reset_at = w.reset_at };
      result = allowed;
    }

unfoldable pub consume_budget_window : Option BudgetWindow → ℕ → ℕ → ℕ → ℕ → BudgetTransition
unfolding current_window charge_window
consume_budget_window stored amount now limit window_seconds =
    charge_window (current_window stored now window_seconds) amount now limit

-- `parseStoredWindow`, of a count and an instant that are natural numbers.
unfoldable pub is_stored_window : Option BudgetWindow → Bool
is_stored_window none = true
is_stored_window (some w) = leb w.count max_safe_integer && is_positive_safe w.reset_at

abbrev pub is_allowed : BudgetResult → Bool
is_allowed allowed = true
is_allowed (refused n) = false

-- The window that is stored after a charge: a refused one stores nothing.
unfoldable pub charged : Option BudgetWindow → BudgetTransition → Option BudgetWindow
charged stored t = if is_allowed t.result then some t.window else stored

-- The units that a history of charges, each an instant and an amount, is allowed.
unfoldable pub spent : Option BudgetWindow → List (ℕ × ℕ) → ℕ → ℕ → ℕ
spent stored [] limit window_seconds = 0
spent stored ((now, amount) ∷ rest) limit window_seconds =
    let t = consume_budget_window stored amount now limit window_seconds in
    let later = spent (charged stored t) rest limit window_seconds in
    if is_allowed t.result then amount + later else later

-- All instants of a history are in `from ≤ now < until`.
abbrev pub Within : ℕ → ℕ → List (ℕ × ℕ) → Type 0
Within from until [] = Unit
Within from until ((now, amount) ∷ rest) = (from ≤ now) × (now < until) × Within from until rest

module _ (limit window_seconds : ℕ) where
  -- A charge before the window's end either is refused or counts in this window.
  consume_open :
      (w : BudgetWindow) (amount now : ℕ)
      → now < w.reset_at
      → consume_budget_window (some w) amount now limit window_seconds
        ≡ charge_window w amount now limit
  unfolding consume_budget_window current_window
  consume_open w amount now h = ground arith

  spent_open :
      (w : BudgetWindow) (history : List (ℕ × ℕ)) (from : ℕ)
      → w.count ≤ limit
      → Within from w.reset_at history
      → w.count + spent (some w) history limit window_seconds ≤ limit
  unfolding spent charged charge_window
  spent_open w [] from c h = omega arith
  spent_open w ((now, amount) ∷ rest) from c (_, h, r) =
      rw (consume_open w amount now h, spent, charged, charge_window)
        (elim (Bool-cases (ltb limit (w.count + amount))) [
          | inl e ↦ rw e (spent_open w rest from c r)
          | inr e ↦ rw e (
              let w' : BudgetWindow = record { count = w.count + amount; reset_at = w.reset_at } in
              omega (arith, spent_open w' rest from (ground arith) r))
        ])

  consume_opens :
      (stored : Option BudgetWindow) (amount now : ℕ)
      → ((w : BudgetWindow) → stored ≡ some w → w.reset_at ≤ now)
      → amount ≤ limit
      → consume_budget_window stored amount now limit window_seconds ≡ record {
        window = record { count = amount; reset_at = now + window_seconds * 1000 };
        result = allowed;
      }
  unfolding consume_budget_window current_window charge_window
  consume_opens none amount now ended small = ground arith
  consume_opens (some w) amount now ended small = ground (arith, ended w refl)

  -- From the instant at which a window opens until it ends, all charges together are allowed at most
  -- `limit` units. A window opens at a charge where none is stored, or where the stored one has
  -- ended.
  pub spent-le-limit :
      (stored : Option BudgetWindow) (now amount : ℕ) (history : List (ℕ × ℕ))
      → ((w : BudgetWindow) → stored ≡ some w → w.reset_at ≤ now)
      → amount ≤ limit
      → Within now (now + window_seconds * 1000) history
      → spent stored ((now, amount) ∷ history) limit window_seconds ≤ limit
  unfolding spent charged
  spent-le-limit stored now amount history ended small h =
      let opened : BudgetWindow = record {
        count = amount;
        reset_at = now + window_seconds * 1000;
      } in
      rw (consume_opens stored amount now ended small, spent, charged)
        (spent_open opened history now small h)
