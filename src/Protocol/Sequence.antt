-- ===== src/Protocol/Sequence.antt =====
-- packages/automation-protocol/src/index.ts: which sequences of events a cursor accepts.
use hyeboard.Prelude.{
  ℕ, suc, ◌≡◌, ◌↔◌, subst, refl, ltb, ◌==◌, Bool, true, false, not, ◌&&◌, List, [], ◌∷◌, String,
  arith, str_eq, ok, inl, inr, Outcome-cases,
}
use hyeboard.Protocol.Cursor.{
  AutomationEvent, EventValue, unreadable, readable, EventCursor, is_terminal_type,
  has_challenge_id, assert_automation_event, parse_automation_event, validate_next_event,
  validate_event_sequence,
}

-- The numbers go up by one from `n` on.
abbrev pub are_numbered : ℕ → List EventValue → Bool
are_numbered n [] = true
are_numbered n (unreadable ∷ vs) = are_numbered (suc n) vs
are_numbered n (readable e ∷ vs) = e.sequence == n && are_numbered (suc n) vs

-- Nothing follows a terminal event, `ended` if there was one before.
abbrev pub is_ended_once : Bool → List EventValue → Bool
is_ended_once ended [] = true
is_ended_once ended (unreadable ∷ vs) = not ended && is_ended_once false vs
is_ended_once ended (readable e ∷ vs) = not ended && is_ended_once (is_terminal_type e.type) vs

module _ (is_opaque : String → Bool) where
  -- The event is well formed, has not expired, and is one of the cursor's job, account and fence.
  abbrev pub is_own : EventCursor → ℕ → AutomationEvent → Bool
  is_own c now e =
      is_opaque e.job_id
      && is_opaque e.account_id
      && has_challenge_id is_opaque e.type
      && ltb e.emitted_at e.expires_at
      && ltb now e.expires_at
      && str_eq e.job_id c.cursor_job
      && str_eq e.account_id c.cursor_account
      && e.fence == c.cursor_fence

  abbrev pub are_own : EventCursor → ℕ → List EventValue → Bool
  are_own c now [] = true
  are_own c now (unreadable ∷ vs) = false
  are_own c now (readable e ∷ vs) = is_own c now e && are_own c now vs

  abbrev pub is_continued : EventCursor → ℕ → List EventValue → Bool
  is_continued c now vs =
      are_own c now vs && are_numbered c.next_sequence vs && is_ended_once c.terminal vs

  validate_next_event_lem :
      (e : AutomationEvent) (c c' : EventCursor) (now : ℕ)
      → validate_next_event is_opaque (readable e) c now ≡ ok c'
      → (is_own c now e ≡ true)
        × (e.sequence ≡ c.next_sequence)
        × (c.terminal ≡ false)
        × (c' ≡ record c { next_sequence = suc e.sequence; terminal = is_terminal_type e.type })
  unfolding validate_next_event parse_automation_event assert_automation_event
  validate_next_event_lem e c c' now h = (ground arith, ground arith, ground arith, ground arith)

  pub validate_next_event-ok :
      (e : AutomationEvent) (c : EventCursor) (now : ℕ)
      → is_own c now e ≡ true
      → e.sequence ≡ c.next_sequence
      → c.terminal ≡ false
      → validate_next_event is_opaque (readable e) c now
        ≡ ok (record c { next_sequence = suc e.sequence; terminal = is_terminal_type e.type })
  unfolding validate_next_event parse_automation_event assert_automation_event
  validate_next_event-ok e c now own n t = ground arith

  validate_event_sequence_sound :
      (vs : List EventValue) (c c' : EventCursor) (now : ℕ)
      → validate_event_sequence is_opaque vs c now ≡ ok c'
      → is_continued c now vs ≡ true
  unfolding validate_event_sequence
  validate_event_sequence_sound [] c c' now h = refl
  validate_event_sequence_sound (unreadable ∷ vs) c c' now h =
      unfold validate_next_event parse_automation_event assert_automation_event in (ground arith)
  validate_event_sequence_sound (readable e ∷ vs) c c' now h =
      elim (Outcome-cases (validate_next_event is_opaque (readable e) c now)) [
        | inr (x, q) ↦ let off : ⊥ = ground arith in elim off [ ]
        | inl (d, q) ↦
            let (own, number, open_still, eq) = validate_next_event_lem e c d now q in
            let rest = validate_event_sequence_sound vs d c' now (ground arith) in
            continue e c d vs own number open_still eq rest
      ]
    where
      continue :
          (e : AutomationEvent) (c d : EventCursor) (vs : List EventValue)
          → is_own c now e ≡ true
          → e.sequence ≡ c.next_sequence
          → c.terminal ≡ false
          → d ≡ record c { next_sequence = suc e.sequence; terminal = is_terminal_type e.type }
          → is_continued d now vs ≡ true
          → is_continued c now (readable e ∷ vs) ≡ true
      continue e c d vs own number open_still eq rest =
          let same : EventCursor = record c {
            next_sequence = suc e.sequence;
            terminal = is_terminal_type e.type;
          } in
          let moved : is_continued same now vs ≡ true =
            subst (λ x. is_continued x now vs ≡ true) eq rest in
          ground arith

  validate_event_sequence_complete :
      (vs : List EventValue) (c : EventCursor) (now : ℕ)
      → is_continued c now vs ≡ true
      → (c' : EventCursor) × (validate_event_sequence is_opaque vs c now ≡ ok c')
  unfolding validate_event_sequence
  validate_event_sequence_complete [] c now h = (c, refl)
  validate_event_sequence_complete (unreadable ∷ vs) c now h =
      let off : ⊥ = ground arith in elim off [ ]
  validate_event_sequence_complete (readable e ∷ vs) c now h =
      let same : EventCursor = record c {
        next_sequence = suc e.sequence;
        terminal = is_terminal_type e.type;
      } in
      let (c', run) = validate_event_sequence_complete vs same now (ground arith) in
      let next = validate_next_event-ok e c now (ground arith) (ground arith) (ground arith) in
      (c', rw (next) run)

  -- A cursor accepts a sequence of events exactly when each of them is well formed, has not expired and
  -- is one of the cursor's job, account and fence, their numbers go up by one from the cursor's next, and
  -- nothing comes after a terminal event, the cursor's own past included.
  pub validate_event_sequence_iff :
      (vs : List EventValue) (c : EventCursor) (now : ℕ)
      → ((c' : EventCursor) × (validate_event_sequence is_opaque vs c now ≡ ok c'))
        ↔ (is_continued c now vs ≡ true)
  validate_event_sequence_iff vs c now = (
    λ (c', run). validate_event_sequence_sound vs c c' now run,
    validate_event_sequence_complete vs c now,
  )
