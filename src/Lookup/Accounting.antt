-- ===== src/Lookup/Accounting.antt =====
-- apps/web/src/lib/lookup/bulk-lookup.ts: what an execution returns accounts for every target.
use hyeboard.Prelude.{
  ℕ, suc, ◌+◌, ◌≡◌, refl, sym, ap, Bool-cases, ◌∙◌, ◌⊎◌, inl, inr, Bool, true, false, Option, none,
  List, [], ◌∷◌, ◌++◌, String, arith, length, drop, join, append_assoc, drop-add,
  drop-length-append, str_eq_iff,
}
use hyeboard.Lookup.Chunks.{VnuBulkLookupMode, chunk_bulk_targets, join-chunk_bulk_targets}
use hyeboard.Lookup.Bulk.{
  VnuBulkLookupItem, BulkLookupProgress, BulkLookupExecution, ExecutionError, Turn, Response,
  ChunkOutcome, other, not_replayed, stopped, accepted, answered, responded, failed, targets_match,
  every_match, attempt_chunk, append_bulk_lookup_chunk, execute_chunks, execute_bulk_lookup,
}

module _ {R : Type 0} where
  abbrev pub item_targets : List (VnuBulkLookupItem R) → List String
  item_targets [] = []
  item_targets (i ∷ is) = i.target ∷ item_targets is

  item_targets-append :
      (is js : List (VnuBulkLookupItem R))
      → item_targets (is ++ js) ≡ item_targets is ++ item_targets js
  item_targets-append [] js = refl
  item_targets-append (i ∷ is) js = ap (λ l. i.target ∷ l) (item_targets-append is js)

  every_match-eq :
      (items : List (VnuBulkLookupItem R)) (chunk : List String)
      → length items ≡ length chunk
      → every_match items chunk ≡ true
      → item_targets items ≡ chunk
  every_match-eq [] [] l h = refl
  every_match-eq [] (c ∷ cs) l h = let no : ⊥ = omega arith in elim no [ ]
  every_match-eq (i ∷ is) [] l h = cc
  every_match-eq (i ∷ is) (c ∷ cs) l h =
      ground (arith, str_eq_iff i.target c, every_match-eq is cs (omega arith))

  targets_match-eq :
      (items : List (VnuBulkLookupItem R)) (chunk : List String)
      → targets_match items chunk ≡ true
      → item_targets items ≡ chunk
  unfolding targets_match
  targets_match-eq items chunk h = ground (arith, every_match-eq items chunk)

  pub ChunkOutcome-cases :
      (o : ChunkOutcome R)
      → ((e : Option ExecutionError) × (a : Bool) × (r : Bool) × (o ≡ stopped e a r))
        ⊎ ((items : List (VnuBulkLookupItem R)) × (o ≡ accepted items))
  ChunkOutcome-cases (stopped e a r) = inl (e, a, r, refl)
  ChunkOutcome-cases (accepted items) = inr (items, refl)

  accepted_match :
      (t : Turn R) (chunk : List String) (items : List (VnuBulkLookupItem R))
      → attempt_chunk t chunk ≡ accepted items
      → item_targets items ≡ chunk
  unfolding attempt_chunk
  accepted_match t chunk items h = answer t.response (ground arith)
    where
      answer :
          (r : Response R)
          → answered r t.aborted_after chunk ≡ accepted items
          → item_targets items ≡ chunk
      answer (failed e) q = cc
      answer (responded is) q = ground (arith, targets_match-eq items chunk)

  -- Why an execution stops: at most one of the three reasons it can give.
  abbrev pub HasOneReason : BulkLookupExecution R → Type 0
  HasOneReason x =
      (x.aborted ≡ true → (x.error ≡ none) × (x.restored_without_replay ≡ false))
      × (x.restored_without_replay ≡ true → x.error ≡ none)

  execute_chunks-accounts :
      (targets : List String) (turns : ℕ → Turn R) (chunks : List (List String)) (index : ℕ)
      (p : BulkLookupProgress R) (completed : ℕ)
      → drop completed targets ≡ join chunks
      → let x = execute_chunks targets turns index chunks p completed in
        item_targets x.progress.items ++ x.remaining_targets ≡ item_targets p.items ++ join chunks
  unfolding execute_chunks append_bulk_lookup_chunk
  execute_chunks-accounts targets turns [] index p completed h = refl
  execute_chunks-accounts targets turns (c ∷ cs) index p completed h =
      elim (ChunkOutcome-cases (attempt_chunk (turns index) c)) [
        | inl (e, a, r, q) ↦ rw (q, execute_chunks, h) refl
        | inr (items, q) ↦
            let match = accepted_match (turns index) c items q in
            let rest : drop (completed + length c) targets ≡ join cs =
              drop-add completed (length c) targets
              ∙ ap (drop (length c)) h
              ∙ drop-length-append c (join cs) in
            rw (q, execute_chunks)
              (execute_chunks-accounts targets turns cs (suc index)
                  (append_bulk_lookup_chunk p items) (completed + length c) rest
                ∙ ap (λ l. l ++ join cs) (item_targets-append p.items items)
                ∙ append_assoc (item_targets p.items) (item_targets items) (join cs)
                ∙ ap (λ l. item_targets p.items ++ (l ++ join cs)) match)
      ]

  -- What holds of a loop that ran to its end and of one that stopped holds of every execution.
  execute_chunks_rule :
      (P : BulkLookupExecution R → Type 0) (targets : List String) (turns : ℕ → Turn R)
      → ((p : BulkLookupProgress R)
          → P (record {
            progress = p;
            remaining_targets = [];
            error = none;
            aborted = false;
            restored_without_replay = false;
          }))
      → ((p : BulkLookupProgress R) (left : List String) (index : ℕ) (c : List String)
            (e : Option ExecutionError) (a r : Bool)
          → attempt_chunk (turns index) c ≡ stopped e a r
          → P (record {
            progress = p;
            remaining_targets = left;
            error = e;
            aborted = a;
            restored_without_replay = r;
          }))
      → (chunks : List (List String)) (index : ℕ) (p : BulkLookupProgress R) (completed : ℕ)
      → P (execute_chunks targets turns index chunks p completed)
  unfolding execute_chunks
  execute_chunks_rule P targets turns ends stops [] index p completed = ends p
  execute_chunks_rule P targets turns ends stops (c ∷ cs) index p completed =
      elim (ChunkOutcome-cases (attempt_chunk (turns index) c)) [
        | inl (e, a, r, q) ↦
            rw (q, execute_chunks) (stops p (drop completed targets) index c e a r q)
        | inr (items, q) ↦
            rw (q, execute_chunks)
              (execute_chunks_rule P targets turns ends stops cs (suc index)
                (append_bulk_lookup_chunk p items) (completed + length c))
      ]

  -- Nothing stops an execution without a reason, and never two.
  stopped_reason :
      (t : Turn R) (c : List String) (e : Option ExecutionError) (a r : Bool)
      → attempt_chunk t c ≡ stopped e a r
      → (e ≡ none → a ≡ false → r ≡ false → ⊥)
        × (a ≡ true → (e ≡ none) × (r ≡ false))
        × (r ≡ true → e ≡ none)
  unfolding attempt_chunk
  stopped_reason t c e a r q = elim (Bool-cases t.aborted_before) [
    | inl b ↦ ground arith
    | inr b ↦ answer t.response (ground arith)
  ]
    where
      answer :
          (o : Response R)
          → answered o t.aborted_after c ≡ stopped e a r
          → (e ≡ none → a ≡ false → r ≡ false → ⊥)
            × (a ≡ true → (e ≡ none) × (r ≡ false))
            × (r ≡ true → e ≡ none)
      answer (failed (other m)) h = ground arith
      answer (failed not_replayed) h = ground arith
      answer (responded is) h = ground arith

-- Every execution accounts for every target, in order: the targets of the items gathered so far,
-- followed by the targets that remain, are those of the initial items followed by those of the call.
-- So an execution of what remains, from the progress returned, resumes it.
pub execute_bulk_lookup_accounts :
    {R : Type 0} (mode : VnuBulkLookupMode) (targets : List String) (max : Option ℕ)
    (initial : BulkLookupProgress R) (turns : ℕ → Turn R)
    → let x = execute_bulk_lookup mode targets max initial turns in
      item_targets x.progress.items ++ x.remaining_targets ≡ item_targets initial.items ++ targets
unfolding execute_bulk_lookup
execute_bulk_lookup_accounts mode targets max initial turns =
    let whole = join-chunk_bulk_targets mode targets max in
    execute_chunks-accounts targets turns (chunk_bulk_targets mode targets max) 0 initial 0
      (sym whole)
    ∙ ap (λ l. item_targets initial.items ++ l) whole

-- An execution that reports no error, no abort and no restored session leaves no target; one that
-- reports an abort reports neither of the others, and one that restored the session no error.
pub execute_bulk_lookup_outcome :
    {R : Type 0} (mode : VnuBulkLookupMode) (targets : List String) (max : Option ℕ)
    (initial : BulkLookupProgress R) (turns : ℕ → Turn R)
    → let x = execute_bulk_lookup mode targets max initial turns in
      (x.error ≡ none
        → x.aborted ≡ false
        → x.restored_without_replay ≡ false
        → x.remaining_targets ≡ [])
      × HasOneReason x
unfolding execute_bulk_lookup
execute_bulk_lookup_outcome {R} mode targets max initial turns =
    execute_chunks_rule Explained targets turns (λ p. ((λ _ _ _. refl), ((λ h. cc), (λ h. cc))))
      (λ p left index c e a r q.
        let (some_reason, alone, restored) = stopped_reason (turns index) c e a r q in
        ((λ x y z. elim (some_reason x y z) [ ]), (alone, restored)))
      (chunk_bulk_targets mode targets max) 0 initial 0
  where
    Explained : BulkLookupExecution R → Type 0
    Explained x =
        (x.error ≡ none
          → x.aborted ≡ false
          → x.restored_without_replay ≡ false
          → x.remaining_targets ≡ [])
        × HasOneReason x
