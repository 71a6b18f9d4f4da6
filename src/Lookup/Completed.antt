-- ===== src/Lookup/Completed.antt =====
-- apps/web/src/lib/lookup/bulk-lookup.ts: a lookup from its input to what is shown at its end.
use hyeboard.Prelude.{
  ℕ, suc, ◌+◌, ◌≡◌, refl, sym, ◌∙◌, ap, arith, false, Option, none, List, [], ◌∷◌, ◌++◌, String,
  length, append_nil, inl, inr,
}
use hyeboard.Lookup.Chunks.{VnuBulkLookupMode, chunk_bulk_targets}
use hyeboard.Lookup.Bulk.{
  VnuBulkLookupItem, BulkLookupProgress, Turn, initial_progress, attempt_chunk,
  append_bulk_lookup_chunk, execute_chunks, execute_bulk_lookup,
}
use hyeboard.Lookup.Accounting.{
  item_targets, ChunkOutcome-cases, execute_bulk_lookup_accounts, execute_bulk_lookup_outcome,
}
use hyeboard.Lookup.Progress.{Counts}
use hyeboard.Lookup.Targets.{
  view_completed, parse_bulk_targets, derive_bulk_lookup_view_state, parse_bulk_targets_fit,
}

module _ {R : Type 0} where
  length-item_targets : (is : List (VnuBulkLookupItem R)) → length (item_targets is) ≡ length is
  length-item_targets [] = refl
  length-item_targets (i ∷ is) = ap suc (length-item_targets is)

  -- The progress goes on counting its items, out of the same total.
  execute_chunks-Counts :
      (targets : List String) (turns : ℕ → Turn R) (chunks : List (List String)) (index : ℕ)
      (p : BulkLookupProgress R) (completed : ℕ)
      → Counts p
      → let x = execute_chunks targets turns index chunks p completed in
        Counts x.progress × (x.progress.total ≡ p.total)
  unfolding execute_chunks append_bulk_lookup_chunk
  execute_chunks-Counts targets turns [] index p completed h = (h, refl)
  execute_chunks-Counts targets turns (c ∷ cs) index p completed h =
      elim (ChunkOutcome-cases (attempt_chunk (turns index) c)) [
        | inl (e, a, r, q) ↦ rw (q, execute_chunks) (h, refl)
        | inr (items, q) ↦
            rw (q, execute_chunks)
              (execute_chunks-Counts targets turns cs (suc index) (append_bulk_lookup_chunk p items)
                (completed + length c) refl)
      ]

  -- An execution that nothing stops has an item for each target, and has processed them all.
  execute_bulk_lookup-whole :
      (mode : VnuBulkLookupMode) (targets : List String) (direct : Option ℕ) (turns : ℕ → Turn R)
      → let x = execute_bulk_lookup mode targets direct (initial_progress R targets) turns in
        x.remaining_targets ≡ []
        → (item_targets x.progress.items ≡ targets) × (x.progress.processed ≡ length targets)
  unfolding execute_bulk_lookup
  execute_bulk_lookup-whole mode targets direct turns left =
      let start = initial_progress R targets in
      let x = execute_bulk_lookup mode targets direct start turns in
      let items : item_targets x.progress.items ≡ targets =
        sym (append_nil (item_targets x.progress.items))
        ∙ ap (λ l. item_targets x.progress.items ++ l) (sym left)
        ∙ execute_bulk_lookup_accounts mode targets direct start turns in
      let (counts, total) =
        execute_chunks-Counts targets turns (chunk_bulk_targets mode targets direct) 0 start 0
          (omega arith) in
      let many = sym (length-item_targets x.progress.items) ∙ ap length items in
      (items, omega (arith, counts, total, many))

  -- A lookup of an input without an error that ends without one, without an abort and without a restored
  -- session has an item for each target, in their order; it has processed as many as there are targets,
  -- and is shown as completed.
  pub bulk_lookup_completes :
      (split : String → List String) (trim : String → String) (raw : String) (max : Option ℕ)
      (mode : VnuBulkLookupMode) (direct : Option ℕ) (turns : ℕ → Turn R)
      → let parsed = parse_bulk_targets split trim raw max in
        let start = initial_progress R parsed.targets in
        let x = execute_bulk_lookup mode parsed.targets direct start turns in
        parsed.error ≡ none
        → x.error ≡ none
        → x.aborted ≡ false
        → x.restored_without_replay ≡ false
        → (item_targets x.progress.items ≡ parsed.targets)
          × (x.progress.processed ≡ length parsed.targets)
          × (derive_bulk_lookup_view_state parsed false x.progress.processed ≡ view_completed)
  unfolding derive_bulk_lookup_view_state
  bulk_lookup_completes split trim raw max mode direct turns fine e a r =
      let parsed = parse_bulk_targets split trim raw max in
      let start = initial_progress R parsed.targets in
      let left = (execute_bulk_lookup_outcome mode parsed.targets direct start turns).0 e a r in
      let (items, processed) = execute_bulk_lookup-whole mode parsed.targets direct turns left in
      let (most, _, one, _) = parse_bulk_targets_fit split trim raw max fine in
      (items, processed, ground (arith, fine, one, processed))
