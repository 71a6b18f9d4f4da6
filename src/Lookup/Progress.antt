-- ===== src/Lookup/Progress.antt =====
-- apps/web/src/lib/lookup/bulk-lookup.ts: what `onProgress` is told.
use hyeboard.Prelude.{
  ℕ, suc, ◌≤◌, min, ◌≡◌, refl, inl, inr, List, [], ◌∷◌, String, arith, length, length-append,
}
use hyeboard.Lookup.Bulk.{
  VnuBulkLookupItem, BulkLookupProgress, Turn, append_bulk_lookup_chunk, attempt_chunk, reports,
}
use hyeboard.Lookup.Accounting.{ChunkOutcome-cases}

-- No number is less than the one before it, the first not less than `from`, or more than `total`.
abbrev pub IsRising : ℕ → ℕ → List ℕ → Type 0
IsRising from total [] = Unit
IsRising from total (n ∷ ns) = (from ≤ n) × (n ≤ total) × IsRising n total ns

module _ {R : Type 0} where
  -- `processed` counts the items, up to the total.
  abbrev pub Counts : BulkLookupProgress R → Type 0
  Counts p = p.processed ≡ min p.total (length p.items)

  rises :
      (p : BulkLookupProgress R) (items : List (VnuBulkLookupItem R))
      → Counts p
      → (p.processed ≤ (append_bulk_lookup_chunk p items).processed)
        × ((append_bulk_lookup_chunk p items).processed ≤ p.total)
        × Counts (append_bulk_lookup_chunk p items)
  unfolding append_bulk_lookup_chunk
  rises p items h = (omega (arith, length-append p.items items), omega arith, refl)

  -- The reports of an execution never fall and never exceed the total, if the initial progress
  -- counts its items.
  pub reports-IsRising :
      (turns : ℕ → Turn R) (index : ℕ) (chunks : List (List String)) (p : BulkLookupProgress R)
      → Counts p
      → IsRising p.processed p.total (reports turns index chunks p)
  unfolding reports append_bulk_lookup_chunk
  reports-IsRising turns index [] p h = tt
  reports-IsRising turns index (c ∷ cs) p h =
      elim (ChunkOutcome-cases (attempt_chunk (turns index) c)) [
        | inl (e, a, r, q) ↦ rw (q, reports) tt
        | inr (items, q) ↦
            let (up, most, counts) = rises p items h in
            rw (q, reports)
              (
                up,
                most,
                reports-IsRising turns (suc index) cs (append_bulk_lookup_chunk p items) counts,
              )
      ]
