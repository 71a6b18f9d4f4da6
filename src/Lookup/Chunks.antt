-- ===== src/Lookup/Chunks.antt =====
-- apps/web/src/lib/lookup/bulk-lookup.ts: `chunkBulkTargets`.
use hyeboard.Prelude.{
  ℕ, zero, suc, ◌≤◌, ◌≡◌, refl, Option, none, some, List, [], ◌∷◌, String, arith, length, take,
  drop, append-take-drop, length-take, length-drop, join, All, is_positive_safe, if◌then◌else◌,
}

pub data VnuBulkLookupMode : Type 0 where
  stdid_to_code code_to_stdid stdid_to_transcript : VnuBulkLookupMode

unfoldable pub valid_chunk_maximum : Option ℕ → Option ℕ
valid_chunk_maximum none = none
valid_chunk_maximum (some n) = if is_positive_safe n then some n else none

abbrev or_five : Option ℕ → ℕ
or_five none = 5
or_five (some n) = n

unfoldable pub chunk_size : VnuBulkLookupMode → Option ℕ → ℕ
unfolding valid_chunk_maximum
chunk_size code_to_stdid max = 3
chunk_size stdid_to_code max = or_five (valid_chunk_maximum max)
chunk_size stdid_to_transcript max = or_five (valid_chunk_maximum max)

-- The loop over `index`, with the targets from `index` on. Each turn takes at least one of them, so
-- their number is enough fuel.
unfoldable pub chunks_from : ℕ → ℕ → List String → List (List String)
chunks_from zero size targets = []
chunks_from (suc fuel) size [] = []
chunks_from (suc fuel) size (t ∷ ts) =
    take size (t ∷ ts) ∷ chunks_from fuel size (drop size (t ∷ ts))

unfoldable pub chunk_bulk_targets : VnuBulkLookupMode → List String → Option ℕ → List (List String)
chunk_bulk_targets mode targets max = chunks_from (length targets) (chunk_size mode max) targets

chunk_size-positive : (mode : VnuBulkLookupMode) (max : Option ℕ) → 1 ≤ chunk_size mode max
unfolding chunk_size valid_chunk_maximum
chunk_size-positive code_to_stdid max = omega arith
chunk_size-positive stdid_to_code none = omega arith
chunk_size-positive stdid_to_code (some n) = ground arith
chunk_size-positive stdid_to_transcript none = omega arith
chunk_size-positive stdid_to_transcript (some n) = ground arith

join-chunks_from :
    (fuel size : ℕ) (targets : List String)
    → 1 ≤ size
    → length targets ≤ fuel
    → join (chunks_from fuel size targets) ≡ targets
unfolding chunks_from
join-chunks_from zero size [] s h = refl
join-chunks_from zero size (t ∷ ts) s h = let no : ⊥ = omega arith in elim no [ ]
join-chunks_from (suc fuel) size [] s h = refl
join-chunks_from (suc fuel) size (t ∷ ts) s h =
    rw
      (join-chunks_from fuel size (drop size (t ∷ ts)) s (omega (arith, length-drop size (t ∷ ts))))
      (append-take-drop size (t ∷ ts))

-- A chunk is neither empty nor longer than `size`.
abbrev pub IsChunk : ℕ → List String → Type 0
IsChunk size chunk = (1 ≤ length chunk) × (length chunk ≤ size)

chunks_from-IsChunk :
    (fuel size : ℕ) (targets : List String)
    → 1 ≤ size
    → All (IsChunk size) (chunks_from fuel size targets)
unfolding chunks_from
chunks_from-IsChunk zero size targets s = tt
chunks_from-IsChunk (suc fuel) size [] s = tt
chunks_from-IsChunk (suc fuel) size (t ∷ ts) s = (
  (omega (arith, length-take size (t ∷ ts)), omega (arith, length-take size (t ∷ ts))),
  chunks_from-IsChunk fuel size (drop size (t ∷ ts)) s,
)

pub join-chunk_bulk_targets :
    (mode : VnuBulkLookupMode) (targets : List String) (max : Option ℕ)
    → join (chunk_bulk_targets mode targets max) ≡ targets
unfolding chunk_bulk_targets
join-chunk_bulk_targets mode targets max =
    join-chunks_from (length targets) (chunk_size mode max) targets (chunk_size-positive mode max)
      (omega arith)

chunk_bulk_targets-IsChunk :
    (mode : VnuBulkLookupMode) (targets : List String) (max : Option ℕ)
    → All (IsChunk (chunk_size mode max)) (chunk_bulk_targets mode targets max)
unfolding chunk_bulk_targets
chunk_bulk_targets-IsChunk mode targets max =
    chunks_from-IsChunk (length targets) (chunk_size mode max) targets
      (chunk_size-positive mode max)

-- The chunks, one after the other, are the targets in their order, and none of them is empty or longer
-- than the mode's size.
pub chunks_partition :
    (mode : VnuBulkLookupMode) (targets : List String) (max : Option ℕ)
    → (join (chunk_bulk_targets mode targets max) ≡ targets)
      × All (IsChunk (chunk_size mode max)) (chunk_bulk_targets mode targets max)
chunks_partition mode targets max =
    (join-chunk_bulk_targets mode targets max, chunk_bulk_targets-IsChunk mode targets max)
