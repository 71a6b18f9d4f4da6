-- ===== src/Lookup/Bulk.antt =====
-- apps/web/src/lib/lookup/bulk-lookup.ts: `executeBulkLookup`. The request and the abort signal are
-- what a turn of the loop sees of them; the content of a result, which the loop never looks at, is a
-- type `R`.
use hyeboard.Prelude.{
  ℕ, suc, ◌+◌, min, ◌==◌, Bool, true, false, not, ◌&&◌, Option, none, some, List, [], ◌∷◌, ◌++◌,
  String, length, drop, str_eq, if◌then◌else◌,
}
use hyeboard.Lookup.Chunks.{VnuBulkLookupMode, chunk_bulk_targets}

pub data ItemAnswer (R : Type 0) : Type 0 where
  ok_item : R → ItemAnswer R
  error_item : String → ItemAnswer R

pub record VnuBulkLookupItem (R : Type 0) : Type 0 where
  pub target : String
  pub answer : ItemAnswer R

pub record BulkLookupProgress (R : Type 0) : Type 0 where
  pub processed : ℕ
  pub total : ℕ
  pub items : List (VnuBulkLookupItem R)

-- An `ApiError` of code `VNU_REQUEST_NOT_REPLAYED`, or any other error.
pub data RequestError : Type 0 where
  not_replayed : RequestError
  other : String → RequestError

pub data ExecutionError : Type 0 where
  request_failed : RequestError → ExecutionError
  invalid_response : ExecutionError

pub record BulkLookupExecution (R : Type 0) : Type 0 where
  pub progress : BulkLookupProgress R
  pub remaining_targets : List String
  pub error : Option ExecutionError
  pub aborted : Bool
  pub restored_without_replay : Bool

pub data Response (R : Type 0) : Type 0 where
  responded : List (VnuBulkLookupItem R) → Response R
  failed : RequestError → Response R

-- One turn: `signal.aborted` before the request, the outcome of the request, and `signal.aborted`
-- after it.
pub record Turn (R : Type 0) : Type 0 where
  pub aborted_before : Bool
  pub response : Response R
  pub aborted_after : Bool

-- What a turn makes of its chunk: it ends the execution, or its items are accepted.
pub data ChunkOutcome (R : Type 0) : Type 0 where
  stopped : Option ExecutionError → Bool → Bool → ChunkOutcome R
  accepted : List (VnuBulkLookupItem R) → ChunkOutcome R

abbrev is_not_replayed : RequestError → Bool
is_not_replayed not_replayed = true
is_not_replayed (other e) = false

-- The `progress` that `executeBulkLookup` starts with when it is given none.
abbrev pub initial_progress : (R : Type 0) → List String → BulkLookupProgress R
initial_progress R targets = record { processed = 0; total = length targets; items = [] }

module _ {R : Type 0} where
  -- `items.every((item, index) => item.target === chunk[index])`
  abbrev pub every_match : List (VnuBulkLookupItem R) → List String → Bool
  every_match [] chunk = true
  every_match (i ∷ is) [] = false
  every_match (i ∷ is) (c ∷ cs) = str_eq i.target c && every_match is cs

  unfoldable pub targets_match : List (VnuBulkLookupItem R) → List String → Bool
  targets_match items chunk = length items == length chunk && every_match items chunk

  abbrev pub answered : Response R → Bool → List String → ChunkOutcome R
  answered (failed e) aborted chunk =
      let restored = not aborted && is_not_replayed e in
      stopped (if aborted then none else if restored then none else some (request_failed e)) aborted
        restored
  answered (responded items) aborted chunk =
      if aborted
      then stopped none true false
      else if not (targets_match items chunk)
      then stopped (some invalid_response) false false
      else accepted items

  unfoldable pub attempt_chunk : Turn R → List String → ChunkOutcome R
  attempt_chunk t chunk =
      if t.aborted_before
      then stopped none true false
      else answered t.response t.aborted_after chunk

  unfoldable pub append_bulk_lookup_chunk :
      BulkLookupProgress R → List (VnuBulkLookupItem R) → BulkLookupProgress R
  append_bulk_lookup_chunk p items = record {
    processed = min p.total (length (p.items ++ items));
    total = p.total;
    items = p.items ++ items;
  }

  -- The loop over the chunks from the turn `index` on, after `completed` targets.
  unfoldable pub execute_chunks :
      List String
      → (ℕ → Turn R)
      → ℕ
      → List (List String)
      → BulkLookupProgress R
      → ℕ
      → BulkLookupExecution R
  execute_chunks targets turns index [] p completed = record {
    progress = p;
    remaining_targets = [];
    error = none;
    aborted = false;
    restored_without_replay = false;
  }
  execute_chunks targets turns index (c ∷ cs) p completed = elim (attempt_chunk (turns index) c) [
    | stopped error aborted restored ↦ record {
      progress = p;
      remaining_targets = drop completed targets;
      error = error;
      aborted = aborted;
      restored_without_replay = restored;
    }
    | accepted items ↦
        execute_chunks targets turns (suc index) cs (append_bulk_lookup_chunk p items)
          (completed + length c)
  ]

  -- `onProgress`: the `processed` of each report, in order. The `items` of a report are the list that
  -- goes on growing.
  unfoldable pub reports : (ℕ → Turn R) → ℕ → List (List String) → BulkLookupProgress R → List ℕ
  reports turns index [] p = []
  reports turns index (c ∷ cs) p = elim (attempt_chunk (turns index) c) [
    | stopped error aborted restored ↦ []
    | accepted items ↦
        (append_bulk_lookup_chunk p items).processed
        ∷ reports turns (suc index) cs (append_bulk_lookup_chunk p items)
  ]

  unfoldable pub execute_bulk_lookup :
      VnuBulkLookupMode
      → List String
      → Option ℕ
      → BulkLookupProgress R
      → (ℕ → Turn R)
      → BulkLookupExecution R
  execute_bulk_lookup mode targets max initial turns =
      execute_chunks targets turns 0 (chunk_bulk_targets mode targets max) initial 0
