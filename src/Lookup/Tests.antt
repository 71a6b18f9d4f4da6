-- ===== src/Lookup/Tests.antt =====
-- A lookup of four targets whose second chunk is aborted, and the theorems at it.
use hyeboard.Prelude.{
  length, ◌==◌, if◌then◌else◌, some, ℕ, zero, suc, ◌≡◌, refl, true, false, none, List, [], ◌∷◌,
  ◌++◌, String,
}
use hyeboard.Lookup.Chunks.{
  code_to_stdid, valid_chunk_maximum, chunk_size, chunks_from, chunk_bulk_targets,
}
use hyeboard.Lookup.Bulk.{
  VnuBulkLookupItem, ok_item, BulkLookupProgress, BulkLookupExecution, Turn, responded,
  initial_progress, targets_match, attempt_chunk, append_bulk_lookup_chunk, execute_chunks,
  execute_bulk_lookup,
}
use Prim.Native.Char.{Char, code}
use hyeboard.Lookup.Targets.{
  ParsedBulkTargets, parse_bulk_targets, distinct_from, derive_bulk_lookup_view_state,
  view_completed,
}
use hyeboard.Lookup.Completed.{bulk_lookup_completes}
use hyeboard.Lookup.Accounting.{item_targets, execute_bulk_lookup_accounts}

abbrev students : List String
students = "1" ∷ "2" ∷ "3" ∷ "4" ∷ []

abbrev item : String → VnuBulkLookupItem String
item target = record { target = target; answer = ok_item "found" }

abbrev first_items : List (VnuBulkLookupItem String)
first_items = item "1" ∷ item "2" ∷ item "3" ∷ []

abbrev turns : ℕ → Turn String
turns zero = record {
  aborted_before = false;
  response = responded first_items;
  aborted_after = false;
}
turns (suc n) = record { aborted_before = true; response = responded []; aborted_after = true }

abbrev start : BulkLookupProgress String
start = initial_progress String students

executed : BulkLookupExecution String
unfolding valid_chunk_maximum chunk_size chunks_from chunk_bulk_targets targets_match attempt_chunk
    append_bulk_lookup_chunk execute_chunks execute_bulk_lookup
executed = execute_bulk_lookup code_to_stdid students none start turns

aborted_after_first : (executed.aborted ≡ true) × (executed.remaining_targets ≡ "4" ∷ [])
unfolding executed
aborted_after_first = (refl, refl)

execute_bulk_lookup_accounts_example :
    item_targets executed.progress.items ++ executed.remaining_targets ≡ students
unfolding executed
execute_bulk_lookup_accounts_example =
    execute_bulk_lookup_accounts code_to_stdid students none start turns

-- Lines end with a line feed, and blanks are dropped in front.
abbrev on_first : Char → List String → List String
on_first c [] = (String.◌∷◌ c String.[]) ∷ []
on_first c (l ∷ ls) = (String.◌∷◌ c l) ∷ ls

abbrev split_lines : String → List String
split_lines String.[] = "" ∷ []
split_lines (String.◌∷◌ c s) =
    let rest = split_lines s in if code c == 10 then "" ∷ rest else on_first c rest

abbrev trim_left : String → String
trim_left String.[] = ""
trim_left (String.◌∷◌ c s) = let rest = trim_left s in if code c == 32 then rest else String.◌∷◌ c s

abbrev typed_input : String
typed_input = "1\n 2\n\n1\n3"

typed_targets :
    (parse_bulk_targets split_lines trim_left typed_input (some 5)).targets ≡ "1" ∷ "2" ∷ "3" ∷ []
unfolding parse_bulk_targets distinct_from
typed_targets = refl

abbrev typed_parsed : ParsedBulkTargets
typed_parsed = parse_bulk_targets split_lines trim_left typed_input (some 5)

bulk_lookup_completes_example :
    let x =
      execute_bulk_lookup code_to_stdid typed_parsed.targets none
        (initial_progress String typed_parsed.targets)
        turns in
    (item_targets x.progress.items ≡ typed_parsed.targets)
    × (x.progress.processed ≡ length typed_parsed.targets)
    × (derive_bulk_lookup_view_state typed_parsed false x.progress.processed ≡ view_completed)
unfolding parse_bulk_targets distinct_from valid_chunk_maximum chunk_size chunks_from
    chunk_bulk_targets targets_match attempt_chunk append_bulk_lookup_chunk execute_chunks
    execute_bulk_lookup
bulk_lookup_completes_example =
    bulk_lookup_completes split_lines trim_left typed_input (some 5) code_to_stdid none turns refl
      refl refl refl
