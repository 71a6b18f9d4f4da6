-- ===== src/Resolver/Tests.antt =====
-- A search whose first probe is two students off, and the theorems at it.
use hyeboard.Prelude.{
  read_digits, ℕ, ◌<◌, ◌≡◌, refl, ◌==◌, true, false, Option, none, some, List, [], ◌∷◌, String,
  arith, length, if◌then◌else◌, ok,
}
use hyeboard.Resolver.Candidates.{
  is_student_code, resolved, configured_pool_width, offset_pairs, member, keep_first,
  pushed_candidates, local_candidates, correction_of,
}
use hyeboard.Resolver.Pool.{
  coded, Environment, fulfilled, is_target, candidate_at, without, racer, can_start, start_probe,
  fill_pool, settle, scan_prefix, independent_failure, is_winner_cleanup_rejection, win, Resolution,
}
use hyeboard.Resolver.Search.{
  ResolverOptions, parse_positive_safe_integer, validate, take_turn, turn, run_loop, search_local,
  probe_first, resolve_vnu_student_id, fresh_pool, refill,
}
use hyeboard.Resolver.Turns.{IsReady, IsProgress, refill-IsReady, turn-IsProgress}
use hyeboard.Resolver.Priority.{
  fresh_pool-IsPool, nothing_settled, Explains, resolve_vnu_student_id-Explains,
}

abbrev code_of : ℕ → Option String
code_of id =
    if id == 1004
    then some "20001236"
    else if id == 1002
    then some "20001233"
    else if id == 1003
    then some "20001234"
    else none

abbrev second_first : Environment String
second_first = record {
  fetch_student_code = λ id. coded (code_of id);
  race = λ turn. 1;
  caller = λ m. none;
  sibling = λ i. record { cancelled_by_winner = true; work_outcome = fulfilled };
  is_abort_error = λ e. true;
  is_winner_reason = λ e. false;
}

abbrev wanted : ResolverOptions
wanted = record {
  own_std_id = 1000;
  own_code = 20001230;
  target_code = "20001234";
  concurrency = 3;
  platform_concurrency_limit = none;
}

valid_options : validate second_first wanted ≡ ok 1004
unfolding validate parse_positive_safe_integer is_student_code read_digits
valid_options = refl

found : resolve_vnu_student_id second_first wanted ≡ some (ok (resolved 1003 "20001234" 4))
unfolding validate parse_positive_safe_integer is_student_code read_digits configured_pool_width
    offset_pairs member keep_first pushed_candidates local_candidates correction_of is_target
    candidate_at without racer can_start start_probe fill_pool settle scan_prefix
    independent_failure is_winner_cleanup_rejection win take_turn run_loop search_local probe_first
    resolve_vnu_student_id
found = refl

resolve_vnu_student_id-Explains_example :
    (r : Resolution String) × (resolve_vnu_student_id second_first wanted ≡ some r)
    × Explains second_first wanted 1004 r
resolve_vnu_student_id-Explains_example =
    resolve_vnu_student_id-Explains second_first wanted 1004 valid_options

abbrev nearby : List ℕ
nearby = 1002 ∷ 1003 ∷ 1005 ∷ []

abbrev room : 0 < length nearby → 0 < 2
room l = omega arith

abbrev ready :
    IsReady second_first nearby "20001234" 2 room
      (refill second_first nearby "20001234" 2 (fresh_pool second_first))
ready =
    refill-IsReady second_first nearby "20001234" 2 room (fresh_pool second_first)
      (fresh_pool-IsPool second_first nearby "20001234" 2) (nothing_settled 3 "20001234")

turn-IsProgress_example :
    IsProgress second_first nearby "20001234" 2 room
      (refill second_first nearby "20001234" 2 (fresh_pool second_first))
      (turn second_first nearby "20001234" 2 0
        (0 ∷ 1 ∷ [])
        (refill second_first nearby "20001234" 2 (fresh_pool second_first)))
unfolding fill_pool can_start start_probe
turn-IsProgress_example =
    turn-IsProgress second_first nearby "20001234" 2 room 0 (0 ∷ 1 ∷ [])
      (refill second_first nearby "20001234" 2 (fresh_pool second_first)) refl ready
