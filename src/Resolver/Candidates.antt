-- ===== src/Resolver/Candidates.antt =====
-- apps/worker/src/vnu/vnu-student-id-resolver.ts: student codes, the printed student id, and the
-- candidates around the projected id. A code is a text; its characters are their codes. A number of
-- the program is a natural one: `-` stops at 0, which is no valid id, where the source goes below it.
use hyeboard.Prelude.{
  number_of, ℕ, zero, suc, ◌+◌, ◌-◌, ◌*◌, ◌/◌, ◌%◌, min, leb, ltb, ◌==◌, Bool, false, not, ◌&&◌,
  ◌||◌, Option, none, some, List, [], ◌∷◌, ◌++◌, String, length, all, codes, is_positive_safe,
  if◌then◌else◌,
}

abbrev pub local_radius : ℕ
local_radius = 16

abbrev pub resolver_max_probes : ℕ
resolver_max_probes = 1 + local_radius * 2

abbrev pub resolver_platform_concurrency : ℕ
resolver_platform_concurrency = 6

-- `STUDENT_CODE_PATTERN`: `/^\d{8}$/`
unfoldable pub is_student_code : String → Bool
is_student_code s = length (codes s) == 8 && all (λ c. leb b'0' c && leb c b'9') (codes s)

-- `String(n)` in front of `text`; sixteen digits are enough for a safe integer.
unfoldable pub print_digits : ℕ → ℕ → List ℕ → List ℕ
print_digits zero n text = (b'0' + n) ∷ text
print_digits (suc fuel) n text =
    let rest = print_digits fuel (n / 10) ((b'0' + n % 10) ∷ text) in
    if ltb n 10 then (b'0' + n) ∷ text else rest

unfoldable pub zeros : ℕ → List ℕ
zeros zero = []
zeros (suc n) = b'0' ∷ zeros n

-- `padStart(width, "0")`
unfoldable pub pad_start : ℕ → List ℕ → List ℕ
pad_start width text = zeros (width - length text) ++ text

pub record VnuStudentIdResolution : Type 0 where
  pub std_id : List ℕ
  pub std_code : String
  pub probes : ℕ

unfoldable pub resolved : ℕ → String → ℕ → VnuStudentIdResolution
resolved std_id target_code probes = record {
  std_id = pad_start 11 (print_digits 16 std_id []);
  std_code = target_code;
  probes = probes;
}

unfoldable pub configured_pool_width : ℕ → ℕ → ℕ → ℕ
configured_pool_width concurrency limit candidates = min (min concurrency limit) candidates

-- The pairs that the loop of `localCandidates` pushes from `offset` on.
unfoldable pub offset_pairs : ℕ → ℕ → ℕ → List ℕ
offset_pairs zero offset projected = []
offset_pairs (suc rounds) offset projected =
    (projected - offset) ∷ (projected + offset) ∷ offset_pairs rounds (suc offset) projected

unfoldable pub member : ℕ → List ℕ → Bool
member x [] = false
member x (y ∷ ys) = (y == x) || member x ys

-- The filter of `localCandidates`: `candidates.indexOf(candidate) === index` says that the candidate
-- is not among the `earlier` ones.
unfoldable pub keep_first : ℕ → List ℕ → List ℕ → List ℕ
keep_first projected earlier [] = []
keep_first projected earlier (c ∷ cs) =
    let rest = keep_first projected (c ∷ earlier) cs in
    if is_positive_safe c && not (c == projected) && not (member c earlier) then c ∷ rest else rest

unfoldable pub pushed_candidates : ℕ → Option ℕ → List ℕ
pushed_candidates projected none = offset_pairs local_radius 1 projected
pushed_candidates projected (some correction) = correction ∷ offset_pairs local_radius 1 projected

unfoldable pub local_candidates : ℕ → Option ℕ → List ℕ
local_candidates projected correction =
    keep_first projected [] (pushed_candidates projected correction)

-- The correction that the code of the projected id suggests.
unfoldable pub correction_of : ℕ → String → Option String → Option ℕ
correction_of projected target_code none = none
correction_of projected target_code (some code) =
    let target = number_of target_code in
    let corrected = projected + target - number_of code in
    if is_student_code code
      && leb (target - number_of code) local_radius
      && leb (number_of code - target) local_radius
      && is_positive_safe corrected
      && not (corrected == projected)
    then some corrected
    else none
