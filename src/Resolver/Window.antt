-- ===== src/Resolver/Window.antt =====
-- apps/worker/src/vnu/vnu-student-id-resolver.ts: how many candidates there are, and what a printed
-- student id says.
use hyeboard.Prelude.{
  number_of, read_digits, ℕ, zero, suc, ◌+◌, ◌-◌, ◌*◌, ◌/◌, ◌%◌, ◌≤◌, ◌<◌, ◌≡◌, refl, ◌∙◌, ◌⊎◌, inl,
  inr, ltb, ◌==◌, true, Option, none, some, List, [], ◌∷◌, ◌++◌, String, arith, length, Bool-cases,
}
use hyeboard.Resolver.Candidates.{
  local_radius, print_digits, zeros, pad_start, resolved, offset_pairs, member, keep_first,
  pushed_candidates, local_candidates, correction_of,
}

read_digits-print_digits :
    (fuel n : ℕ) (text : List ℕ) → read_digits 0 (print_digits fuel n text) ≡ read_digits n text
unfolding read_digits print_digits
read_digits-print_digits zero n text = ground arith
read_digits-print_digits (suc fuel) n text =
    let whole : n / 10 * 10 + (48 + n % 10 - 48) ≡ n = omega arith in
    ground (arith, whole, read_digits-print_digits fuel (n / 10) ((48 + n % 10) ∷ text))

read_digits-zeros : (n : ℕ) (text : List ℕ) → read_digits 0 (zeros n ++ text) ≡ read_digits 0 text
unfolding read_digits zeros
read_digits-zeros zero text = refl
read_digits-zeros (suc n) text = read_digits-zeros n text

-- The printed id, padded with zeros, reads back as the id.
pub resolved-std_id :
    (n : ℕ) (target_code : String) (probes : ℕ)
    → read_digits 0 (resolved n target_code probes).std_id ≡ n
unfolding resolved pad_start
resolved-std_id n t p =
    let text = print_digits 16 n [] in
    let printed : read_digits n [] ≡ n = unfold read_digits in refl in
    read_digits-zeros (11 - length text) text ∙ read_digits-print_digits 16 n [] ∙ printed

length-offset_pairs :
    (rounds offset projected : ℕ) → length (offset_pairs rounds offset projected) ≡ rounds * 2
unfolding offset_pairs
length-offset_pairs zero offset projected = refl
length-offset_pairs (suc rounds) offset projected =
    omega (arith, length-offset_pairs rounds (suc offset) projected)

length-keep_first-le :
    (projected : ℕ) (earlier cs : List ℕ) → length (keep_first projected earlier cs) ≤ length cs
unfolding keep_first
length-keep_first-le projected earlier [] = omega arith
length-keep_first-le projected earlier (c ∷ cs) =
    ground (arith, length-keep_first-le projected (c ∷ earlier) cs)

-- A candidate that came earlier is dropped.
length-keep_first-lt :
    (projected x : ℕ) (earlier cs : List ℕ)
    → member x earlier ≡ true
    → member x cs ≡ true
    → length (keep_first projected earlier cs) < length cs
unfolding keep_first member
length-keep_first-lt projected x earlier [] h m = ground arith
length-keep_first-lt projected x earlier (c ∷ cs) h m = ground (
  arith,
  length-keep_first-le projected (c ∷ earlier) cs,
  length-keep_first-lt projected x (c ∷ earlier) cs,
)

member-offset_pairs :
    (rounds offset projected j x : ℕ)
    → offset ≤ j
    → j < offset + rounds
    → (x ≡ projected - j) ⊎ (x ≡ projected + j)
    → member x (offset_pairs rounds offset projected) ≡ true
unfolding member offset_pairs
member-offset_pairs zero offset projected j x l h e = let off : ⊥ = omega arith in elim off [ ]
member-offset_pairs (suc rounds) offset projected j x l h e = elim (Bool-cases (j == offset)) [
  | inl same ↦ ground arith
  | inr other ↦
      let rest =
        member-offset_pairs rounds (suc offset) projected j x (ground arith) (omega arith) e in
      ground arith
]

-- A correction lies in the window.
correction_of-member :
    (projected : ℕ) (target_code : String) (code : Option String) (x : ℕ)
    → correction_of projected target_code code ≡ some x
    → member x (offset_pairs local_radius 1 projected) ≡ true
unfolding correction_of
correction_of-member projected target_code none x h = ground arith
correction_of-member projected target_code (some code) x h =
    let t = number_of target_code in
    let c = number_of code in
    elim (Bool-cases (ltb t c)) [
      | inl below ↦
          member-offset_pairs 16 1 projected (c - t) x (ground arith) (ground arith)
            (inl (ground arith))
      | inr above ↦
          member-offset_pairs 16 1 projected (t - c) x (ground arith) (ground arith)
            (inr (ground arith))
    ]

length-pushed :
    (projected : ℕ) (correction : Option ℕ)
    → ((x : ℕ) → correction ≡ some x → member x (offset_pairs local_radius 1 projected) ≡ true)
    → length (keep_first projected [] (pushed_candidates projected correction)) ≤ local_radius * 2
unfolding pushed_candidates
length-pushed projected none h = omega (
  arith,
  length-keep_first-le projected [] (offset_pairs 16 1 projected),
  length-offset_pairs 16 1 projected,
)
length-pushed projected (some x) h =
    let again = h x refl in
    let self : member x (x ∷ []) ≡ true = unfold member in (ground arith) in
    unfold keep_first in
    (ground (
      arith,
      length-keep_first-lt projected x (x ∷ []) (offset_pairs 16 1 projected) self again,
      length-offset_pairs 16 1 projected,
    ))

-- A correction takes the place of the candidate that it repeats: there are at most 32.
pub length-local_candidates-le :
    (projected : ℕ) (target_code : String) (code : Option String)
    → length (local_candidates projected (correction_of projected target_code code))
      ≤ local_radius * 2
unfolding local_candidates
length-local_candidates-le projected target_code code =
    length-pushed projected (correction_of projected target_code code)
      (λ x h. correction_of-member projected target_code code x h)
