-- ===== src/Policy/Pages.antt =====
-- apps/worker/src/policy/feature-policy-store.ts: the pages of a history, and its entries by revision.
use hyeboard.Prelude.{
  ℕ, zero, suc, ◌≤◌, ◌<◌, min, ◌≡◌, refl, sym, ap, ◌∙◌, subst, inl, inr, false, ◌&&◌, Option, none,
  some, List, [], ◌∷◌, ◌++◌, arith, ltb, take, drop, select, length, append-take-drop, ok,
  Bool-cases, length-take, lt→ltb, take_all, append_nil,
}
use hyeboard.Policy.Store.{
  FeaturePolicyAuditEntry, MemoryFeaturePolicyStore, HistoryPage, eligible, is_eligible,
  last_revision, page_of, history, parse_history_input,
}
use hyeboard.Policy.History.{IsHistory, IsContiguous}

abbrev below : ℕ → List FeaturePolicyAuditEntry → List FeaturePolicyAuditEntry
below b es = select (is_eligible (some b)) es

-- All entries of a history are below any later revision.
below_all : (n b : ℕ) (es : List FeaturePolicyAuditEntry) → IsHistory n es → n < b → below b es ≡ es
below_all n b [] h l = refl
below_all n b (e ∷ es) (r, base, s, h) l =
    rw (lt→ltb e.revision b (omega arith), below_all e.base_revision b es h (omega arith)) refl

-- What is eligible of a history is one, and below its bound.
below-IsHistory :
    (n b : ℕ) (es : List FeaturePolicyAuditEntry)
    → IsHistory n es
    → (m : ℕ) × (m ≤ b) × IsHistory m (below b es)
below-IsHistory n b [] h = (0, omega arith, refl)
below-IsHistory n b (e ∷ es) (r, base, s, h) = elim (Bool-cases (ltb e.revision b)) [
  | inl q ↦
      (n, ground arith, rw (q, below_all e.base_revision b es h (ground arith)) (r, base, s, h))
  | inr q ↦ rw q (below-IsHistory e.base_revision b es h)
]

last-le :
    (n k b : ℕ) (es : List FeaturePolicyAuditEntry)
    → IsHistory n es
    → last_revision (take k es) ≡ some b
    → b ≤ n
last-le n zero b es h q = cc
last-le n (suc k) b [] h q = cc
last-le n (suc zero) b (e ∷ es) (r, base, s, h) q = ground arith
last-le n (suc (suc k)) b (e ∷ []) (r, base, s, h) q = ground arith
last-le n (suc (suc k)) b (e ∷ f ∷ es) (r, base, s, h) q =
    omega (arith, last-le e.base_revision (suc k) b (f ∷ es) h q)

-- After a page of a history, what is below the page's last revision is the rest.
below-last :
    (n k b : ℕ) (es : List FeaturePolicyAuditEntry)
    → IsHistory n es
    → last_revision (take k es) ≡ some b
    → below b es ≡ drop k es
below-last n zero b es h q = cc
below-last n (suc k) b [] h q = cc
below-last n (suc zero) b (e ∷ es) (r, base, s, h) q =
    let same : e.revision ≡ b = ground arith in
    let not_below : ltb e.revision b ≡ false = ground arith in
    rw (not_below, below_all e.base_revision b es h (omega arith)) refl
below-last n (suc (suc k)) b (e ∷ []) (r, base, s, h) q =
    let not_below : ltb e.revision b ≡ false = ground arith in rw not_below refl
below-last n (suc (suc k)) b (e ∷ f ∷ es) (r, base, s, h) q =
    let le = last-le e.base_revision (suc k) b (f ∷ es) h q in
    let not_below : ltb e.revision b ≡ false = ground arith in
    rw not_below (below-last e.base_revision (suc k) b (f ∷ es) h q)

-- An entry that a smaller bound leaves, a larger one does.
below_twice :
    (n b c : ℕ) (es : List FeaturePolicyAuditEntry) → b ≤ c → below b (below c es) ≡ below b es
below_twice n b c [] l = refl
below_twice n b c (e ∷ es) l = elim (Bool-cases (ltb e.revision c)) [
  | inl q ↦ rw (q, below_twice n b c es l) refl
  | inr q ↦
      let not_below : ltb e.revision b ≡ false = ground arith in
      rw (q, not_below) (below_twice n b c es l)
]

last_revision-some :
    (es : List FeaturePolicyAuditEntry) → 1 ≤ length es → (b : ℕ) × (last_revision es ≡ some b)
last_revision-some [] h = let nothing : ⊥ = omega arith in elim nothing [ ]
last_revision-some (e ∷ []) h = (e.revision, refl)
last_revision-some (e ∷ f ∷ es) h = last_revision-some (f ∷ es) (omega arith)

-- What a page leaves for the pages after it.
abbrev pub after_page : Option ℕ → List FeaturePolicyAuditEntry → List FeaturePolicyAuditEntry
after_page none entries = []
after_page (some b) entries = eligible (some b) entries

-- What is below the last revision of a page of the eligible entries is the same, eligible or not.
below-eligible :
    (before : Option ℕ) (n k b : ℕ) (es : List FeaturePolicyAuditEntry)
    → IsHistory n es
    → last_revision (take k (eligible before es)) ≡ some b
    → eligible (some b) es ≡ drop k (eligible before es)
unfolding eligible
below-eligible none n k b es h q = below-last n k b es h q
below-eligible (some c) n k b es h q =
    let (m, le, h') = below-IsHistory n c es h in
    sym (below_twice n b c es (omega (arith, last-le m k b (below c es) h' q)))
    ∙ below-last m k b (below c es) h' q

page_of-rest :
    (before : Option ℕ) (n k : ℕ) (es : List FeaturePolicyAuditEntry)
    → IsHistory n es
    → 1 ≤ k
    → let p = page_of (eligible before es) k in
      p.items ++ after_page p.next_before_revision es ≡ eligible before es
unfolding page_of
page_of-rest before n k es h positive =
    let xs = eligible before es in
    let size = length-take k xs in
    elim (Bool-cases (ltb (length (take k xs)) (length xs) && ltb 0 (length (take k xs)))) [
      | inr q ↦ rw q (append_nil (take k xs) ∙ take_all k xs (ground (arith, size)))
      | inl q ↦
          let (b, last) = last_revision-some (take k xs) (ground arith) in
          rw (q, last)
            (ap (λ l. take k xs ++ l) (below-eligible before n k b es h last)
              ∙ append-take-drop k xs)
    ]

-- A page of a contiguous store has at most `limit` entries and at most a hundred; and its entries, followed by those that a
-- request from its `nextBeforeRevision` can reach, none if it gives none, are just the
-- entries that it could choose from, in their order. So no page skips or repeats an entry.
pub history_page_rest :
    (s : MemoryFeaturePolicyStore) (before : Option ℕ) (limit : ℕ) (p : HistoryPage)
    → IsContiguous s
    → history s before limit ≡ ok p
    → (length p.items ≤ limit)
      × (length p.items ≤ 100)
      × (p.items ++ after_page p.next_before_revision s.entries ≡ eligible before s.entries)
unfolding history parse_history_input page_of
history_page_rest s before limit p h e =
    let page : page_of (eligible before s.entries) (min limit 100) ≡ p = ground arith in
    let positive : 1 ≤ limit = ground arith in
    let size = length-take (min limit 100) (eligible before s.entries) in
    subst
      (λ (x : HistoryPage).
        (length x.items ≤ limit)
        × (length x.items ≤ 100)
        × (x.items ++ after_page x.next_before_revision s.entries ≡ eligible before s.entries))
      page
      (
        omega (arith, size),
        omega (arith, size),
        page_of-rest before s.snapshot.revision (min limit 100) s.entries h.ordered (omega arith),
      )
