-- ===== src/Index/Summary/Laws.antt =====
-- A block summary names every range of pages that can hold a key of the query, and no other.
use Prim.Native.Nat.Ordering.{gt}
use rnov_modular_db.Base.{
  ◌≡◌, ◌≢◌, refl, ◌↔◌, ◌⊎◌, inl, inr, true, Option, none, some, List, [], ◌∷◌, ◌++◌, In, All, sym,
  subst, Bool-cases, Option-cases, arith,
}
use rnov_modular_db.Common.{ok, err, invalid_input}
use rnov_modular_db.Index.Key.{IndexKey, key_order}
use rnov_modular_db.Index.Summary.{
  BlockRange, IndexKeyFamily, family_of, family_eq, BlockSummary, BlockSummaryIndex, exceeds,
  insert_summary, overlaps, candidates, range_candidates,
}

family_eq_iff : (f g : IndexKeyFamily) → (family_eq f g ≡ true) ↔ (f ≡ g)
family_eq_iff f g = ground arith

-- The order of keys, as `<=` reads it.
abbrev pub NotAbove : IndexKey → IndexKey → Type 0
NotAbove a b = ¬ (key_order.cmp a b ≡ gt)

-- A summary has its keys in order, and they are of the family of the index.
abbrev pub IsSound : Option IndexKeyFamily → BlockSummary → Type 0
IsSound family s =
    NotAbove s.min_key s.max_key
    × (family ≡ some (family_of s.min_key))
    × (family_of s.max_key ≡ family_of s.min_key)

abbrev pub IsUniform : BlockSummaryIndex → Type 0
IsUniform ix = All (IsSound ix.key_family) ix.summaries

AllSound-append :
    (f : Option IndexKeyFamily) (s : BlockSummary) (ss : List BlockSummary)
    → All (IsSound f) ss
    → IsSound f s
    → All (IsSound f) (ss ++ s ∷ [])
AllSound-append f s [] h k = (k, tt)
AllSound-append f s (t ∷ ss) h k = (h.0, AllSound-append f s ss h.1 k)

-- An index without a family has no summaries.
no_family :
    (g : Option IndexKeyFamily) (ss : List BlockSummary)
    → All (IsSound none) ss
    → All (IsSound g) ss
no_family g [] h = tt
no_family g (s ∷ ss) h = absurd (cc (h.0.1))

-- A summary is stored exactly if its keys are of one family, in order, and of the family of the
-- index, where it has one; a refusal changes nothing. Either way a uniform index stays so.
pub insert_summary_outcome :
    (pages : BlockRange) (lo hi : IndexKey) (ix : BlockSummaryIndex)
    → IsUniform ix
    → IsUniform (insert_summary pages lo hi ix).1
      × ((((family_of lo ≢ family_of hi)
              ⊎ (key_order.cmp lo hi ≡ gt)
              ⊎ ((f : IndexKeyFamily) × (ix.key_family ≡ some f) × (f ≢ family_of lo)))
            × (insert_summary pages lo hi ix ≡ (err invalid_input, ix)))
          ⊎ (((insert_summary pages lo hi ix).0 ≡ ok tt)
              × ((insert_summary pages lo hi ix).1.key_family ≡ some (family_of lo))
              × ((insert_summary pages lo hi ix).1.summaries
                  ≡ ix.summaries ++ record { pages = pages; min_key = lo; max_key = hi } ∷ [])))
unfolding insert_summary
insert_summary_outcome pages lo hi ix u =
    let s : BlockSummary = record { pages = pages; min_key = lo; max_key = hi } in
    elim (Bool-cases (family_eq (family_of lo) (family_of hi))) [
      | inr differ ↦ ground (arith, u, family_eq_iff (family_of lo) (family_of hi))
      | inl one ↦ elim (Bool-cases (exceeds lo hi)) [
        | inl above ↦ ground (arith, u)
        | inr fine ↦
            let stored : IsSound (some (family_of lo)) s =
              ground (arith, family_eq_iff (family_of lo) (family_of hi)) in
            elim (Option-cases ix.key_family) [
              | inl fresh ↦ ground (
                arith,
                stored,
                AllSound-append (some (family_of lo)) s ix.summaries
                    (no_family (some (family_of lo)) ix.summaries (rw fresh at u)) stored,
              )
              | inr (f, is) ↦ elim (Bool-cases (family_eq f (family_of lo))) [
                | inl agree ↦ ground (
                  arith,
                  family_eq_iff f (family_of lo),
                  AllSound-append (some (family_of lo)) s ix.summaries
                      (subst (λ g. All (IsSound g) ix.summaries)
                        (ground (arith, family_eq_iff f (family_of lo))) u)
                      stored,
                )
                | inr differ ↦ ground (arith, u, family_eq_iff f (family_of lo))
              ]
            ]
      ]
    ]

NotAbove-trans : (a b c : IndexKey) → NotAbove a b → NotAbove b c → NotAbove a c
NotAbove-trans a b c h k = λ above. ground (
  arith,
  key_order.lt_of_gt a c above,
  key_order.eq_of_cmp a b,
  key_order.eq_of_cmp b c,
  key_order.gt_of_lt c a,
  key_order.lt_trans a b c,
  key_order.gt_of_lt a c,
  above,
)

-- A key lies in both closed intervals.
abbrev pub Meets : IndexKey → IndexKey → BlockSummary → Type 0
Meets lower upper s =
    (k : IndexKey) × NotAbove s.min_key k
    × NotAbove k s.max_key
    × NotAbove lower k
    × NotAbove k upper

-- Two intervals overlap exactly if they have a key in common; the greater of the lower ends is one.
overlaps-Meets :
    (lower upper : IndexKey) (s : BlockSummary)
    → NotAbove lower upper
    → NotAbove s.min_key s.max_key
    → (overlaps lower upper s ≡ true) ↔ Meets lower upper s
overlaps-Meets lower upper s q h = (
  λ o. elim (Bool-cases (exceeds lower s.min_key)) [
    | inl above ↦ (
      lower,
      ground (arith, key_order.lt_of_gt lower s.min_key),
      ground arith,
      ground (arith, key_order.cmp_refl lower),
      q,
    )
    | inr below ↦
        (s.min_key, ground (arith, key_order.cmp_refl s.min_key), h, ground arith, ground arith)
  ],
  λ (k, a, b, c, d).
      ground (arith, NotAbove-trans lower k s.max_key c b, NotAbove-trans s.min_key k upper a d),
)

-- The pages of a summary that has a key of the query.
abbrev pub Candidate : IndexKey → IndexKey → BlockRange → List BlockSummary → Type 0
Candidate lower upper pages ss =
    (s : BlockSummary) × In s ss × (pages ≡ s.pages) × Meets lower upper s

later-Candidate :
    (lower upper : IndexKey) (pages : BlockRange) (t : BlockSummary) (ss : List BlockSummary)
    → Candidate lower upper pages ss
    → Candidate lower upper pages (t ∷ ss)
later-Candidate lower upper pages t ss (s', h, e, m) = (s', inr h, e, m)

candidates_sound :
    (f : Option IndexKeyFamily) (lower upper : IndexKey) (pages : BlockRange)
    (ss : List BlockSummary)
    → NotAbove lower upper
    → All (IsSound f) ss
    → In pages (candidates lower upper ss)
    → Candidate lower upper pages ss
candidates_sound f lower upper pages [] q u h = absurd h
candidates_sound f lower upper pages (s ∷ ss) q u h = elim (Bool-cases (overlaps lower upper s)) [
  | inl meets ↦ elim (rw (meets, candidates) at h) [
    | inl here ↦ (s, inl refl, here, (overlaps-Meets lower upper s q u.0.0).0 meets)
    | inr h' ↦
        later-Candidate lower upper pages s ss (candidates_sound f lower upper pages ss q u.1 h')
  ]
  | inr apart ↦
      later-Candidate lower upper pages s ss
        (candidates_sound f lower upper pages ss q u.1 (rw (apart, candidates) at h))
]

candidates_complete :
    (f : Option IndexKeyFamily) (lower upper : IndexKey) (s : BlockSummary) (ss : List BlockSummary)
    → NotAbove lower upper
    → All (IsSound f) ss
    → In s ss
    → Meets lower upper s
    → In s.pages (candidates lower upper ss)
candidates_complete f lower upper s [] q u h m = h
candidates_complete f lower upper s (t ∷ ss) q u (inl e) m = ground (
  arith,
  overlaps-Meets lower upper s q
      (subst (λ (r : BlockSummary). NotAbove r.min_key r.max_key) (sym e) u.0.0),
  m,
)
candidates_complete f lower upper s (t ∷ ss) q u (inr h) m =
    ground (arith, candidates_complete f lower upper s ss q u.1 h m)

candidates_exact :
    (f : Option IndexKeyFamily) (lower upper : IndexKey) (ss : List BlockSummary)
    → NotAbove lower upper
    → All (IsSound f) ss
    → (pages : BlockRange) → In pages (candidates lower upper ss) ↔ Candidate lower upper pages ss
candidates_exact f lower upper ss q u pages = (
  candidates_sound f lower upper pages ss q u,
  λ (s, h, e, m).
      subst (λ r. In r (candidates lower upper ss)) (sym e)
        (candidates_complete f lower upper s ss q u h m),
)

-- A query whose keys are of two families, in the wrong order, or of another family than the index
-- is refused. Otherwise the candidates are exactly the page ranges whose closed interval of keys has
-- a key in common with that of the query: no page that can hold a result is skipped.
pub range_candidates_exact :
    (lower upper : IndexKey) (ix : BlockSummaryIndex)
    → IsUniform ix
    → (((family_of lower ≢ family_of upper)
          ⊎ (key_order.cmp lower upper ≡ gt)
          ⊎ ((f : IndexKeyFamily) × (ix.key_family ≡ some f) × (f ≢ family_of lower)))
        × (range_candidates lower upper ix ≡ err invalid_input))
      ⊎ ((ranges : List BlockRange) × (range_candidates lower upper ix ≡ ok ranges)
          × ((pages : BlockRange) → In pages ranges ↔ Candidate lower upper pages ix.summaries))
unfolding range_candidates
range_candidates_exact lower upper ix u =
    elim (Bool-cases (family_eq (family_of lower) (family_of upper))) [
      | inr differ ↦ ground (arith, family_eq_iff (family_of lower) (family_of upper))
      | inl one ↦ elim (Bool-cases (exceeds lower upper)) [
        | inl above ↦ ground arith
        | inr fine ↦
            let q : NotAbove lower upper = ground arith in
            let found = candidates_exact ix.key_family lower upper ix.summaries q u in
            elim (Option-cases ix.key_family) [
              | inl fresh ↦ inr (candidates lower upper ix.summaries, ground arith, found)
              | inr (f, is) ↦ elim (Bool-cases (family_eq f (family_of lower))) [
                | inl agree ↦ inr (candidates lower upper ix.summaries, ground arith, found)
                | inr differ ↦ ground (arith, family_eq_iff f (family_of lower))
              ]
            ]
      ]
    ]
