-- ===== src/Evidence/Clustering/Counts.antt =====
-- The counts of `evaluate_clustering` of clustering_metrics.py.
use econiq_ai.Prelude.Sorting.{In-sort}
use econiq_ai.Prelude.{
  str_eq_refl, inl, inr, ℕ, zero, suc, ◌+◌, ◌-◌, ◌*◌, ◌/◌, ◌≤◌, ◌≡◌, refl, ap, ◌∙◌, subst, Bool,
  true, false, not, List, [], ◌∷◌, String, arith, length, count, map, In,
}
use econiq_ai.Evidence.Clustering.{
  Clustering, Membership, cluster_of, is_assigned, same_cluster, scored, Tally, judge,
  judge_against, judge_pairs, no_pairs, evaluate_clustering, membership,
}

abbrev pairs_among : ℕ → ℕ
pairs_among zero = 0
pairs_among (suc n) = n + pairs_among n

twice_pairs : (n : ℕ) → 2 * pairs_among (suc n) ≡ suc n * n
twice_pairs zero = refl
twice_pairs (suc n) = grind (arith, twice_pairs n)

one_less : (n : ℕ) → suc n - 1 ≡ n
one_less n = omega arith

half_product : (n : ℕ) → n * (n - 1) / 2 ≡ pairs_among n
half_product zero = refl
half_product (suc n) =
    ap (λ k. suc n * k / 2) (one_less n) ∙ halved (suc n * n) (pairs_among (suc n)) (twice_pairs n)
  where
    halved : (a b : ℕ) → 2 * b ≡ a → a / 2 ≡ b
    halved a b e = omega (arith, e)

abbrev pub judged : Tally → ℕ
judged t = t.true_positives + t.false_positives + t.false_negatives

judge-le : (s p : Bool) (t : Tally) → judged (judge s p t) ≤ judged t + 1
judge-le true true t = omega arith
judge-le false true t = omega arith
judge-le true false t = omega arith
judge-le false false t = omega arith

module _ (gold_of predicted_of : Membership) where
  judge_against-le :
      (left : String) (rest : List String) (t : Tally)
      → judged (judge_against gold_of predicted_of left rest t) ≤ judged t + length rest
  unfolding judge_against
  judge_against-le left [] t = omega arith
  judge_against-le left (right ∷ rest) t =
      let next = judge (same_cluster gold_of left right) (same_cluster predicted_of left right) t in
      omega (
        arith,
        judge_against-le left rest next,
        judge-le (same_cluster gold_of left right) (same_cluster predicted_of left right) t,
      )

  judge_pairs-le :
      (claims : List String) (t : Tally)
      → judged (judge_pairs gold_of predicted_of claims t) ≤ judged t + pairs_among (length claims)
  unfolding judge_pairs
  judge_pairs-le [] t = omega arith
  judge_pairs-le (left ∷ rest) t =
      let next = judge_against gold_of predicted_of left rest t in
      omega (arith, judge_pairs-le rest next, judge_against-le left rest t)

-- Every pair of claims is counted once at most: true positives, false positives and false
-- negatives together are at most the pairs evaluated, n * (n - 1) / 2 for n scored claims.
evaluate_clustering-le :
    (predicted gold : Clustering)
    → judged (evaluate_clustering predicted gold).tally
      ≤ (evaluate_clustering predicted gold).pairs_evaluated
unfolding evaluate_clustering
evaluate_clustering-le predicted gold =
    let claims = scored (membership gold) in
    omega (
      arith,
      judge_pairs-le (membership gold) (membership predicted) claims no_pairs,
      half_product (length claims),
    )

-- No errors so far.
abbrev IsFlawless : Tally → Type 0
IsFlawless t = (t.false_positives ≡ 0) × (t.false_negatives ≡ 0)

judge-IsFlawless : (s : Bool) (t : Tally) → IsFlawless t → IsFlawless (judge s s t)
judge-IsFlawless true t h = h
judge-IsFlawless false t h = h

module _ (table : Membership) where
  judge_against-IsFlawless :
      (left : String) (rest : List String) (t : Tally)
      → IsFlawless t
      → IsFlawless (judge_against table table left rest t)
  unfolding judge_against
  judge_against-IsFlawless left [] t h = h
  judge_against-IsFlawless left (right ∷ rest) t h =
      judge_against-IsFlawless left rest _ (judge-IsFlawless (same_cluster table left right) t h)

  judge_pairs-IsFlawless :
      (claims : List String) (t : Tally)
      → IsFlawless t
      → IsFlawless (judge_pairs table table claims t)
  unfolding judge_pairs
  judge_pairs-IsFlawless [] t h = h
  judge_pairs-IsFlawless (left ∷ rest) t h =
      judge_pairs-IsFlawless rest _ (judge_against-IsFlawless left rest t h)

-- A claim with an entry is assigned.
entry-is_assigned :
    (claim : String) (table : Membership)
    → In claim (map (λ (entry : String × String). entry.0) table)
    → is_assigned table claim ≡ true
unfolding cluster_of
entry-is_assigned claim [] m = elim m [ ]
entry-is_assigned claim ((key, id) ∷ rest) (inl e) =
    subst (λ k. is_assigned ((k, id) ∷ rest) claim ≡ true) e
      (rw (str_eq_refl claim, is_assigned) refl)
entry-is_assigned claim ((key, id) ∷ rest) (inr m) = ground (arith, entry-is_assigned claim rest m)

count_none :
    (p : String → Bool) (xs : List String)
    → ((x : String) → In x xs → p x ≡ true)
    → count (λ x. not (p x)) xs ≡ 0
count_none p [] h = refl
count_none p (x ∷ xs) h = ground (arith, h x (inl refl), count_none p xs (λ y m. h y (inr m)))

-- A clustering that is evaluated against itself has no false positive, no false negative and no
-- claim unassigned.
evaluate_clustering_self :
    (gold : Clustering)
    → ((evaluate_clustering gold gold).tally.false_positives ≡ 0)
      × ((evaluate_clustering gold gold).tally.false_negatives ≡ 0)
      × ((evaluate_clustering gold gold).unassigned ≡ 0)
unfolding evaluate_clustering
evaluate_clustering_self gold =
    let table = membership gold in
    let (p, n) = judge_pairs-IsFlawless table (scored table) no_pairs (refl, refl) in
    (
      p,
      n,
      count_none (is_assigned table) (scored table)
          (λ x m. entry-is_assigned x table (In-sort _ x _ m)),
    )
