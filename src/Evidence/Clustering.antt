-- ===== src/Evidence/Clustering.antt =====
-- clustering_metrics.py: how far a predicted clustering agrees with a gold one, pair by pair. A
-- clustering is a dictionary: a list of clusters, each an id with its claims.
pub mod Counts
use Prim.Native.Nat.{lt, eq, gt}
use Prim.Native.String.{compare}
use econiq_ai.Prelude.{
  ℕ, ◌+◌, ◌-◌, ◌*◌, ◌/◌, ◌≡◌, Bool, true, false, not, ◌&&◌, ◌||◌, Option, none, some, List, [], ◌∷◌,
  String, ltb, ◌==◌, if◌then◌else◌, count, length, map, str_eq,
}
use econiq_ai.Prelude.Sorting.{sort_by}

abbrev pub Clustering : Type 0
Clustering = List (String × List String)

-- The dictionary of `_membership`: the cluster id of each claim.
abbrev pub Membership : Type 0
Membership = List (String × String)

unfoldable pub cluster_of : String → Membership → Option String
cluster_of claim [] = none
cluster_of claim ((key, id) ∷ rest) = if str_eq key claim then some id else cluster_of claim rest

-- `membership[member] = cluster_id`
unfoldable pub put : String → String → Membership → Membership
put claim id [] = (claim, id) ∷ []
put claim id ((key, old) ∷ rest) =
    if str_eq key claim then (key, id) ∷ rest else (key, old) ∷ put claim id rest

unfoldable pub put_all : String → List String → Membership → Membership
unfolding put
put_all id [] table = table
put_all id (claim ∷ rest) table = put_all id rest (put claim id table)

unfoldable pub membership_from : Clustering → Membership → Membership
unfolding put_all
membership_from [] table = table
membership_from ((id, members) ∷ rest) table = membership_from rest (put_all id members table)

unfoldable pub membership : Clustering → Membership
unfolding membership_from
membership clustering = membership_from clustering []

abbrev pub is_assigned : Membership → String → Bool
is_assigned table claim = elim (cluster_of claim table) [ none ↦ false | some id ↦ true ]

-- Two claims in one cluster.
abbrev pub same_cluster : Membership → String → String → Bool
same_cluster table left right = elim (cluster_of left table) [
  | none ↦ false
  | some a ↦ elim (cluster_of right table) [ none ↦ false | some b ↦ str_eq a b ]
]

-- `sorted`, by code points.
abbrev pub text_before : String → String → Bool
text_before a b = elim (compare a b) [ lt ↦ true | eq ↦ false | gt ↦ false ]

abbrev pub scored : Membership → List String
scored gold_of = sort_by text_before (map (λ (entry : String × String). entry.0) gold_of)

pub record Tally : Type 0 where
  pub true_positives : ℕ
  pub false_positives : ℕ
  pub false_negatives : ℕ

-- One round of the loop over pairs.
abbrev pub judge : Bool → Bool → Tally → Tally
judge true true t = record t { true_positives = t.true_positives + 1 }
judge false true t = record t { false_positives = t.false_positives + 1 }
judge true false t = record t { false_negatives = t.false_negatives + 1 }
judge false false t = t

module _ (gold_of predicted_of : Membership) where
  unfoldable pub judge_against : String → List String → Tally → Tally
  judge_against left [] t = t
  judge_against left (right ∷ rest) t =
      judge_against left rest
        (judge (same_cluster gold_of left right) (same_cluster predicted_of left right) t)

  -- `combinations(scored, 2)`
  unfoldable pub judge_pairs : List String → Tally → Tally
  unfolding judge_against
  judge_pairs [] t = t
  judge_pairs (left ∷ rest) t = judge_pairs rest (judge_against left rest t)

pub record ClusteringMetrics : Type 0 where
  pub pairs_evaluated : ℕ
  pub tally : Tally
  pub predicted_cluster_count : ℕ
  pub gold_cluster_count : ℕ
  pub unassigned : ℕ

abbrev pub no_pairs : Tally
no_pairs = record { true_positives = 0; false_positives = 0; false_negatives = 0 }

-- The denominators of `precision` and `recall`.
unfoldable pub merged_pairs : ClusteringMetrics → ℕ
merged_pairs m = m.tally.true_positives + m.tally.false_positives

unfoldable pub gold_pairs : ClusteringMetrics → ℕ
gold_pairs m = m.tally.true_positives + m.tally.false_negatives

unfoldable pub metrics_of : Clustering → Clustering → Membership → Membership → ClusteringMetrics
unfolding judge_pairs
metrics_of predicted gold gold_of predicted_of = record {
  pairs_evaluated = length (scored gold_of) * (length (scored gold_of) - 1) / 2;
  tally = judge_pairs gold_of predicted_of (scored gold_of) no_pairs;
  predicted_cluster_count = length predicted;
  gold_cluster_count = length gold;
  unassigned = count (λ claim. not (is_assigned predicted_of claim)) (scored gold_of);
}

unfoldable pub evaluate_clustering : Clustering → Clustering → ClusteringMetrics
unfolding metrics_of membership
evaluate_clustering predicted gold =
    metrics_of predicted gold (membership gold) (membership predicted)
