-- ===== src/Evidence/Dependence.antt =====
-- dependence.py: `structural_dependencies` and `undecided_pairs`. A confidence is in tenths, and
-- the rationale and the kind, which every structural finding shares, are left out.
pub mod Pairs
use econiq_ai.Prelude.{
  ℕ, ◌≡◌, Bool, true, false, not, ◌&&◌, ◌||◌, Option, none, some, List, [], ◌∷◌, ◌++◌, String, ◌==◌,
  if◌then◌else◌, any, str_eq,
}

pub record EvidenceItem : Type 0 where
  pub event_id : ℕ
  pub document_ids : List ℕ
  pub publishers : List String
  pub independent_source_count : ℕ

pub record Dependence : Type 0 where
  pub source_event_id : ℕ
  pub dependent_event_id : ℕ
  pub confidence : ℕ
  pub detected_by : String

-- Whether the intersection of two sets has a member.
abbrev pub shares_document : EvidenceItem → EvidenceItem → Bool
shares_document a b = any (λ i. any (λ j. i == j) b.document_ids) a.document_ids

abbrev pub shares_publisher : EvidenceItem → EvidenceItem → Bool
shares_publisher a b = any (λ p. any (λ r. str_eq p r) b.publishers) a.publishers

abbrev pub finding : EvidenceItem → EvidenceItem → ℕ → Dependence
finding earlier later confidence = record {
  source_event_id = earlier.event_id;
  dependent_event_id = later.event_id;
  confidence = confidence;
  detected_by = "computed";
}

-- The inner loop: `earlier` against every later item.
unfoldable pub against_later : EvidenceItem → List EvidenceItem → List Dependence
against_later earlier [] = []
against_later earlier (later ∷ rest) =
    if shares_document earlier later
    then finding earlier later 10 ∷ against_later earlier rest
    else if shares_publisher earlier later
    then finding earlier later 6 ∷ against_later earlier rest
    else against_later earlier rest

unfoldable pub structural_dependencies : List EvidenceItem → List Dependence
unfolding against_later
structural_dependencies [] = []
structural_dependencies (earlier ∷ rest) =
    against_later earlier rest ++ structural_dependencies rest

-- `frozenset({a, b}) == dependence.pair`
abbrev pub is_pair : ℕ → ℕ → Dependence → Bool
is_pair a b d =
    ((a == d.source_event_id) && (b == d.dependent_event_id))
    || ((a == d.dependent_event_id) && (b == d.source_event_id))

abbrev pub settled : List Dependence → ℕ → ℕ → Bool
settled known a b = any (is_pair a b) known

unfoldable pub undecided_with : List Dependence → EvidenceItem → List EvidenceItem → List (ℕ × ℕ)
undecided_with known earlier [] = []
undecided_with known earlier (later ∷ rest) =
    if settled known earlier.event_id later.event_id
    then undecided_with known earlier rest
    else (earlier.event_id, later.event_id) ∷ undecided_with known earlier rest

unfoldable pub undecided_pairs : List EvidenceItem → List Dependence → List (ℕ × ℕ)
unfolding undecided_with
undecided_pairs [] known = []
undecided_pairs (earlier ∷ rest) known =
    undecided_with known earlier rest ++ undecided_pairs rest known
