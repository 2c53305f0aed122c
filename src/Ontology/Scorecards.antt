-- ===== src/Ontology/Scorecards.antt =====
-- quality.py: the families of scores and the validator of `Scorecard`, by the fields that it reads.
pub mod Families
use econiq_ai.Prelude.{
  ℕ, ◌≡◌, Bool, true, false, not, ◌&&◌, ◌||◌, Option, none, some, List, [], ◌∷◌, String,
  value_error, Result, ok, err, if◌then◌else◌, any, all, str_eq,
}
use econiq_ai.Ontology.Edges.{EntityType, process, asset, EntityRef, same_entity}

-- `ScoreFamily` of enums.py
pub data ScoreFamily : Type 0 where
  thesis_quality asset_quality trade_quality : ScoreFamily

-- The values of `ThesisQualityDimension` and `AssetQualityDimension` of enums.py
abbrev pub thesis_dimensions : List String
thesis_dimensions =
    "logical_coherence" ∷ "accumulated_evidence" ∷ "state_confidence" ∷ "historical_precedent"
    ∷ "counterfactual_robustness" ∷ "evidence_independence" ∷ "causal_coherence" ∷ "data_quality"
    ∷ "contradiction" ∷ "uncertainty" ∷ []

abbrev pub asset_dimensions : List String
asset_dimensions =
    "capability_fit" ∷ "process_exposure" ∷ "operating_leverage" ∷ "first_mover_advantage"
    ∷ "vertical_integration" ∷ "market_share" ∷ "balance_sheet" ∷ "valuation"
    ∷ "institutional_positioning" ∷ "technical_confirmation" ∷ []

abbrev pub family_dimensions : ScoreFamily → List String
family_dimensions thesis_quality = thesis_dimensions
family_dimensions asset_quality = asset_dimensions
family_dimensions trade_quality = []

abbrev pub family_subjects : ScoreFamily → List EntityType
family_subjects thesis_quality = process ∷ []
family_subjects asset_quality = asset ∷ []
family_subjects trade_quality = []

abbrev pub names_member : List String → String → Bool
names_member names d = any (λ n. str_eq d n) names

abbrev pub distinct_names : List String → Bool
distinct_names [] = true
distinct_names (d ∷ rest) = not (names_member rest d) && distinct_names rest

-- `not allowed`
abbrev pub has_none : List String → Bool
has_none [] = true
has_none (d ∷ rest) = false

-- A dimension is its name; of the composite only whether it is given, and how it was derived.
pub record Scorecard : Type 0 where
  pub subject : EntityRef
  pub family : ScoreFamily
  pub dimensions : List String
  pub has_composite : Bool
  pub composite_method : Option String

abbrev pub has_method : Option String → Bool
has_method none = false
has_method (some name) = true

-- `_dimensions_belong_to_family`
unfoldable pub dimensions_belong_to_family : Scorecard → Result Scorecard
dimensions_belong_to_family c =
    if has_none (family_dimensions c.family)
    then err value_error
    else if not (all (names_member (family_dimensions c.family)) c.dimensions)
    then err value_error
    else if not (distinct_names c.dimensions)
    then err value_error
    else if not (any (λ t. same_entity c.subject.entity_type t) (family_subjects c.family))
    then err value_error
    else if c.has_composite && not (has_method c.composite_method)
    then err value_error
    else ok c
