-- ===== src/Llm/Costs.antt =====
-- costs.py: the price of a call. The source's floats are exact here: prices are in cents for a million
-- tokens, the multipliers of the cache in hundredths, and a cost in hundred-millionths of a cent.
use econiq_ai.Prelude.{
  ℕ, ◌+◌, ◌*◌, Bool, Option, none, some, List, [], ◌∷◌, ◌==◌, ◌&&◌, if◌then◌else◌, length, all,
}
use econiq_ai.Prelude.Text.{Text, codes, text_eq}
use econiq_ai.Llm.Types.{TokenUsage}

pub record ModelPricing : Type 0 where
  pub input_per_mtok : ℕ
  pub output_per_mtok : ℕ
  pub cache_read_multiplier : ℕ
  pub cache_write_multiplier : ℕ

abbrev pub pricing : ℕ → ℕ → ModelPricing
pricing input output = record {
  input_per_mtok = input;
  output_per_mtok = output;
  cache_read_multiplier = 10;
  cache_write_multiplier = 125;
}

-- `PRICING`
abbrev pub prices : List (Text × ModelPricing)
prices =
    (codes "claude-opus-5", pricing 500 2500)
    ∷ (codes "claude-sonnet-5", pricing 300 1500)
    ∷ (codes "claude-haiku-4-5", pricing 100 500)
    ∷ []

unfoldable pub price_of : Text → List (Text × ModelPricing) → Option ModelPricing
price_of model [] = none
price_of model ((name, pricing) ∷ rest) =
    if text_eq name model then some pricing else price_of model rest

abbrev pub dash : ℕ
dash = 45

-- The text in front of the last dash and the text behind it, as `rsplit("-", 1)` gives them.
unfoldable pub split_last : Text → Option (Text × Text)
split_last [] = none
split_last (c ∷ s) = elim (split_last s) [
  | some (front, back) ↦ some (c ∷ front, back)
  | none ↦ if c == dash then some ([], s) else none
]

module _ (is_digit : ℕ → Bool) where
  -- `_strip_snapshot`; `is_digit` is what `str.isdigit` asks of each character.
  unfoldable pub strip_snapshot : Text → Text
  unfolding split_last
  strip_snapshot model = elim (split_last model) [
    | none ↦ model
    | some (front, back) ↦ if all is_digit back && (length back == 8) then front else model
  ]

  unfoldable pub pricing_for : Text → Option ModelPricing
  unfolding strip_snapshot price_of
  pricing_for model = elim (price_of model prices) [
    | some pricing ↦ some pricing
    | none ↦ price_of (strip_snapshot model) prices
  ]

  unfoldable pub estimate_cost_usd : Text → TokenUsage → Option ℕ
  unfolding pricing_for
  estimate_cost_usd model usage = elim (pricing_for model) [
    | none ↦ none
    | some pricing ↦ some (
        usage.input_tokens * pricing.input_per_mtok * 100
        + usage.output_tokens * pricing.output_per_mtok * 100
        + usage.cache_read_input_tokens * pricing.input_per_mtok * pricing.cache_read_multiplier
        + usage.cache_creation_input_tokens * pricing.input_per_mtok
          * pricing.cache_write_multiplier)
  ]
