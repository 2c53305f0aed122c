-- ===== src/Market/Outcomes.antt =====
-- outcomes.py: what happened to an asset after an episode. Prices are natural numbers in a unit small
-- enough, and a float that the source computes from them is an exact ratio: a return of r is the ratio
-- 1 + r. Of `Outcome` the volatility, a square root, is left out.
pub mod Horizons
pub mod Drawdown
pub mod Attained
pub mod Base
use econiq_ai.Prelude.Sorting.{sort_by}
use econiq_ai.Prelude.{
  ℕ, String, zero, suc, ◌+◌, ◌-◌, ◌*◌, min, Bool, true, false, Option, none, some, List, [], ◌∷◌,
  ltb, leb, ◌&&◌, ◌||◌, not, str_eq, any, if◌then◌else◌, length, filter, get_or, map,
}

pub record Bar : Type 0 where
  pub observed_at : ℕ
  pub adj_close : Option ℕ

pub record Episode : Type 0 where
  pub asset_id : String
  pub observed_at : ℕ
  pub label : Option String

pub record Ratio : Type 0 where
  pub numerator : ℕ
  pub denominator : ℕ

-- the ratio of the asset over the window, and that of the benchmark, which is taken from it
pub record Relative : Type 0 where
  pub own : Ratio
  pub benchmark : Ratio

pub record Outcome : Type 0 where
  pub episode : Episode
  pub returns : List (String × Ratio)
  pub max_drawdown : Option Ratio
  pub max_upside : Option Ratio
  pub benchmark_relative : List (String × Relative)
  pub bars_after : ℕ
  pub unavailable : List String

-- `HORIZONS`
abbrev pub horizons : List (String × ℕ)
horizons = ("1m", 21) ∷ ("3m", 63) ∷ ("6m", 126) ∷ ("12m", 252) ∷ ("24m", 504) ∷ []

-- `Outcome.censored`
pub is_censored : Outcome → Bool
is_censored outcome = ltb 0 (length outcome.unavailable)

abbrev pub earlier : Bar → Bar → Bool
earlier a b = ltb a.observed_at b.observed_at

-- `drop_nulls("adj_close")`, and the column
unfoldable pub closes : List Bar → List ℕ
closes [] = []
closes (bar ∷ bars) =
    let rest = closes bars in elim bar.adj_close [ none ↦ rest | some c ↦ c ∷ rest ]

-- `_after`
unfoldable pub after : List Bar → ℕ → List ℕ
unfolding closes
after prices moment =
    closes (sort_by earlier (filter (λ (bar : Bar). ltb moment bar.observed_at) prices))

-- `[-1]` of a column, if it is not empty
unfoldable pub last : List ℕ → Option ℕ
last [] = none
last (c ∷ []) = some c
last (c ∷ d ∷ cs) = last (d ∷ cs)

unfoldable pub positive : Option ℕ → Option ℕ
positive none = none
positive (some zero) = none
positive (some (suc c)) = some (suc c)

abbrev pub is_closed : Bar → Bool
is_closed bar = elim bar.adj_close [ none ↦ false | some c ↦ true ]

-- `_price_at`: here the rows without a close are dropped first.
unfoldable pub price_at : List Bar → ℕ → Option ℕ
unfolding closes last positive
price_at prices moment = positive (
    last (
      closes (
        sort_by earlier
          (filter is_closed (filter (λ (bar : Bar). leb bar.observed_at moment) prices)))))

-- `len(series) < span * MIN_COVERAGE`, with 0.8 as eight tenths
unfoldable pub is_short : List ℕ → ℕ → Bool
is_short series span = ltb (10 * length series) (8 * span)

-- `series[min(span, len(series)) - 1]`, of a series that is not empty
unfoldable pub end_price : List ℕ → ℕ → ℕ
end_price series span = get_or series (min span (length series) - 1) 0

-- the loop over the horizons: the returns and the unavailable names
unfoldable pub returns_over : List ℕ → ℕ → List (String × ℕ) → List (String × Ratio) × List String
unfolding is_short end_price
returns_over series base [] = ([], [])
returns_over series base ((name, span) ∷ rest) =
    let (returns, unavailable) = returns_over series base rest in
    if is_short series span then (returns, name ∷ unavailable) else (
      (name, record { numerator = end_price series span; denominator = base }) ∷ returns,
      unavailable,
    )

unfoldable pub ratio_of : String → List (String × Ratio) → Option Ratio
ratio_of name [] = none
ratio_of name ((key, ratio) ∷ returns) =
    if str_eq key name then some ratio else ratio_of name returns

unfoldable pub relative_over :
    List ℕ → ℕ → List (String × Ratio) → List (String × ℕ) → List (String × Relative)
unfolding is_short end_price ratio_of
relative_over marks base returns [] = []
relative_over marks base returns ((name, span) ∷ rest) =
    let more = relative_over marks base returns rest in
    elim (ratio_of name returns) [
      | none ↦ more
      | some own ↦
          if is_short marks span
          then more
          else (
            name,
            record {
              own = own;
              benchmark = record { numerator = end_price marks span; denominator = base };
            },
          )
            ∷ more
    ]

unfoldable pub relative_to :
    Option (List Bar) → ℕ → List (String × Ratio) → List (String × Relative)
unfolding after price_at relative_over
relative_to none moment returns = []
relative_to (some benchmark) moment returns = elim (price_at benchmark moment) [
  | none ↦ []
  | some base ↦
      if leb (length (after benchmark moment)) 0
      then []
      else relative_over (after benchmark moment) base returns horizons
]

-- `worst = min(worst, price / peak - 1)`: `a < b` is compared as the ratios 1 + a and 1 + b.
unfoldable pub lower : Ratio → Ratio → Ratio
lower worst now =
    if ltb (now.numerator * worst.denominator) (worst.numerator * now.denominator)
    then now
    else worst

abbrev pub max : ℕ → ℕ → ℕ
max a b = if ltb a b then b else a

-- the loop of `_max_drawdown`, from the peak and the worst so far
unfoldable pub drawdown_from : ℕ → Ratio → List ℕ → Ratio
unfolding lower
drawdown_from peak worst [] = worst
drawdown_from peak worst (price ∷ prices) =
    let top = max peak price in
    drawdown_from top
      (if ltb 0 top then lower worst (record { numerator = price; denominator = top }) else worst)
      prices

abbrev pub no_change : Ratio
no_change = record { numerator = 1; denominator = 1 }

unfoldable pub max_drawdown : List ℕ → Option Ratio
unfolding drawdown_from
max_drawdown [] = none
max_drawdown (price ∷ []) = none
max_drawdown (price ∷ next ∷ prices) = some (drawdown_from price no_change (price ∷ next ∷ prices))

unfoldable pub maximum : ℕ → List ℕ → ℕ
maximum top [] = top
maximum top (price ∷ prices) = maximum (max top price) prices

unfoldable pub max_upside : List ℕ → ℕ → Option Ratio
unfolding maximum
max_upside [] base = none
max_upside (price ∷ prices) zero = none
max_upside (price ∷ prices) (suc base) =
    some (record { numerator = maximum price prices; denominator = suc base })

unfoldable pub unanswered : Episode → ℕ → Outcome
unanswered episode bars = record {
  episode = episode;
  returns = [];
  max_drawdown = none;
  max_upside = none;
  benchmark_relative = [];
  bars_after = bars;
  unavailable = map (λ (h : String × ℕ). h.0) horizons;
}

unfoldable pub answered : Episode → List ℕ → ℕ → Option (List Bar) → Outcome
unfolding returns_over relative_to max_drawdown max_upside
answered episode series base benchmark =
    let found = returns_over series base horizons in
    record {
      episode = episode;
      returns = found.0;
      max_drawdown = max_drawdown series;
      max_upside = max_upside series base;
      benchmark_relative = relative_to benchmark episode.observed_at found.0;
      bars_after = length series;
      unavailable = found.1;
    }

unfoldable pub compute : Episode → List Bar → Option (List Bar) → Outcome
unfolding after price_at unanswered answered
compute episode prices benchmark =
    let series = after prices episode.observed_at in
    elim (price_at prices episode.observed_at) [
      | none ↦ unanswered episode (length series)
      | some base ↦
          if leb (length series) 0
          then unanswered episode (length series)
          else answered episode series base benchmark
    ]

-- `frozen_before`
pub frozen_before : Episode → ℕ → Bool
frozen_before episode computed_at = ltb episode.observed_at computed_at
