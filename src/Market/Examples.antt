-- ===== src/Market/Examples.antt =====
-- The theorems about outcomes at concrete prices.
use econiq_ai.Prelude.{ℕ, refl, inl, inr, none, some, List, [], ◌∷◌, arith}
use econiq_ai.Market.Outcomes.{Bar, Episode, max_drawdown, no_change, after, compute}
use econiq_ai.Market.Outcomes.Drawdown.{AtMost, fall}
use econiq_ai.Market.Outcomes.Attained.{max_drawdown_exact, IsFall}
use econiq_ai.Market.Outcomes.Horizons.{compute-IsComplete, IsComplete}

-- a fall from 10 to 5 after a rise
max_drawdown_exact_example :
    AtMost (fall 10 5) no_change
    × AtMost (fall 10 5) (fall 10 6)
    × IsFall (8 ∷ 10 ∷ 5 ∷ 6 ∷ []) (fall 10 5)
unfolding max_drawdown
max_drawdown_exact_example =
    max_drawdown_exact (8 ∷ []) (5 ∷ 6 ∷ []) 10 6 (fall 10 5) refl (inr (inl refl)) (omega arith)

abbrev bar : ℕ → ℕ → Bar
bar moment close = record { observed_at = moment; adj_close = some close }

abbrev prices : List Bar
prices = bar 9 30 ∷ bar 4 10 ∷ record { observed_at = 6; adj_close = none } ∷ bar 5 20 ∷ []

abbrev episode : Episode
episode = record { asset_id = "a"; observed_at = 6; label = none }

compute-IsComplete_example : IsComplete "3m" (after prices 6) (compute episode prices none)
compute-IsComplete_example = compute-IsComplete episode prices none "3m"
