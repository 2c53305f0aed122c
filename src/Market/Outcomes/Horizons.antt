-- ===== src/Market/Outcomes/Horizons.antt =====
-- outcomes.py: the horizons that `compute` answers.
use econiq_ai.Prelude.{
  ℕ, String, ◌+◌, ◌≡◌, refl, inl, inr, Option, List, [], ◌∷◌, leb, map, count, str_eq,
  if◌then◌else◌, arith, Bool-cases, Option-cases, length,
}
use econiq_ai.Market.Outcomes.{
  Bar, Episode, Outcome, horizons, after, price_at, is_short, returns_over, unanswered, answered,
  compute,
}

-- how often a name stands in front of an entry
pub named {ℓ} : {A : Type ℓ} → String → List (String × A) → ℕ
named name [] = 0
named name ((key, value) ∷ entries) = (if str_eq key name then 1 else 0) + named name entries

abbrev pub listed : String → List String → ℕ
listed name names = count (λ key. str_eq key name) names

returns_over-named :
    (name : String) (series : List ℕ) (base : ℕ) (spans : List (String × ℕ))
    → named name (returns_over series base spans).0 + listed name (returns_over series base spans).1
      ≡ named name spans
unfolding returns_over named
returns_over-named name series base [] = refl
returns_over-named name series base ((key, span) ∷ spans) =
    elim (Bool-cases (is_short series span)) [
      | inl e ↦ rw e (omega (arith, returns_over-named name series base spans))
      | inr e ↦ rw e (omega (arith, returns_over-named name series base spans))
    ]

unanswered-named :
    (name : String) (spans : List (String × ℕ))
    → listed name (map (λ (h : String × ℕ). h.0) spans) ≡ named name spans
unfolding named
unanswered-named name [] = refl
unanswered-named name ((key, span) ∷ spans) = omega (arith, unanswered-named name spans)

-- Each horizon is accounted for in an outcome, with the bars after the episode.
abbrev pub IsComplete : String → List ℕ → Outcome → Type 0
IsComplete name series outcome =
    (named name outcome.returns + listed name outcome.unavailable ≡ named name horizons)
    × (outcome.bars_after ≡ length series)

unanswered-IsComplete :
    (name : String) (episode : Episode) (series : List ℕ)
    → IsComplete name series (unanswered episode (length series))
unfolding unanswered named
unanswered-IsComplete name episode series = (omega (arith, unanswered-named name horizons), refl)

answered-IsComplete :
    (name : String) (episode : Episode) (series : List ℕ) (base : ℕ) (benchmark : Option (List Bar))
    → IsComplete name series (answered episode series base benchmark)
unfolding answered
answered-IsComplete name episode series base benchmark =
    (returns_over-named name series base horizons, refl)

-- Every outcome answers each standard horizon once: as often as a name stands in HORIZONS, it is
-- among the returns or among the unavailable ones; and the outcome counts the closes after the
-- episode.
pub compute-IsComplete :
    (episode : Episode) (prices : List Bar) (benchmark : Option (List Bar)) (name : String)
    → IsComplete name (after prices episode.observed_at) (compute episode prices benchmark)
unfolding compute
compute-IsComplete episode prices benchmark name =
    let series = after prices episode.observed_at in
    elim (Option-cases (price_at prices episode.observed_at)) [
      | inl e ↦ rw (compute, e) (unanswered-IsComplete name episode series)
      | inr (base, e) ↦
          rw (compute, e)
            (elim (Bool-cases (leb (length series) 0)) [
              | inl f ↦ rw f (unanswered-IsComplete name episode series)
              | inr f ↦ rw f (answered-IsComplete name episode series base benchmark)
            ])
    ]
