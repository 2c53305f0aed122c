-- ===== src/Market/Outcomes/Attained.antt =====
-- outcomes.py: the fall of a series that `_max_drawdown` returns.
use mathlib.Core.List.{append_assoc}
use econiq_ai.Prelude.{
  ℕ, ◌*◌, ◌<◌, ◌≡◌, ◌⊎◌, refl, sym, inl, inr, false, some, List, [], ◌∷◌, ◌++◌, ltb, arith,
  Bool-cases, In, subst,
}
use econiq_ai.Prelude.Membership.{In-append_left, In-append_right}
use econiq_ai.Market.Outcomes.{Ratio, lower, max, drawdown_from, no_change, max_drawdown}
use econiq_ai.Market.Outcomes.Drawdown.{fall, next_worst, AtMost, max_drawdown-AtMost}

-- No change, or the fall to a price from itself or an earlier price.
abbrev pub IsFall : List ℕ → Ratio → Type 0
IsFall series worst =
    (worst ≡ no_change)
    ⊎ ((before : List ℕ) × (x : ℕ) × (rest : List ℕ) × (p : ℕ) × (series ≡ before ++ (x ∷ rest))
        × In p (before ++ (x ∷ []))
        × (worst ≡ fall p x))

lower_cases : (a b : Ratio) → (lower a b ≡ a) ⊎ (lower a b ≡ b)
unfolding lower
lower_cases a b =
    elim (Bool-cases (ltb (b.numerator * a.denominator) (a.numerator * b.denominator))) [
      | inl e ↦ inr (rw e refl)
      | inr e ↦ inl (rw e refl)
    ]

max-In : (peak x : ℕ) (seen : List ℕ) → In peak seen → In (max peak x) (seen ++ (x ∷ []))
max-In peak x seen m = elim (Bool-cases (ltb peak x)) [
  | inl e ↦ rw e (In-append_right x seen (x ∷ []) (inl refl))
  | inr e ↦ rw e (In-append_left peak seen (x ∷ []) m)
]

next_worst-IsFall :
    (seen : List ℕ) (peak x : ℕ) (worst : Ratio) (rest : List ℕ)
    → In peak seen
    → IsFall (seen ++ (x ∷ rest)) worst
    → IsFall (seen ++ (x ∷ rest)) (next_worst (max peak x) worst x)
next_worst-IsFall seen peak x worst rest m h = elim (Bool-cases (ltb 0 (max peak x))) [
  | inr e ↦ rw e h
  | inl e ↦ elim (lower_cases worst (fall (max peak x) x)) [
    | inl l ↦ rw (e, l) h
    | inr l ↦ rw (e, l) (inr (seen, x, rest, max peak x, refl, max-In peak x seen m, refl))
  ]
]

drawdown_from-IsFall :
    (seen : List ℕ) (peak : ℕ) (worst : Ratio) (prices : List ℕ)
    → In peak seen
    → IsFall (seen ++ prices) worst
    → IsFall (seen ++ prices) (drawdown_from peak worst prices)
unfolding drawdown_from
drawdown_from-IsFall seen peak worst [] m h = h
drawdown_from-IsFall seen peak worst (x ∷ prices) m h =
    let joined : (seen ++ (x ∷ [])) ++ prices ≡ seen ++ (x ∷ prices) =
      append_assoc seen (x ∷ []) prices in
    subst (λ l. IsFall l (drawdown_from peak worst (x ∷ prices))) joined
      (drawdown_from-IsFall (seen ++ (x ∷ [])) (max peak x) (next_worst (max peak x) worst x) prices
        (max-In peak x seen m)
        (subst (λ l. IsFall l (next_worst (max peak x) worst x)) (sym joined)
          (next_worst-IsFall seen peak x worst prices m h)))

max_self : (x : ℕ) → max x x ≡ x
max_self x = ground arith

next_worst_self : (x : ℕ) → next_worst x no_change x ≡ no_change
unfolding lower
next_worst_self x = elim (Bool-cases (ltb 0 x)) [
  | inl e ↦ let same : ltb (x * 1) (1 * x) ≡ false = ground arith in rw (e, same) refl
  | inr e ↦ rw e refl
]

first :
    (price : ℕ) (prices : List ℕ)
    → IsFall (price ∷ prices) (drawdown_from price no_change (price ∷ prices))
unfolding drawdown_from
first price prices =
    rw (drawdown_from, max_self price, next_worst_self price)
      (drawdown_from-IsFall (price ∷ []) price no_change prices (inl refl) (inl refl))

max_drawdown-IsFall :
    (series : List ℕ) (worst : Ratio) → max_drawdown series ≡ some worst → IsFall series worst
unfolding max_drawdown
max_drawdown-IsFall [] worst e = absurd (cc)
max_drawdown-IsFall (price ∷ []) worst e = absurd (cc)
max_drawdown-IsFall (price ∷ next ∷ prices) worst e =
    let q : drawdown_from price no_change (price ∷ next ∷ prices) ≡ worst = cc in
    subst (λ w. IsFall (price ∷ next ∷ prices) w) q (first price (next ∷ prices))

-- The maximum drawdown is no gain, it is at least as deep as the fall from any positive price of
-- the series to any later price, and it is either no change or the fall to a price of the series
-- from that price or an earlier one.
pub max_drawdown_exact :
    (before later : List ℕ) (p x : ℕ) (worst : Ratio)
    → max_drawdown (before ++ (p ∷ later)) ≡ some worst
    → In x later
    → 0 < p
    → AtMost worst no_change × AtMost worst (fall p x) × IsFall (before ++ (p ∷ later)) worst
max_drawdown_exact before later p x worst e m h =
    let (gain, deep) = max_drawdown-AtMost before later p x worst e m h in
    (gain, deep, max_drawdown-IsFall (before ++ (p ∷ later)) worst e)
