-- ===== src/Market/Outcomes/Drawdown.antt =====
-- outcomes.py: `_max_drawdown` against all falls of a series.
use native.Mathlib.Nat.{mul-le-mul_left, mul-le-mul_right, le_of_mul-le-mul_right}
use econiq_ai.Prelude.{
  ℕ, ◌*◌, ◌≤◌, ◌<◌, ◌≡◌, inl, inr, true, false, some, List, [], ◌∷◌, ◌++◌, ltb, if◌then◌else◌,
  arith, Bool-cases, In,
}
use econiq_ai.Market.Outcomes.{Ratio, lower, max, drawdown_from, no_change, max_drawdown}

-- a ratio at most as large as another one
abbrev pub AtMost : Ratio → Ratio → Type 0
AtMost a b = a.numerator * b.denominator ≤ b.numerator * a.denominator

lower_left : (a b : Ratio) → AtMost (lower a b) a
unfolding lower
lower_left a b =
    elim (Bool-cases (ltb (b.numerator * a.denominator) (a.numerator * b.denominator))) [
      | inl e ↦ rw e (ground arith)
      | inr e ↦ rw e (omega arith)
    ]

lower_right : (a b : Ratio) → AtMost (lower a b) b
unfolding lower
lower_right a b =
    elim (Bool-cases (ltb (b.numerator * a.denominator) (a.numerator * b.denominator))) [
      | inl e ↦ rw e (omega arith)
      | inr e ↦ rw e (ground arith)
    ]

lower-pos : (a b : Ratio) → 0 < a.denominator → 0 < b.denominator → 0 < (lower a b).denominator
unfolding lower
lower-pos a b h k =
    elim (ltb (b.numerator * a.denominator) (a.numerator * b.denominator))
      as (λ t. 0 < (if t then b else a).denominator) [ true ↦ k | false ↦ h ]

-- Fractions with a positive one between them.
mul_trans : (a b c d e f : ℕ) → 0 < d → a * d ≤ c * b → c * f ≤ e * d → a * f ≤ e * b
mul_trans a b c d e f h p q =
    let whole : a * f * d ≤ e * b * d = omega (arith, mul-le-mul_right f p, mul-le-mul_right b q) in
    le_of_mul-le-mul_right whole h

compare_through : (a b c : Ratio) → 0 < b.denominator → AtMost a b → AtMost b c → AtMost a c
compare_through a b c h p q =
    mul_trans a.numerator a.denominator b.numerator b.denominator c.numerator c.denominator h p q

abbrev pub fall : ℕ → ℕ → Ratio
fall from to = record { numerator = to; denominator = from }

-- What one step of the loop does to the worst.
abbrev pub next_worst : ℕ → Ratio → ℕ → Ratio
next_worst top worst price = if ltb 0 top then lower worst (fall top price) else worst

next_worst-pos :
    (top : ℕ) (worst : Ratio) (price : ℕ)
    → 0 < worst.denominator
    → 0 < (next_worst top worst price).denominator
next_worst-pos top worst price h = elim (Bool-cases (ltb 0 top)) [
  | inl e ↦ rw e (lower-pos worst (fall top price) h (ground arith))
  | inr e ↦ rw e h
]

next_worst-AtMost :
    (top : ℕ) (worst : Ratio) (price : ℕ) → AtMost (next_worst top worst price) worst
next_worst-AtMost top worst price = elim (Bool-cases (ltb 0 top)) [
  | inl e ↦ rw e (lower_left worst (fall top price))
  | inr e ↦ rw e (omega arith)
]

next_worst-fall :
    (p top : ℕ) (worst : Ratio) (price : ℕ)
    → 0 < p
    → p ≤ top
    → AtMost (next_worst top worst price) (fall p price)
next_worst-fall p top worst price h l =
    let e : ltb 0 top ≡ true = ground arith in
    rw e (
      compare_through (lower worst (fall top price)) (fall top price) (fall p price) (omega arith)
        (lower_right worst (fall top price)) (mul-le-mul_left price l))

drawdown_from-AtMost :
    (peak : ℕ) (worst : Ratio) (prices : List ℕ)
    → 0 < worst.denominator
    → AtMost (drawdown_from peak worst prices) worst
unfolding drawdown_from
drawdown_from-AtMost peak worst [] h = omega arith
drawdown_from-AtMost peak worst (price ∷ prices) h =
    let top = max peak price in
    compare_through _ (next_worst top worst price) worst (next_worst-pos top worst price h)
      (drawdown_from-AtMost top (next_worst top worst price) prices
        (next_worst-pos top worst price h))
      (next_worst-AtMost top worst price)

-- A later price, from a peak that is at least an earlier one.
drawdown_from-later :
    (p x peak : ℕ) (worst : Ratio) (prices : List ℕ)
    → 0 < worst.denominator
    → 0 < p
    → p ≤ peak
    → In x prices
    → AtMost (drawdown_from peak worst prices) (fall p x)
unfolding drawdown_from
drawdown_from-later p x peak worst [] h q l m = elim m [ ]
drawdown_from-later p x peak worst (price ∷ prices) h q l (inl e) =
    let top = max peak price in
    compare_through _ (next_worst top worst price) (fall p x) (next_worst-pos top worst price h)
      (drawdown_from-AtMost top (next_worst top worst price) prices
        (next_worst-pos top worst price h))
      (rw e (next_worst-fall p top worst price q (ground arith)))
drawdown_from-later p x peak worst (price ∷ prices) h q l (inr m) =
    let top = max peak price in
    drawdown_from-later p x top (next_worst top worst price) prices
      (next_worst-pos top worst price h) q (ground arith) m

drawdown_from-split :
    (before later : List ℕ) (p x peak : ℕ) (worst : Ratio)
    → 0 < worst.denominator
    → 0 < p
    → In x later
    → AtMost (drawdown_from peak worst (before ++ (p ∷ later))) (fall p x)
unfolding drawdown_from
drawdown_from-split [] later p x peak worst h q m =
    let top = max peak p in
    drawdown_from-later p x top (next_worst top worst p) later (next_worst-pos top worst p h) q
      (ground arith) m
drawdown_from-split (y ∷ before) later p x peak worst h q m =
    let top = max peak y in
    drawdown_from-split before later p x top (next_worst top worst y) (next_worst-pos top worst y h)
      q m

max_drawdown_lem :
    (series : List ℕ) (worst : Ratio)
    → max_drawdown series ≡ some worst
    → (peak : ℕ) × (worst ≡ drawdown_from peak no_change series)
unfolding max_drawdown
max_drawdown_lem [] worst e = absurd (cc)
max_drawdown_lem (price ∷ []) worst e = absurd (cc)
max_drawdown_lem (price ∷ next ∷ prices) worst e = (price, cc)

-- The maximum drawdown is no gain, and it is at least as deep as the fall from any positive price
-- of the series to any later price.
pub max_drawdown-AtMost :
    (before later : List ℕ) (p x : ℕ) (worst : Ratio)
    → max_drawdown (before ++ (p ∷ later)) ≡ some worst
    → In x later
    → 0 < p
    → AtMost worst no_change × AtMost worst (fall p x)
max_drawdown-AtMost before later p x worst e m h =
    let (peak, q) = max_drawdown_lem (before ++ (p ∷ later)) worst e in
    rw q (
      drawdown_from-AtMost peak no_change (before ++ (p ∷ later)) (omega arith),
      drawdown_from-split before later p x peak no_change (omega arith) h m,
    )
