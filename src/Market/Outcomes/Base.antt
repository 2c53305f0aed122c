-- ===== src/Market/Outcomes/Base.antt =====
-- outcomes.py: the close that `_price_at` takes.
use econiq_ai.Prelude.{
  ℕ, zero, suc, ◌≤◌, ◌≡◌, refl, ◌∙◌, sym, inl, inr, true, false, Option, none, some, List, [], ◌∷◌,
  leb, arith, Option-cases, In, filter,
}
use econiq_ai.Prelude.Membership.{In-filter, filter-In}
use econiq_ai.Prelude.Sorting.{sort_by, In-sort, sort-In, IsSorted, IsStrictWeak, sort-IsSorted}
use econiq_ai.Market.Outcomes.{Bar, earlier, closes, last, positive, is_closed, price_at}

earlier-IsStrictWeak : IsStrictWeak earlier
earlier-IsStrictWeak = record {
  asymmetric = λ x y h. ground arith;
  comparable = λ x y z p q. ground arith;
}

is_closed_lem : (bar : Bar) → is_closed bar ≡ true → (c : ℕ) × (bar.adj_close ≡ some c)
is_closed_lem bar h = elim (Option-cases bar.adj_close) [
  | inl e ↦ absurd (let f : false ≡ true = rw e at h in cc)
  | inr (c, e) ↦ (c, e)
]

-- what of a bar and an earlier close is the last
closes-step :
    (bar : Bar) (bars : List Bar) (c : ℕ)
    → bar.adj_close ≡ some c
    → closes (bar ∷ bars) ≡ c ∷ closes bars
unfolding closes
closes-step bar bars c e = rw e refl

last-step :
    (bar next : Bar) (bars : List Bar) (c d : ℕ)
    → bar.adj_close ≡ some c
    → next.adj_close ≡ some d
    → last (closes (bar ∷ next ∷ bars)) ≡ last (closes (next ∷ bars))
unfolding last
last-step bar next bars c d e f =
    rw (closes-step bar (next ∷ bars) c e, closes-step next bars d f) refl

abbrev Latest : List Bar → ℕ → Bar → Type 0
Latest bars b other =
    (bar : Bar) × In bar bars × (bar.adj_close ≡ some b) × (other.observed_at ≤ bar.observed_at)

-- The last close of sorted bars that all have one is that of a bar with none behind it.
last-closes :
    (bars : List Bar) (b : ℕ) (other : Bar)
    → ((bar : Bar) → In bar bars → is_closed bar ≡ true)
    → IsSorted earlier bars
    → last (closes bars) ≡ some b
    → In other bars
    → Latest bars b other
unfolding last closes
last-closes [] b other c s e m = elim m [ ]
last-closes (bar ∷ []) b other c s e (inl q) =
    let (x, f) = is_closed_lem bar (c bar (inl refl)) in
    (bar, inl refl, f ∙ (rw (closes-step bar [] x f) at e), rw q (omega arith))
last-closes (bar ∷ []) b other c s e (inr m) = elim m [ ]
last-closes (bar ∷ next ∷ bars) b other c s e m =
    let (x, f) = is_closed_lem bar (c bar (inl refl)) in
    let (y, g) = is_closed_lem next (c next (inr (inl refl))) in
    let rest = λ (o : Bar) (k : In o (next ∷ bars)).
      last-closes (next ∷ bars) b o (λ z n. c z (inr n)) s.1
        (sym (last-step bar next bars x y f g) ∙ e) k in
    elim m [
      | inl q ↦
          let (z, n, h, l) = rest next (inl refl) in
          let t : earlier next bar ≡ false = s.0 next (inl refl) in
          (z, inr n, h, rw q (ground arith))
      | inr k ↦ let (z, n, h, l) = rest other k in (z, inr n, h, l)
    ]

positive_lem : (o : Option ℕ) (b : ℕ) → positive o ≡ some b → (o ≡ some b) × (1 ≤ b)
unfolding positive
positive_lem none b e = absurd (cc)
positive_lem (some zero) b e = absurd (cc)
positive_lem (some (suc c)) b e = (e, ground arith)

-- Where an episode has a base price, it is positive and the close of a bar at or before the
-- moment, and no other bar with a close at or before the moment is later than that bar.
price_at-latest :
    (prices : List Bar) (moment b : ℕ) (other : Bar)
    → price_at prices moment ≡ some b
    → In other prices
    → other.observed_at ≤ moment
    → is_closed other ≡ true
    → (bar : Bar) × In bar prices
      × (bar.adj_close ≡ some b)
      × (1 ≤ b)
      × (other.observed_at ≤ bar.observed_at)
      × (bar.observed_at ≤ moment)
unfolding price_at
price_at-latest prices moment b other e m l c =
    let past = λ (bar : Bar). leb bar.observed_at moment in
    let kept = filter is_closed (filter past prices) in
    let (f, pos) = positive_lem (last (closes (sort_by earlier kept))) b e in
    let o =
      filter-In other is_closed (filter past prices) (filter-In other past prices m (ground arith))
        c in
    let (bar, n, h, t) =
      last-closes (sort_by earlier kept) b other
        (λ z k. (In-filter z is_closed (filter past prices) (In-sort earlier z kept k)).1)
        (sort-IsSorted earlier earlier-IsStrictWeak kept) f (sort-In earlier other kept o) in
    let (u, v) =
      In-filter bar past prices
        (In-filter bar is_closed (filter past prices) (In-sort earlier bar kept n)).0 in
    (bar, u, h, pos, t, ground arith)
