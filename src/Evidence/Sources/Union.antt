-- ===== src/Evidence/Sources/Union.antt =====
-- The loop of `effective_sources` of dependence.py joins exactly what the dependences link.
use econiq_ai.Prelude.{
  ℕ, zero, suc, ◌+◌, ◌≤◌, ◌≡◌, ◌↔◌, refl, sym, ◌∙◌, subst, inl, inr, ◌⊎◌, true, false, not, ◌||◌,
  List, [], ◌∷◌, ◌==◌, ==_iff, if◌then◌else◌, arith, Bool-cases, In, length,
}
use econiq_ai.Evidence.Dependence.{EvidenceItem, Dependence}
use econiq_ai.Evidence.Sources.{
  Parents, parent_of, set_parent, find_root, unite, unite_all, own_parents, parents_after, knows,
}
use econiq_ai.Evidence.Sources.Used.{
  of_if, own_parents_self, IsKnown, used, length-used, used-IsKnown, unite_all-items,
}
use econiq_ai.Evidence.Sources.Roots.{IsRooted, rooted_once, find_root_lem}
use econiq_ai.Evidence.Sources.Components.{
  Linked, Linked-more, Linked-joins, IsForest, kept, within, between, self, flip, chain,
}

-- What `unite` makes of two roots.
abbrev put_under : ℕ → ℕ → Parents → Parents
put_under a b v = if a == b then v else set_parent b a v

put_under-IsForest :
    (k n m a b : ℕ) (v : Parents) (ds : List Dependence) (d : Dependence)
    → IsForest k v ds
    → IsRooted v d.source_event_id a n
    → IsRooted v d.dependent_event_id b m
    → IsForest (suc k) (put_under a b v) (d ∷ ds)
put_under-IsForest k n m a b v ds d forest p q = elim (Bool-cases (a == b)) [
  | inl on ↦
      subst (λ c. IsForest (suc k) (if c then v else set_parent b a v) (d ∷ ds)) (sym on)
        (within forest d a n m p
          (subst (λ r. IsRooted v d.dependent_event_id r m) (sym ((==_iff a b).0 on)) q))
  | inr off ↦
      subst (λ c. IsForest (suc k) (if c then v else set_parent b a v) (d ∷ ds)) (sym off)
        (between forest d a b n m p q (ground arith))
]

unite-IsForest :
    (fuel k : ℕ) (t : Parents) (ds : List Dependence) (d : Dependence)
    → IsForest k t ds
    → k ≤ fuel
    → IsForest (suc k) (unite fuel d.source_event_id d.dependent_event_id t) (d ∷ ds)
unfolding unite
unite-IsForest fuel k t ds d forest enough =
    let x = d.source_event_id in
    let y = d.dependent_event_id in
    let (a, n, le, p) = forest.rooted x in
    let (is_a, keeps) = find_root_lem fuel n x a t p (omega arith) in
    let u = (find_root fuel x t).1 in
    let later = kept forest u keeps in
    let (b, m, le', q) = later.rooted y in
    let (is_b, keeps') = find_root_lem fuel m y b u q (omega arith) in
    let v = (find_root fuel y u).1 in
    let (n', _, p') = keeps n x a p in
    let (n'', _, p'') = keeps' n' x a p' in
    let (m', _, q') = keeps' m y b q in
    subst (λ z. IsForest (suc k) (put_under z (find_root fuel y u).0 v) (d ∷ ds)) (sym is_a)
      (subst (λ z. IsForest (suc k) (put_under a z v) (d ∷ ds)) (sym is_b)
        (put_under-IsForest k n'' m' a b v ds d (kept later v keeps') p'' q'))

knows-set : (y x g : ℕ) (t : Parents) → knows y t ≡ true → knows y (set_parent x g t) ≡ true
unfolding set_parent
knows-set y x g [] h = cc
knows-set y x g ((key, old) ∷ rest) h = ground (arith, knows-set y x g rest)

knows-find : (fuel x y : ℕ) (t : Parents) → knows y t ≡ true → knows y (find_root fuel x t).1 ≡ true
unfolding find_root
knows-find zero x y t h = h
knows-find (suc fuel) x y t h =
    let g = parent_of (parent_of x t) t in
    of_if (λ (q : ℕ × Parents). knows y q.1 ≡ true) (parent_of x t == x) (x, t)
      (find_root fuel g (set_parent x g t)) h
      (knows-find fuel g y (set_parent x g t) (knows-set y x g t h))

knows-unite : (fuel a b y : ℕ) (t : Parents) → knows y t ≡ true → knows y (unite fuel a b t) ≡ true
unfolding unite
knows-unite fuel a b y t h =
    let (ra, u) = find_root fuel a t in
    let (rb, v) = find_root fuel b u in
    let h' = knows-find fuel b y u (knows-find fuel a y t h) in
    of_if (λ (q : Parents). knows y q ≡ true) (ra == rb) v (set_parent rb ra v) h'
      (knows-set y rb ra v h')

-- The dependences in the order in which they have been seen, the last first.
abbrev seen : List Dependence → List Dependence → List Dependence
seen [] ds = ds
seen (d ∷ rest) ds = seen rest (d ∷ ds)

no_more : (k : ℕ) → k ≡ k + 0
no_more k = omega arith

one_more : (k n : ℕ) → suc k + n ≡ k + suc n
one_more k n = omega arith

is_used :
    (t : Parents) (d : Dependence)
    → IsKnown t d
    → (not (knows d.source_event_id t) || not (knows d.dependent_event_id t)) ≡ false
is_used t d (a, b) = ground arith

unite_all-IsForest :
    (fuel k : ℕ) (rest : List Dependence) (t : Parents) (ds : List Dependence)
    → IsForest k t ds
    → k + length rest ≤ fuel
    → ((d : Dependence) → In d rest → IsKnown t d)
    → IsForest (k + length rest) (unite_all fuel rest t) (seen rest ds)
unfolding unite_all
unite_all-IsForest fuel k [] t ds forest enough known =
    subst (λ n. IsForest n t ds) (no_more k) forest
unite_all-IsForest fuel k (d ∷ rest) t ds forest enough known =
    let a = d.source_event_id in
    let b = d.dependent_event_id in
    subst
      (λ c.
        IsForest (k + suc (length rest)) (unite_all fuel rest (if c then t else unite fuel a b t))
          (seen rest (d ∷ ds)))
      (sym (is_used t d (known d (inl refl))))
      (subst (λ n. IsForest n (unite_all fuel rest (unite fuel a b t)) (seen rest (d ∷ ds)))
        (one_more k (length rest))
        (unite_all-IsForest fuel (suc k) rest (unite fuel a b t) (d ∷ ds)
          (unite-IsForest fuel k t ds d forest (omega arith)) (omega arith)
          (λ e m.
            let (p, q) = known e (inr m) in
            (
              knows-unite fuel a b e.source_event_id t p,
              knows-unite fuel a b e.dependent_event_id t q,
            ))))

own_parents-IsForest : (items : List EvidenceItem) → IsForest 0 (own_parents items) []
own_parents-IsForest items = record {
  rooted = λ x. (x, 0, omega arith, (own_parents_self items x, refl));
  sound = λ n x r p.
      subst (λ z. Linked [] x z)
        ((rooted_once (own_parents items) 0 n x x r (own_parents_self items x, refl) p).0) self;
  joins = λ d i n m r s p q. elim i [ ];
}

In-seen : (d : Dependence) (rest ds : List Dependence) → In d (seen rest ds) → In d rest ⊎ In d ds
In-seen d [] ds m = inr m
In-seen d (e ∷ rest) ds m = elim (In-seen d rest (e ∷ ds) m) [
  | inl l ↦ inl (inr l)
  | inr (inl same) ↦ inl (inl same)
  | inr (inr l) ↦ inr l
]

seen-In : (d : Dependence) (rest ds : List Dependence) → In d rest ⊎ In d ds → In d (seen rest ds)
seen-In d [] ds (inl m) = elim m [ ]
seen-In d [] ds (inr m) = m
seen-In d (e ∷ rest) ds (inl (inl same)) = seen-In d rest (e ∷ ds) (inr (inl same))
seen-In d (e ∷ rest) ds (inl (inr m)) = seen-In d rest (e ∷ ds) (inl m)
seen-In d (e ∷ rest) ds (inr m) = seen-In d rest (e ∷ ds) (inr (inr m))

pub parents_after-IsForest :
    (items : List EvidenceItem) (dependences : List Dependence)
    → IsForest
        (length (used items dependences))
        (parents_after items dependences)
        (seen (used items dependences) [])
unfolding parents_after
parents_after-IsForest items dependences =
    let ds = used items dependences in
    let counted : 0 + length ds ≡ length ds = omega arith in
    let le = length-used items dependences in
    subst (λ t. IsForest (length ds) t (seen ds [])) (sym (unite_all-items items dependences))
      (subst (λ n. IsForest n (unite_all (length dependences) ds (own_parents items)) (seen ds []))
        counted
        (unite_all-IsForest (length dependences) 0 ds (own_parents items) []
          (own_parents-IsForest items) (omega (arith, le)) (used-IsKnown items dependences)))

-- One root for two events exactly if the dependences between the given events link them.
pub parents_after_iff :
    (items : List EvidenceItem) (dependences : List Dependence) (x y : ℕ)
    → ((find_root (length dependences) x (parents_after items dependences)).0
        ≡ (find_root (length dependences) y (parents_after items dependences)).0)
      ↔ Linked (used items dependences) x y
parents_after_iff items dependences x y =
    let fuel = length dependences in
    let ds = used items dependences in
    let less = length-used items dependences in
    let t = parents_after items dependences in
    let forest = parents_after-IsForest items dependences in
    let (r, n, le, p) = forest.rooted x in
    let (s, m, le', q) = forest.rooted y in
    let is_r = (find_root_lem fuel n x r t p (omega arith)).0 in
    let is_s = (find_root_lem fuel m y s t q (omega arith)).0 in
    (
      λ same.
          let equal : r ≡ s = sym is_r ∙ same ∙ is_s in
          Linked-more
            (λ d i. elim (In-seen d ds [] i) [ inl l ↦ l | inr none_left ↦ elim none_left [ ] ])
            (chain (forest.sound n x r p)
              (flip (subst (λ z. Linked (seen ds []) y z) (sym equal) (forest.sound m y s q)))),
      λ linked.
          is_r
          ∙ Linked-joins forest (Linked-more (λ d i. seen-In d ds [] (inl i)) linked) n m r s p q
          ∙ sym is_s,
    )
