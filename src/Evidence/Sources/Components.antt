-- ===== src/Evidence/Sources/Components.antt =====
-- The trees that `effective_sources` of dependence.py builds are the connected components.
use econiq_ai.Prelude.{
  ℕ, suc, ◌≤◌, ◌≡◌, ◌≢◌, refl, sym, ap, ◌∙◌, subst, inl, inr, List, ◌∷◌, ◌==◌, ==_iff,
  if◌then◌else◌, arith, Bool-cases, In,
}
use econiq_ai.Evidence.Dependence.{Dependence}
use econiq_ai.Evidence.Sources.{Parents, set_parent}
use econiq_ai.Evidence.Sources.Roots.{IsRooted, rooted_once, root_of, KeepsRoots, join_lem, missed}

-- Connected by dependences, in either direction.
pub data Linked : List Dependence → ℕ → ℕ → Type 0 where
  self : {ds : List Dependence} {x : ℕ} → Linked ds x x
  link :
      {ds : List Dependence} (d : Dependence)
      → In d ds
      → Linked ds d.source_event_id d.dependent_event_id
  flip : {ds : List Dependence} {x y : ℕ} → Linked ds x y → Linked ds y x
  chain : {ds : List Dependence} {x y z : ℕ} → Linked ds x y → Linked ds y z → Linked ds x z

pub Linked-more :
    {ds es : List Dependence} {x y : ℕ}
    → ((d : Dependence) → In d ds → In d es)
    → Linked ds x y
    → Linked es x y
Linked-more more self = self
Linked-more more (link d m) = link d (more d m)
Linked-more more (flip p) = flip (Linked-more more p)
Linked-more more (chain p q) = chain (Linked-more more p) (Linked-more more q)

-- Trees of depth `k` at most, that join what the dependences link and nothing else.
pub record IsForest (k : ℕ) (t : Parents) (ds : List Dependence) : Type 0 where
  pub rooted : (x : ℕ) → (r : ℕ) × (n : ℕ) × (n ≤ k) × IsRooted t x r n
  pub sound : (n x r : ℕ) → IsRooted t x r n → Linked ds x r
  pub joins :
      (d : Dependence)
      → In d ds
      → (n m r s : ℕ) → IsRooted t d.source_event_id r n
      → IsRooted t d.dependent_event_id s m
      → r ≡ s

module _ {k : ℕ} {t : Parents} {ds : List Dependence} (forest : IsForest k t ds) where
  pub Linked-joins :
      {x y : ℕ} → Linked ds x y → (n m r s : ℕ) → IsRooted t x r n → IsRooted t y s m → r ≡ s
  Linked-joins self n m r s p q = (rooted_once t n m _ r s p q).0
  Linked-joins (link d i) n m r s p q = forest.joins d i n m r s p q
  Linked-joins (flip l) n m r s p q = sym (Linked-joins l m n s r q p)
  Linked-joins (chain {y} l l') n m r s p q =
      let (u, j, _, w) = forest.rooted y in Linked-joins l n j r u p w ∙ Linked-joins l' j m u s w q

  -- A table that keeps the roots is a forest of the same trees.
  pub kept : (v : Parents) → KeepsRoots t v → IsForest k v ds
  kept v keeps = record {
    rooted = λ x.
        let (r, n, le, p) = forest.rooted x in
        let (j, low, q) = keeps n x r p in (r, j, omega arith, q);
    sound = λ n x r p.
        let (s, m, le, q) = forest.rooted x in
        let (j, low, w) = keeps m x s q in
        subst (λ z. Linked ds x z) ((rooted_once v j n x s r w p).0) (forest.sound m x s q);
    joins = λ d i n m r s p q.
        let (r', n', _, p') = forest.rooted d.source_event_id in
        let (s', m', _, q') = forest.rooted d.dependent_event_id in
        let (a, _, pa) = keeps n' d.source_event_id r' p' in
        let (b, _, qb) = keeps m' d.dependent_event_id s' q' in
        (rooted_once v n a _ r r' p pa).0
        ∙ forest.joins d i n' m' r' s' p' q'
        ∙ (rooted_once v b m _ s' s qb q).0;
  }

  -- A dependence within one tree changes nothing.
  pub within :
      (d : Dependence) (r n m : ℕ)
      → IsRooted t d.source_event_id r n
      → IsRooted t d.dependent_event_id r m
      → IsForest (suc k) t (d ∷ ds)
  within d r n m p q = record {
    rooted = λ x. let (s, j, le, w) = forest.rooted x in (s, j, omega arith, w);
    sound = λ j x s w. Linked-more (λ e i. inr i) (forest.sound j x s w);
    joins = λ e i j l s u w v. elim i [
      | inl same ↦
          (rooted_once t j n d.source_event_id s r
            (subst (λ (z : Dependence). IsRooted t z.source_event_id s j) same w) p).0
          ∙ sym
              (rooted_once t l m d.dependent_event_id u r
                (subst (λ (z : Dependence). IsRooted t z.dependent_event_id u l) same v) q).0
      | inr old ↦ forest.joins e old j l s u w v
    ];
  }

  -- A dependence between two trees puts one under the other.
  module _ (d : Dependence) (a b n m : ℕ) (p : IsRooted t d.source_event_id a n)
      (q : IsRooted t d.dependent_event_id b m) (apart : a ≢ b) where
    abbrev new_root : ℕ → ℕ
    new_root r = if b == r then a else r

    moved :
        (j x r : ℕ)
        → IsRooted t x r j
        → (i : ℕ) × (i ≤ suc j) × IsRooted (set_parent b a t) x (new_root r) i
    moved j x r w =
        join_lem t a b (root_of t n d.source_event_id a p) (root_of t m d.dependent_event_id b q)
          apart j x r w

    older : {y z : ℕ} → Linked ds y z → Linked (d ∷ ds) y z
    older c = Linked-more (λ e i. inr i) c

    new_root-Linked : (x r : ℕ) → Linked ds x r → Linked (d ∷ ds) x (new_root r)
    new_root-Linked x r l = elim (Bool-cases (b == r)) [
      | inr off ↦ subst (λ c. Linked (d ∷ ds) x (if c then a else r)) (sym off) (older l)
      | inl on ↦
          subst (λ c. Linked (d ∷ ds) x (if c then a else r)) (sym on)
            (chain (older l) (
              chain
                (flip (
                  older (
                    subst (λ z. Linked ds d.dependent_event_id z) ((==_iff b r).0 on)
                      (forest.sound m d.dependent_event_id b q))))
                (chain (flip (link d (inl refl))) (older (forest.sound n d.source_event_id a p)))))
    ]

    new_root_a : new_root a ≡ a
    new_root_a = ap (λ c. if c then a else a) (missed b a (λ e. apart (sym e)))

    new_root_b : new_root b ≡ a
    new_root_b = ap (λ c. if c then a else b) ((==_iff b b).1 refl)

    pub between : IsForest (suc k) (set_parent b a t) (d ∷ ds)
    between = record {
      rooted = λ x.
          let (r, j, le, w) = forest.rooted x in
          let (i, low, w') = moved j x r w in (new_root r, i, omega arith, w');
      sound = λ j x s w.
          let (r, l, le, u) = forest.rooted x in
          let (i, low, u') = moved l x r u in
          subst (λ z. Linked (d ∷ ds) x z)
            ((rooted_once (set_parent b a t) i j x (new_root r) s u' w).0)
            (new_root-Linked x r (forest.sound l x r u));
      joins = λ e i j l s u w v.
          let (r, g, _, x) = forest.rooted e.source_event_id in
          let (r', h, _, y) = forest.rooted e.dependent_event_id in
          let (g', _, x') = moved g e.source_event_id r x in
          let (h', _, y') = moved h e.dependent_event_id r' y in
          (rooted_once (set_parent b a t) j g' e.source_event_id s (new_root r) w x').0
          ∙ elim i [
            | inr old ↦ ap (λ z. new_root z) (forest.joins e old g h r r' x y)
            | inl same ↦
                let at_a : r ≡ a =
                  (rooted_once t g n d.source_event_id r a
                    (subst (λ (z : Dependence). IsRooted t z.source_event_id r g) same x) p).0 in
                let at_b : r' ≡ b =
                  (rooted_once t h m d.dependent_event_id r' b
                    (subst (λ (z : Dependence). IsRooted t z.dependent_event_id r' h) same y)
                    q).0 in
                ap (λ z. new_root z) at_a
                ∙ new_root_a
                ∙ sym new_root_b
                ∙ ap (λ z. new_root z) (sym at_b)
          ]
          ∙ (rooted_once (set_parent b a t) h' l e.dependent_event_id (new_root r') u y' v).0;
    }
