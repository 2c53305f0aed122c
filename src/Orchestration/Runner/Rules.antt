-- ===== src/Orchestration/Runner/Rules.antt =====
-- Proof rules for actions that return: what a chain and a loop keep and bring about.
use econiq_ai.Prelude.{
  ◌≡◌, refl, ap, inl, inr, List, [], ◌∷◌, Result, ok, err, In, subst, sym, length, arith,
}
use econiq_ai.Orchestration.Runner.Session.{World, M, continue, for_each}

module _ {A B : Type 0} where
  continue-eq-ok :
      (r : Result A × World) (f : A → M B) (b : B) (w' : World)
      → continue r f ≡ (ok b, w')
      → (a : A) × (w : World) × (r ≡ (ok a, w)) × (f a w ≡ (ok b, w'))
  continue-eq-ok (ok a, w) f b w' h = (a, w, refl, h)
  continue-eq-ok (err e, w) f b w' h = cc

  -- A chain that returns: its first part returned, and then the rest did.
  pub bind-eq-ok :
      (m : M A) (f : A → M B) (w w' : World) (b : B)
      → continue (m w) f ≡ (ok b, w')
      → (a : A) × (w1 : World) × (m w ≡ (ok a, w1)) × (f a w1 ≡ (ok b, w'))
  bind-eq-ok m f w w' b h = continue-eq-ok (m w) f b w' h

module _ {A B : Type 0} (act : A → M B) where
  -- A loop keeps what each of its calls keeps.
  pub for_each-keeps :
      (P : World → Type 0)
      → ((x : A) (w w' : World) (b : B) → act x w ≡ (ok b, w') → P w → P w')
      → (xs : List A) (w w' : World) (bs : List B) → for_each act xs w ≡ (ok bs, w')
      → P w
      → P w'
  for_each-keeps P keep [] w w' bs h p = subst P (ap (λ (r : Result (List B) × World). r.1) h) p
  for_each-keeps P keep (x ∷ xs) w w' bs h p =
      let (b, w1, first, rest) =
        bind-eq-ok (act x) (λ b. λ v. continue (for_each act xs v) (λ bs. λ v. (ok (b ∷ bs), v))) w
          w' bs h in
      let (bs1, w2, loop, end) =
        bind-eq-ok (for_each act xs) (λ bs. λ v. (ok (b ∷ bs), v)) w1 w' bs rest in
      subst P (ap (λ (r : Result (List B) × World). r.1) end)
        (for_each-keeps P keep xs w1 w2 bs1 loop (keep x w w1 b first p))

  -- What each call brings about, and all keep, holds of every element after the loop.
  pub for_each-reaches :
      (Q : A → World → Type 0)
      → ((x : A) (w w' : World) (b : B) → act x w ≡ (ok b, w') → Q x w')
      → ((x y : A) (w w' : World) (b : B) → act y w ≡ (ok b, w') → Q x w → Q x w')
      → (xs : List A) (w w' : World) (bs : List B) → for_each act xs w ≡ (ok bs, w')
      → (x : A) → In x xs
      → Q x w'
  for_each-reaches Q reach keep [] w w' bs h x m = elim m [ ]
  for_each-reaches Q reach keep (y ∷ xs) w w' bs h x m =
      let (b, w1, first, rest) =
        bind-eq-ok (act y) (λ b. λ v. continue (for_each act xs v) (λ bs. λ v. (ok (b ∷ bs), v))) w
          w' bs h in
      let (bs1, w2, loop, end) =
        bind-eq-ok (for_each act xs) (λ bs. λ v. (ok (b ∷ bs), v)) w1 w' bs rest in
      subst (Q x) (ap (λ (r : Result (List B) × World). r.1) end) (elim m [
        | inl e ↦
            for_each-keeps (Q x) (keep x) xs w1 w2 bs1 loop
              (subst (λ z. Q z w1) (sym e) (reach y w w1 b first))
        | inr k ↦ for_each-reaches Q reach keep xs w1 w2 bs1 loop x k
      ])

  -- A loop that returns has one result for each element.
  pub length-for_each :
      (xs : List A) (w w' : World) (bs : List B)
      → for_each act xs w ≡ (ok bs, w')
      → length bs ≡ length xs
  length-for_each [] w w' bs h = ground arith
  length-for_each (x ∷ xs) w w' bs h =
      let (b, w1, first, rest) =
        bind-eq-ok (act x) (λ b. λ v. continue (for_each act xs v) (λ bs. λ v. (ok (b ∷ bs), v))) w
          w' bs h in
      let (bs1, w2, loop, end) =
        bind-eq-ok (for_each act xs) (λ bs. λ v. (ok (b ∷ bs), v)) w1 w' bs rest in
      ground (arith, end, length-for_each xs w1 w2 bs1 loop)
