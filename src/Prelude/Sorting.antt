-- ===== src/Prelude/Sorting.antt =====
-- Stable insertion sort by a strict order, for `ORDER BY` and `sorted`.
use Prim.Native.Nat.{ℕ, zero, suc}
use mathlib.Core.Path.{◌≡◌}
use mathlib.Core.Logic.{◌⊎◌, inl, inr}
use mathlib.Core.Bool.{Bool, true, false}
use mathlib.Core.List.{List, [], ◌∷◌}
use native.Mathlib.Omega.{arith}
use econiq_ai.Prelude.Tests.{if◌then◌else◌, Bool-cases}
use econiq_ai.Prelude.Lists.{take, drop, In}
use econiq_ai.Prelude.Membership.{In-drop}

module _ {ℓ} {A : Type ℓ} (before : A → A → Bool) where
  -- `x` goes in front of the first entry that does not come before it.
  unfoldable pub insert : A → List A → List A
  insert x [] = x ∷ []
  insert x (y ∷ ys) = if before y x then y ∷ insert x ys else x ∷ y ∷ ys

  unfoldable pub sort_by : List A → List A
  unfolding insert
  sort_by [] = []
  sort_by (x ∷ xs) = insert x (sort_by xs)

module _ {A : Type 0} (before : A → A → Bool) where
  pub In-insert : (a x : A) (ys : List A) → In a (insert before x ys) → (a ≡ x) ⊎ In a ys
  unfolding insert
  In-insert a x [] h = h
  In-insert a x (y ∷ ys) h = ground (arith, In-insert a x ys)

  pub insert-In : (a x : A) (ys : List A) → (a ≡ x) ⊎ In a ys → In a (insert before x ys)
  unfolding insert
  insert-In a x [] h = h
  insert-In a x (y ∷ ys) h = ground (arith, insert-In a x ys)

  pub In-sort : (a : A) (xs : List A) → In a (sort_by before xs) → In a xs
  unfolding sort_by
  In-sort a [] h = h
  In-sort a (x ∷ xs) h = elim (In-insert a x (sort_by before xs) h) [
    | inl e ↦ inl e
    | inr m ↦ inr (In-sort a xs m)
  ]

  pub sort-In : (a : A) (xs : List A) → In a xs → In a (sort_by before xs)
  unfolding sort_by
  sort-In a [] h = h
  sort-In a (x ∷ xs) (inl e) = insert-In a x (sort_by before xs) (inl e)
  sort-In a (x ∷ xs) (inr m) = insert-In a x (sort_by before xs) (inr (sort-In a xs m))

  -- No entry comes before one that stands in front of it.
  abbrev pub IsSorted : List A → Type 0
  IsSorted [] = Unit
  IsSorted (x ∷ xs) = ((y : A) → In y xs → before y x ≡ false) × IsSorted xs

-- A strict weak order: a comparison of keys.
pub record IsStrictWeak {A : Type 0} (before : A → A → Bool) : Type 0 where
  pub asymmetric : (x y : A) → before x y ≡ true → before y x ≡ false
  pub comparable : (x y z : A) → before y x ≡ false → before z y ≡ false → before z x ≡ false

module _ {A : Type 0} (before : A → A → Bool) (order : IsStrictWeak before) where
  insert-IsSorted :
      (x : A) (ys : List A) → IsSorted before ys → IsSorted before (insert before x ys)
  unfolding insert
  insert-IsSorted x [] h = ((λ y m. elim m [ ]), tt)
  insert-IsSorted x (y ∷ ys) h = elim (Bool-cases (before y x)) [
    | inl e ↦ rw e (
      (λ z m. elim (In-insert before z x ys m) [
        | inl q ↦ rw q (order.asymmetric y x e)
        | inr k ↦ h.0 z k
      ]),
      insert-IsSorted x ys h.1,
    )
    | inr e ↦
        rw e ((λ z m. elim m [ inl q ↦ rw q e | inr k ↦ order.comparable x y z e (h.0 z k) ]), h)
  ]

  pub sort-IsSorted : (xs : List A) → IsSorted before (sort_by before xs)
  unfolding sort_by
  sort-IsSorted [] = tt
  sort-IsSorted (x ∷ xs) = insert-IsSorted x (sort_by before xs) (sort-IsSorted xs)

  -- What a limit cuts off comes before nothing that it keeps.
  pub take-IsSorted :
      (n : ℕ) (x y : A) (xs : List A)
      → IsSorted before xs
      → In x (take n xs)
      → In y (drop n xs)
      → before y x ≡ false
  take-IsSorted zero x y xs h mx my = elim mx [ ]
  take-IsSorted (suc n) x y [] h mx my = elim mx [ ]
  take-IsSorted (suc n) x y (z ∷ xs) h (inl e) my = rw e (h.0 y (In-drop y n xs my))
  take-IsSorted (suc n) x y (z ∷ xs) h (inr m) my = take-IsSorted n x y xs h.1 m my
