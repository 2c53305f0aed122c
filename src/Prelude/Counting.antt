-- ===== src/Prelude/Counting.antt =====
-- How often a test holds in a list: SQL's unique indices say that it is once at most.
use Prim.Native.Nat.{◌+◌, ◌≤◌}
use mathlib.Core.Path.{◌≡◌, refl}
use mathlib.Core.Logic.{inl, inr}
use mathlib.Core.Bool.{Bool, true}
use mathlib.Core.List.{List, [], ◌∷◌, ◌++◌}
use mathlib.Core.Option.{some}
use native.Mathlib.Omega.{arith}
use econiq_ai.Prelude.Tests.{Bool-cases}
use econiq_ai.Prelude.Lists.{length, filter, all, count, find, update_where, In}

module _ {A : Type 0} (p : A → Bool) where
  pub count-append : (xs ys : List A) → count p (xs ++ ys) ≡ count p xs + count p ys
  count-append [] ys = omega arith
  count-append (x ∷ xs) ys = omega (arith, count-append xs ys)

  pub length-filter : (xs : List A) → length (filter p xs) ≡ count p xs
  length-filter [] = refl
  length-filter (x ∷ xs) = ground (arith, length-filter xs)

  pub count-pos : (a : A) (xs : List A) → In a xs → p a ≡ true → 1 ≤ count p xs
  count-pos a [] m t = elim m [ ]
  count-pos a (x ∷ xs) m t = ground (arith, count-pos a xs)

  pub In-count : (xs : List A) → 1 ≤ count p xs → (x : A) × In x xs × (p x ≡ true)
  In-count [] h = absurd (omega arith)
  In-count (x ∷ xs) h = elim (Bool-cases (p x)) [
    | inl e ↦ (x, inl refl, e)
    | inr e ↦ let (y, m, t) = In-count xs (ground arith) in (y, inr m, t)
  ]

  -- Where a test holds once at most, the rows that it holds of are one row.
  pub count_unique :
      (a b : A) (xs : List A) → count p xs ≤ 1 → In a xs → In b xs → p a ≡ true → p b ≡ true → a ≡ b
  count_unique a b [] h ma mb ta tb = elim ma [ ]
  count_unique a b (x ∷ xs) h (inl ea) (inl eb) ta tb = cc
  count_unique a b (x ∷ xs) h (inl ea) (inr mb) ta tb =
      absurd (ground (arith, count-pos b xs mb tb))
  count_unique a b (x ∷ xs) h (inr ma) (inl eb) ta tb =
      absurd (ground (arith, count-pos a xs ma ta))
  count_unique a b (x ∷ xs) h (inr ma) (inr mb) ta tb =
      count_unique a b xs (ground arith) ma mb ta tb

  -- An update that makes the test hold of no new row does not raise the count.
  pub count-update-le :
      (s : A → Bool) (f : A → A) (xs : List A)
      → ((x : A) → In x xs → s x ≡ true → p (f x) ≡ true → p x ≡ true)
      → count p (update_where s f xs) ≤ count p xs
  count-update-le s f [] h = omega arith
  count-update-le s f (x ∷ xs) h =
      ground (arith, h x (inl refl), count-update-le s f xs (λ y m. h y (inr m)))

module _ {A : Type 0} (p : A → Bool) where
  pub all-append : (xs ys : List A) → all p xs ≡ true → all p ys ≡ true → all p (xs ++ ys) ≡ true
  all-append [] ys h k = k
  all-append (x ∷ xs) ys h k = ground (arith, all-append xs ys)

  pub filter-append : (xs ys : List A) → filter p (xs ++ ys) ≡ filter p xs ++ filter p ys
  filter-append [] ys = refl
  filter-append (x ∷ xs) ys = ground (arith, filter-append xs ys)

  pub count_mono :
      (q : A → Bool) (xs : List A) → ((x : A) → p x ≡ true → q x ≡ true) → count p xs ≤ count q xs
  count_mono q [] h = omega arith
  count_mono q (x ∷ xs) h = ground (arith, h x, count_mono q xs h)

  -- The one row that a unique test holds of is the one that a search finds.
  pub find_of_In :
      (a : A) (xs : List A) → count p xs ≤ 1 → In a xs → p a ≡ true → find p xs ≡ some a
  find_of_In a [] h m t = elim m [ ]
  find_of_In a (x ∷ xs) h (inl e) t = ground arith
  find_of_In a (x ∷ xs) h (inr m) t = ground (arith, find_of_In a xs, count-pos p a xs m t)

module _ {A : Type 0} where
  pub nil_of_length : (xs : List A) → length xs ≡ 0 → xs ≡ []
  nil_of_length [] h = refl
  nil_of_length (x ∷ xs) h = absurd (omega arith)
