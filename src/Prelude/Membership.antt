-- ===== src/Prelude/Membership.antt =====
-- Membership in the lists that the list functions build.
use Prim.Native.Nat.{ℕ, zero, suc}
use mathlib.Core.Path.{◌≡◌, refl}
use mathlib.Core.Logic.{◌⊎◌, inl, inr}
use mathlib.Core.Bool.{Bool, true}
use mathlib.Core.List.{List, [], ◌∷◌, ◌++◌, map}
use mathlib.Core.Option.{some}
use native.Mathlib.Omega.{arith}
use econiq_ai.Prelude.Tests.{if◌then◌else◌, Bool-cases}
use econiq_ai.Prelude.Lists.{take, drop, filter, any, all, find, update_where, In}

module _ {A : Type 0} (a : A) where
  pub In-append_left : (xs ys : List A) → In a xs → In a (xs ++ ys)
  In-append_left [] ys h = elim h [ ]
  In-append_left (x ∷ xs) ys (inl e) = inl e
  In-append_left (x ∷ xs) ys (inr h) = inr (In-append_left xs ys h)

  pub In-append_right : (xs ys : List A) → In a ys → In a (xs ++ ys)
  In-append_right [] ys h = h
  In-append_right (x ∷ xs) ys h = inr (In-append_right xs ys h)

  pub In-append : (xs ys : List A) → In a (xs ++ ys) → In a xs ⊎ In a ys
  In-append [] ys h = inr h
  In-append (x ∷ xs) ys (inl e) = inl (inl e)
  In-append (x ∷ xs) ys (inr h) = elim (In-append xs ys h) [ inl l ↦ inl (inr l) | inr r ↦ inr r ]

  pub In-filter : (p : A → Bool) (xs : List A) → In a (filter p xs) → In a xs × (p a ≡ true)
  In-filter p [] h = elim h [ ]
  In-filter p (x ∷ xs) h = ground (arith, In-filter p xs)

  pub filter-In : (p : A → Bool) (xs : List A) → In a xs → p a ≡ true → In a (filter p xs)
  filter-In p [] h t = elim h [ ]
  filter-In p (x ∷ xs) h t = ground (arith, filter-In p xs)

  pub In-take : (n : ℕ) (xs : List A) → In a (take n xs) → In a xs
  In-take zero xs h = elim h [ ]
  In-take (suc n) [] h = elim h [ ]
  In-take (suc n) (x ∷ xs) (inl e) = inl e
  In-take (suc n) (x ∷ xs) (inr h) = inr (In-take n xs h)

  pub In-drop : (n : ℕ) (xs : List A) → In a (drop n xs) → In a xs
  In-drop zero xs h = h
  In-drop (suc n) [] h = elim h [ ]
  In-drop (suc n) (x ∷ xs) h = inr (In-drop n xs h)

  pub In-take_or_drop : (n : ℕ) (xs : List A) → In a xs → In a (take n xs) ⊎ In a (drop n xs)
  In-take_or_drop zero xs h = inr h
  In-take_or_drop (suc n) [] h = elim h [ ]
  In-take_or_drop (suc n) (x ∷ xs) (inl e) = inl (inl e)
  In-take_or_drop (suc n) (x ∷ xs) (inr h) = elim (In-take_or_drop n xs h) [
    | inl l ↦ inl (inr l)
    | inr r ↦ inr r
  ]

  pub In-map : {B : Type 0} (f : A → B) (xs : List A) → In a xs → In (f a) (map f xs)
  In-map f [] h = elim h [ ]
  In-map f (x ∷ xs) (inl e) = inl (λ i. f (e i))
  In-map f (x ∷ xs) (inr h) = inr (In-map f xs h)

  pub any_of_In : (p : A → Bool) (xs : List A) → In a xs → p a ≡ true → any p xs ≡ true
  any_of_In p [] h t = elim h [ ]
  any_of_In p (x ∷ xs) h t = ground (arith, any_of_In p xs)

  pub all-In : (p : A → Bool) (xs : List A) → all p xs ≡ true → In a xs → p a ≡ true
  all-In p [] t h = elim h [ ]
  all-In p (x ∷ xs) t h = ground (arith, all-In p xs)

  pub find-In : (p : A → Bool) (xs : List A) → find p xs ≡ some a → In a xs × (p a ≡ true)
  find-In p [] h = cc
  find-In p (x ∷ xs) h = ground (arith, find-In p xs)

  -- A row of an updated table is a row of the old one, changed if the condition held of it.
  pub In-update_where :
      (s : A → Bool) (f : A → A) (xs : List A)
      → In a (update_where s f xs)
      → (x : A) × In x xs × (a ≡ (if s x then f x else x))
  In-update_where s f [] h = elim h [ ]
  In-update_where s f (x ∷ xs) (inl e) = (x, inl refl, e)
  In-update_where s f (x ∷ xs) (inr h) = let (y, m, e) = In-update_where s f xs h in (y, inr m, e)

  pub update_where-In :
      (s : A → Bool) (f : A → A) (xs : List A)
      → In a xs
      → In (if s a then f a else a) (update_where s f xs)
  update_where-In s f [] h = elim h [ ]
  update_where-In s f (x ∷ xs) (inl e) = inl (λ i. if s (e i) then f (e i) else e i)
  update_where-In s f (x ∷ xs) (inr h) = inr (update_where-In s f xs h)

module _ {A : Type 0} where
  pub map-In :
      {B : Type 0} (f : A → B) (b : B) (xs : List A)
      → In b (map f xs)
      → (x : A) × In x xs × (b ≡ f x)
  map-In f b [] h = elim h [ ]
  map-In f b (x ∷ xs) (inl e) = (x, inl refl, e)
  map-In f b (x ∷ xs) (inr h) = let (y, m, e) = map-In f b xs h in (y, inr m, e)

  pub any-In : (p : A → Bool) (xs : List A) → any p xs ≡ true → (x : A) × In x xs × (p x ≡ true)
  any-In p [] h = cc
  any-In p (x ∷ xs) h = elim (Bool-cases (p x)) [
    | inl e ↦ (x, inl refl, e)
    | inr e ↦ let (y, m, t) = any-In p xs (ground arith) in (y, inr m, t)
  ]

  pub all_intro : (p : A → Bool) (xs : List A) → ((x : A) → In x xs → p x ≡ true) → all p xs ≡ true
  all_intro p [] h = refl
  all_intro p (x ∷ xs) h = ground (arith, h x (inl refl), all_intro p xs (λ y m. h y (inr m)))
