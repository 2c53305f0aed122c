-- ===== src/Prelude/Slices.antt =====
-- Slices of lists that are put together, and searches in them.
use Prim.Native.Nat.{ℕ, zero, suc, ◌+◌, ◌-◌, ◌≤◌, ◌<◌}
use mathlib.Core.Path.{◌≡◌, refl}
use mathlib.Core.Logic.{inl, inr}
use mathlib.Core.Bool.{Bool, true, false}
use mathlib.Core.Option.{some}
use mathlib.Core.List.{List, [], ◌∷◌, ◌++◌}
use native.Mathlib.Omega.{arith}
use econiq_ai.Prelude.Tests.{Bool-cases}
use econiq_ai.Prelude.Lists.{length, take, drop, find, get_elem?, In}
use econiq_ai.Prelude.Text.{slice}

module _ {A : Type 0} where
  drop-length : (xs ys : List A) → drop (length xs) (xs ++ ys) ≡ ys
  drop-length [] ys = refl
  drop-length (x ∷ xs) ys = drop-length xs ys

  take-length : (xs ys : List A) → take (length xs) (xs ++ ys) ≡ xs
  take-length [] ys = refl
  take-length (x ∷ xs) ys = cc (take-length xs ys)

  take-append : (n : ℕ) (xs ys : List A) → n ≤ length xs → take n (xs ++ ys) ≡ take n xs
  take-append zero xs ys h = refl
  take-append (suc n) [] ys h = absurd (omega arith)
  take-append (suc n) (x ∷ xs) ys h = ground (arith, take-append n xs ys)

  -- The piece that stands between two others.
  pub slice_middle :
      (xs p ys : List A) → slice (xs ++ (p ++ ys)) (length xs) (length xs + length p) ≡ p
  slice_middle xs p ys =
      let e : length xs + length p - length xs ≡ length p = omega arith in
      rw (e, drop-length xs (p ++ ys)) (take-length p ys)

  pub slice-append :
      (xs ys : List A) (a b : ℕ) → b ≤ length xs → slice (xs ++ ys) a b ≡ slice xs a b
  slice-append xs ys zero b h = let e : b - 0 ≡ b = omega arith in rw e (take-append b xs ys h)
  slice-append [] ys (suc a) b h = let e : b - suc a ≡ 0 = omega arith in rw e
  slice-append (x ∷ xs) ys (suc a) zero h = let e : 0 - suc a ≡ 0 = omega arith in rw e
  slice-append (x ∷ xs) ys (suc a) (suc b) h =
      let e : suc b - suc a ≡ b - a = omega arith in rw e (slice-append xs ys a b (omega arith))

  -- An element of a list is one of each slice that reaches over its position.
  take-get_elem? :
      (n k : ℕ) (x : A) (xs : List A) → get_elem? xs k ≡ some x → k < n → In x (take n xs)
  take-get_elem? zero k x xs h l = absurd (omega arith)
  take-get_elem? (suc n) k x [] h l = cc
  take-get_elem? (suc n) zero x (y ∷ xs) h l = inl (cc)
  take-get_elem? (suc n) (suc k) x (y ∷ xs) h l = inr (take-get_elem? n k x xs h (omega arith))

  pub slice-get_elem? :
      (xs : List A) (a b k : ℕ) (x : A)
      → get_elem? xs k ≡ some x
      → a ≤ k
      → k < b
      → In x (slice xs a b)
  slice-get_elem? xs zero b k x h l u =
      let e : b - 0 ≡ b = omega arith in rw e (take-get_elem? b k x xs h u)
  slice-get_elem? [] (suc a) b k x h l u = cc
  slice-get_elem? (y ∷ xs) (suc a) b zero x h l u = absurd (omega arith)
  slice-get_elem? (y ∷ xs) (suc a) zero (suc k) x h l u = absurd (omega arith)
  slice-get_elem? (y ∷ xs) (suc a) (suc b) (suc k) x h l u =
      let e : suc b - suc a ≡ b - a = omega arith in
      rw e (slice-get_elem? xs a b k x h (omega arith) (omega arith))

  pub get_elem?-In : (xs : List A) (k : ℕ) (x : A) → get_elem? xs k ≡ some x → In x xs
  get_elem?-In [] k x h = cc
  get_elem?-In (y ∷ xs) zero x h = inl (cc)
  get_elem?-In (y ∷ xs) (suc k) x h = inr (get_elem?-In xs k x h)

  pub get_elem?-lt : (xs : List A) (k : ℕ) (x : A) → get_elem? xs k ≡ some x → k < length xs
  get_elem?-lt [] k x h = cc
  get_elem?-lt (y ∷ xs) zero x h = omega arith
  get_elem?-lt (y ∷ xs) (suc k) x h = omega (arith, get_elem?-lt xs k x h)

module _ {A : Type 0} (p : A → Bool) where
  pub find-append_left : (a : A) (xs ys : List A) → find p xs ≡ some a → find p (xs ++ ys) ≡ some a
  find-append_left a [] ys h = cc
  find-append_left a (x ∷ xs) ys h = ground (arith, find-append_left a xs ys)

  pub find-append_right :
      (xs ys : List A) → ((x : A) → In x xs → p x ≡ false) → find p (xs ++ ys) ≡ find p ys
  find-append_right [] ys h = refl
  find-append_right (x ∷ xs) ys h =
      ground (arith, h x (inl refl), find-append_right xs ys (λ y m. h y (inr m)))

  -- A search for what a list has does not fail.
  pub find_total : (a : A) (xs : List A) → In a xs → p a ≡ true → (b : A) × (find p xs ≡ some b)
  find_total a [] m t = elim m [ ]
  find_total a (x ∷ xs) (inl e) t = (x, ground arith)
  find_total a (x ∷ xs) (inr m) t = elim (Bool-cases (p x)) [
    | inl e ↦ (x, rw e refl)
    | inr e ↦ rw e (find_total a xs m t)
  ]
