-- ===== src/Prelude/Strips.antt =====
-- What `str.strip` keeps, and the equality of texts.
use Prim.Native.Nat.{ℕ}
use mathlib.Core.Path.{◌≡◌, refl}
use mathlib.Core.Logic.{◌⊎◌, inl, inr}
use mathlib.Core.Bool.{true, false}
use mathlib.Core.List
use mathlib.Core.List.{[], ◌∷◌, ◌++◌, reverse}
use native.Mathlib.Omega.{arith}
use econiq_ai.Prelude.Lists.{In}
use econiq_ai.Prelude.Text.{Text, text_eq, is_space, lstrip, strip, is_empty}

In-reverse_aux : (c : ℕ) (s t : Text) → In c s ⊎ In c t → In c (List.reverse_aux s t)
In-reverse_aux c [] t (inl m) = elim m [ ]
In-reverse_aux c [] t (inr m) = m
In-reverse_aux c (d ∷ s) t (inl (inl e)) = In-reverse_aux c s (d ∷ t) (inr (inl e))
In-reverse_aux c (d ∷ s) t (inl (inr m)) = In-reverse_aux c s (d ∷ t) (inl m)
In-reverse_aux c (d ∷ s) t (inr m) = In-reverse_aux c s (d ∷ t) (inr (inr m))

In-reverse : (c : ℕ) (s : Text) → In c s → In c (reverse s)
In-reverse c s m = In-reverse_aux c s [] (inl m)

lstrip-In : (c : ℕ) (s : Text) → is_space c ≡ false → In c s → In c (lstrip s)
unfolding lstrip
lstrip-In c [] h m = m
lstrip-In c (d ∷ s) h m = ground (arith, lstrip-In c s h)

pub strip-In : (c : ℕ) (s : Text) → is_space c ≡ false → In c s → In c (strip s)
unfolding strip
strip-In c s h m = In-reverse c _ (lstrip-In c _ h (In-reverse c _ (lstrip-In c s h m)))

-- A text with a character that is no white space is not blank.
pub is_empty-strip : (c : ℕ) (s : Text) → is_space c ≡ false → In c s → is_empty (strip s) ≡ false
unfolding is_empty
is_empty-strip c s h m = kept (strip s) (strip-In c s h m)
  where
    kept : (t : Text) → In c t → is_empty t ≡ false
    kept [] n = elim n [ ]
    kept (d ∷ t) n = refl

pub text_eq_refl : (s : Text) → text_eq s s ≡ true
unfolding text_eq
text_eq_refl [] = refl
text_eq_refl (c ∷ s) = ground (arith, text_eq_refl s)

pub text_eq_sound : (s t : Text) → text_eq s t ≡ true → s ≡ t
unfolding text_eq
text_eq_sound [] [] h = refl
text_eq_sound [] (d ∷ t) h = cc
text_eq_sound (c ∷ s) [] h = cc
text_eq_sound (c ∷ s) (d ∷ t) h = ground (arith, text_eq_sound s t)
