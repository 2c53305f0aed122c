-- ===== src/Orchestration/Strokes.antt =====
-- A UUID printed as so many strokes, for the examples.
use Prim.Native.Char.{Char}
use Prim.Native.String.{[], ◌∷◌}
use econiq_ai.Prelude.{ℕ, zero, suc, String, ◌≡◌, refl, ap}

abbrev stroke : Char
stroke = "1"

abbrev pub strokes : ℕ → String
strokes zero = []
strokes (suc n) = stroke ∷ strokes n

pub strokes-injective : (i j : ℕ) → strokes i ≡ strokes j → i ≡ j
strokes-injective zero zero e = refl
strokes-injective zero (suc j) e = cc
strokes-injective (suc i) zero e = cc
strokes-injective (suc i) (suc j) e = ap (λ n. suc n) (strokes-injective i j cc)
