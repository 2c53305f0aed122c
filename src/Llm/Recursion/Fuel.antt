-- ===== src/Llm/Recursion/Fuel.antt =====
-- schema_tools.py: the search of `schema_is_recursive` comes to an end.
use econiq_ai.Prelude.{
  ℕ, zero, suc, ◌≤◌, ◌<◌, ◌≡◌, refl, inl, inr, Bool, true, false, some, List, [], ◌∷◌, any, not,
  ◌||◌, length, count, arith, Bool-cases, Option-cases, subst,
}
use econiq_ai.Prelude.Text.{Text, text_eq}
use econiq_ai.Prelude.Strips.{text_eq_refl, text_eq_sound}
use econiq_ai.Llm.Recursion.{Edges, Visit, has, refs_from, any_visits, visits, sources, search}

-- the definitions that have not been seen
unseen : Edges → List Text → ℕ
unseen edges seen = count (λ name. not (has name seen)) (sources edges)

-- To see one more does not raise it, and lowers it where a definition is seen first.
count-less :
    (names seen : List Text) (name : Text)
    → count (λ n. not (has n (name ∷ seen))) names ≤ count (λ n. not (has n seen)) names
unfolding has
count-less [] seen name = omega arith
count-less (n ∷ names) seen name = ground (arith, count-less names seen name)

unseen-source :
    (edges : Edges) (seen : List Text) (name : Text) (children : List Text)
    → refs_from name edges ≡ some children
    → has name seen ≡ false
    → unseen edges (name ∷ seen) < unseen edges seen
unfolding unseen refs_from sources has
unseen-source [] seen name children t h = cc
unseen-source ((source, l) ∷ edges) seen name children t h =
    elim (Bool-cases (text_eq name source)) [
      | inl e ↦
          let q = text_eq_sound name source e in
          let a : has source (name ∷ seen) ≡ true =
            unfold has in
            subst (λ n. (text_eq n name || any (text_eq n) seen) ≡ true) q
              (rw (text_eq_refl name) refl) in
          let b : has source seen ≡ false = subst (λ n. has n seen ≡ false) q h in
          rw (a, b) (omega (arith, count-less (sources edges) seen name))
      | inr e ↦ ground (arith, unseen-source edges seen name children (rw (refs_from, e) at t) h)
    ]

-- A visit that ends, with no more unseen than before.
Ends : Edges → List Text → Visit → Type 0
Ends edges seen visit =
    (b : Bool) × (now : List Text) × (visit ≡ some (b, now))
    × (unseen edges now ≤ unseen edges seen)

any_visits-Ends :
    (edges : Edges) (visit : Text → List Text → Visit) (bound : ℕ) (children seen : List Text)
    → ((name : Text) (s : List Text) → unseen edges s ≤ bound → Ends edges s (visit name s))
    → unseen edges seen ≤ bound
    → Ends edges seen (any_visits visit children seen)
unfolding Ends any_visits
any_visits-Ends edges visit bound [] seen h l = (false, seen, refl, omega arith)
any_visits-Ends edges visit bound (child ∷ children) seen h l =
    let (b, now, e, u) = h child seen l in
    elim (Bool-cases b) [
      | inl t ↦ (true, now, rw (any_visits, e) (rw t refl), u)
      | inr f ↦
          let (c, last, d, v) =
            any_visits-Ends edges visit bound children now h (omega (arith, u)) in
          (c, last, rw (any_visits, e) (rw f d), omega (arith, u, v))
    ]

visits-Ends :
    (edges : Edges) (fuel : ℕ) (stack : List Text) (name : Text) (seen : List Text)
    → unseen edges seen < fuel
    → Ends edges seen (visits edges fuel stack name seen)
unfolding Ends visits
visits-Ends edges zero stack name seen l = absurd (omega arith)
visits-Ends edges (suc fuel) stack name seen l = elim (Bool-cases (has name stack)) [
  | inl e ↦ (true, seen, rw e refl, omega arith)
  | inr e ↦ rw e (elim (Bool-cases (has name seen)) [
    | inl f ↦ (false, seen, rw f refl, omega arith)
    | inr f ↦ rw f (elim (Option-cases (refs_from name edges)) [
      | inl g ↦ (false, seen, rw g refl, omega arith)
      | inr (children, g) ↦
          let u = unseen-source edges seen name children g f in
          let (b, now, d, v) =
            any_visits-Ends edges (visits edges fuel (name ∷ stack)) (unseen edges (name ∷ seen))
              children (name ∷ seen)
              (λ child s k. visits-Ends edges fuel (name ∷ stack) child s (omega (arith, k, u)))
              (omega arith) in
          (b, now, rw g d, omega (arith, u, v))
    ])
  ])
]

count-le : (p : Text → Bool) (names : List Text) → count p names ≤ length names
count-le p [] = omega arith
count-le p (n ∷ names) = ground (arith, count-le p names)

length-sources : (edges : Edges) → length (sources edges) ≡ length edges
unfolding sources
length-sources [] = refl
length-sources ((source, l) ∷ edges) = omega (arith, length-sources edges)

bounded : (edges : Edges) → unseen edges [] ≤ length edges
unfolding unseen
bounded edges =
    omega (arith, count-le (λ name. not (has name [])) (sources edges), length-sources edges)

-- The search has fuel enough.
pub search_ends :
    (edges : Edges) → (cyclic : Bool) × (seen : List Text) × (search edges ≡ some (cyclic, seen))
unfolding search Ends
search_ends edges = let (b, now, e, u) = ends in (b, now, e)
  where
    ends : Ends edges [] (search edges)
    ends =
        any_visits-Ends edges (visits edges (suc (length edges)) []) (length edges) (sources edges)
          [] (λ name s k. visits-Ends edges (suc (length edges)) [] name s (omega arith))
          (bounded edges)
