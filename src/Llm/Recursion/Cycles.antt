-- ===== src/Llm/Recursion/Cycles.antt =====
-- schema_tools.py: what `schema_is_recursive` finds is a cycle.
use econiq_ai.Prelude.{
  ℕ, zero, suc, ◌≡◌, ◌∙◌, ◌⊎◌, refl, sym, ap, inl, inr, Bool, true, false, none, some, List, [],
  ◌∷◌, any, Bool-cases, Option-cases, subst, In, length,
}
use econiq_ai.Prelude.Membership.{any-In}
use econiq_ai.Prelude.Text.{Text, text_eq}
use econiq_ai.Prelude.Strips.{text_eq_sound}
use econiq_ai.Llm.Recursion.Fuel.{search_ends}
use econiq_ai.Llm.Recursion.{Edges, Visit, has, refs_from, any_visits, visits, sources, search}

-- One definition refers to another, and the chains of such references.
abbrev pub Refers : Edges → Text → Text → Type 0
Refers edges a b = (children : List Text) × (refs_from a edges ≡ some children) × In b children

pub data Reaches (edges : Edges) : Text → Text → Type 0 where
  directly : {a b : Text} → Refers edges a b → Reaches edges a b
  further : {a b c : Text} → Reaches edges a b → Refers edges b c → Reaches edges a c

abbrev pub HasCycle : Edges → Type 0
HasCycle edges = (name : Text) × Reaches edges name name

found-eq : (b c : Bool) (s t : List Text) → ◌≡◌ {A = Visit} (some (b, s)) (some (c, t)) → b ≡ c
found-eq b c s t e = ap flag e
  where
    flag : Visit → Bool
    flag none = c
    flag (some (x, l)) = x

any_visits-HasCycle :
    (edges : Edges) (visit : Text → List Text → Visit) (children seen now : List Text)
    → ((child : Text) (s t : List Text)
        → In child children
        → visit child s ≡ some (true, t)
        → HasCycle edges)
    → any_visits visit children seen ≡ some (true, now)
    → HasCycle edges
unfolding any_visits
any_visits-HasCycle edges visit [] seen now h e =
    absurd (let f = found-eq false true seen now e in cc)
any_visits-HasCycle edges visit (child ∷ children) seen now h e =
    elim (Option-cases (visit child seen)) [
      | inl q ↦ absurd (let f = rw (any_visits, q) at e in cc)
      | inr ((true, t), q) ↦ h child seen t (inl refl) q
      | inr ((false, t), q) ↦
          any_visits-HasCycle edges visit children t now (λ c s u m. h c s u (inr m))
            (rw (any_visits, q) at e)
    ]

onto :
    (edges : Edges) (stack : List Text) (name child : Text)
    → ((s : Text) → In s stack → Reaches edges s name)
    → Refers edges name child
    → (s : Text) → In s (name ∷ stack)
    → Reaches edges s child
onto edges stack name child h r s (inl e) = directly (subst (λ n. Refers edges n child) (sym e) r)
onto edges stack name child h r s (inr m) = further (h s m) r

visits-HasCycle :
    (edges : Edges) (fuel : ℕ) (stack : List Text) (name : Text) (seen now : List Text)
    → ((s : Text) → In s stack → Reaches edges s name)
    → visits edges fuel stack name seen ≡ some (true, now)
    → HasCycle edges
unfolding visits has
visits-HasCycle edges zero stack name seen now h e = absurd (cc)
visits-HasCycle edges (suc fuel) stack name seen now h e =
    elim (Bool-cases (any (text_eq name) stack)) [
      | inl p ↦
          let (s, m, t) = any-In (text_eq name) stack p in
          (s, subst (λ n. Reaches edges s n) (text_eq_sound name s t) (h s m))
      | inr p ↦ elim (Bool-cases (any (text_eq name) seen)) [
        | inl q ↦ absurd (let f = found-eq false true seen now (rw (visits, has, p, q) at e) in cc)
        | inr q ↦ elim (Option-cases (refs_from name edges)) [
          | inl g ↦
              absurd (let f = found-eq false true seen now (rw (visits, has, p, q, g) at e) in cc)
          | inr (children, g) ↦
              any_visits-HasCycle edges (visits edges fuel (name ∷ stack)) children (name ∷ seen)
                now
                (λ child s t m d.
                  visits-HasCycle edges fuel (name ∷ stack) child s t
                    (onto edges stack name child h (children, g, m)) d)
                (rw (visits, has, p, q, g) at e)
        ]
      ]
    ]

search_sound :
    (edges : Edges) (seen : List Text) → search edges ≡ some (true, seen) → HasCycle edges
unfolding search
search_sound edges seen e =
    any_visits-HasCycle edges (visits edges (suc (length edges)) []) (sources edges) [] seen
      (λ name s t m d. visits-HasCycle edges (suc (length edges)) [] name s t (λ n f. elim f [ ]) d)
      e

-- The search for a cycle of references ends, with one unit of fuel for each definition and one
-- more, and what it calls cyclic has a definition that refers to itself, directly or through
-- others.
pub search_decides :
    (edges : Edges)
    → (cyclic : Bool) × (seen : List Text) × (search edges ≡ some (cyclic, seen))
      × ((cyclic ≡ false) ⊎ HasCycle edges)
search_decides edges =
    let (cyclic, seen, e) = search_ends edges in
    (
      cyclic,
      seen,
      e,
      elim (Bool-cases cyclic) [
        | inl t ↦ inr (search_sound edges seen (e ∙ ap (λ b. some (b, seen)) t))
        | inr f ↦ inl f
      ],
    )
