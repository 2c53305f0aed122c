-- ===== src/Ontology/Edges/Layers.antt =====
-- What the legal edges of graph.py let a chain of relationships do.
use econiq_ai.Prelude.{
  ◌≡◌, refl, sym, ap, ◌∙◌, subst, ◌⊎◌, inl, inr, Bool, true, not, ◌||◌, List, [], ◌∷◌, ok, ==_iff,
  In, all, arith, Bool-cases, get_or,
}
use econiq_ai.Prelude.Membership.{all-In}
use econiq_ai.Ontology.Edges.{
  EntityType, document, claim, event, process, bottleneck, capability, asset, entity_index,
  same_entity, RelationshipType, influences, creates, requires, expressed_by, affects, supports,
  contradicts, supersedes, derived_from, edge_is_legal, allowed_edges, EntityRef, Relationship,
  validate,
}

abbrev every_type : List EntityType
every_type = document ∷ claim ∷ event ∷ process ∷ bottleneck ∷ capability ∷ asset ∷ []

back : (t : EntityType) → t ≡ get_or every_type (entity_index t) document
back document = refl
back claim = refl
back event = refl
back process = refl
back bottleneck = refl
back capability = refl
back asset = refl

pub same_entity_eq : (s t : EntityType) → same_entity s t ≡ true → s ≡ t
same_entity_eq s t e =
    back s ∙ ap (λ i. get_or every_type i document) ((==_iff _ _).0 e) ∙ sym (back t)

In-every_type : (t : EntityType) → In t every_type
In-every_type document = inl refl
In-every_type claim = inr (inl refl)
In-every_type event = inr (inr (inl refl))
In-every_type process = inr (inr (inr (inl refl)))
In-every_type bottleneck = inr (inr (inr (inr (inl refl))))
In-every_type capability = inr (inr (inr (inr (inr (inl refl)))))
In-every_type asset = inr (inr (inr (inr (inr (inr (inl refl))))))

-- From a bottleneck, an edge leads to a capability or to a bottleneck.
stays_put : RelationshipType → EntityType → Bool
stays_put r t =
    not (edge_is_legal bottleneck r t) || same_entity t capability || same_entity t bottleneck

stays_put_lem : (r : RelationshipType) → all (stays_put r) every_type ≡ true
unfolding stays_put edge_is_legal allowed_edges
stays_put_lem influences = refl
stays_put_lem creates = refl
stays_put_lem requires = refl
stays_put_lem expressed_by = refl
stays_put_lem affects = refl
stays_put_lem supports = refl
stays_put_lem contradicts = refl
stays_put_lem supersedes = refl
stays_put_lem derived_from = refl

after_bottleneck :
    (r : RelationshipType) (t : EntityType)
    → edge_is_legal bottleneck r t ≡ true
    → (t ≡ capability) ⊎ (t ≡ bottleneck)
unfolding stays_put
after_bottleneck r t e =
    let h = all-In t (stays_put r) every_type (stays_put_lem r) (In-every_type t) in
    elim (Bool-cases (same_entity t capability)) [
      | inl c ↦ inl (same_entity_eq t capability c)
      | inr c ↦ inr (same_entity_eq t bottleneck (ground arith))
    ]

-- The edge of a relationship that the validator accepts is legal.
pub validate-legal :
    (r : Relationship)
    → validate r ≡ ok r
    → edge_is_legal r.source.entity_type r.relationship_type r.target.entity_type ≡ true
unfolding validate
validate-legal r e = ground arith

-- A chain of accepted relationships, each from the node that the one before leads to, and the
-- nodes it leads to, the last one included.
pub data Chain : EntityRef → List EntityRef → EntityRef → Type 0 where
  stop : {a : EntityRef} → Chain a [] a
  follow :
      {c : EntityRef} {via : List EntityRef} (r : Relationship)
      → validate r ≡ ok r
      → Chain r.target via c
      → Chain r.source (r.target ∷ via) c

-- Every chain of accepted relationships from a bottleneck to an asset leads through a capability.
pub Chain-passes_capability :
    {a c : EntityRef} {via : List EntityRef}
    → Chain a via c
    → a.entity_type ≡ bottleneck
    → c.entity_type ≡ asset
    → (n : EntityRef) × In n via × (n.entity_type ≡ capability)
Chain-passes_capability stop from to = cc
Chain-passes_capability (follow {c} {via} r good rest) from to =
    elim (after_bottleneck r.relationship_type r.target.entity_type (
      subst (λ t. edge_is_legal t r.relationship_type r.target.entity_type ≡ true) from
        (validate-legal r good))) [
          | inl e ↦ (r.target, inl refl, e)
          | inr e ↦ let (n, m, t) = Chain-passes_capability rest e to in (n, inr m, t)
        ]
