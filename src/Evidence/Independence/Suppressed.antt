-- ===== src/Evidence/Independence/Suppressed.antt =====
-- The counts of independence.py.
use econiq_ai.Prelude.{
  ℕ, suc, ◌+◌, ◌≡◌, refl, ◌∙◌, Bool, true, false, not, ◌&&◌, ◌||◌, Option, none, some, List, [],
  ◌∷◌, ◌++◌, String, length, length-append, length-map, map, arith, if◌then◌else◌,
}
use econiq_ai.Evidence.Independence.{
  SourceDocument, Group, place, with_place, group_all, kept_before, ids_of, assess_independence,
  suppressed, suppressed_in, shingles_of, overlaps, same_name,
}

-- The documents that the groups hold.
abbrev held : List Group → ℕ
held [] = 0
held (g ∷ groups) = suc (length g.added) + held groups

held-suppressed :
    (groups : List Group) → length groups + suppressed_in (map ids_of groups) ≡ held groups
unfolding suppressed_in
held-suppressed [] = refl
held-suppressed (g ∷ groups) =
    omega
      (arith, held-suppressed groups, length-map (λ (d : SourceDocument). d.document_id) g.added)

held-append : (xs ys : List Group) → held (xs ++ ys) ≡ held xs + held ys
held-append [] ys = omega arith
held-append (x ∷ xs) ys = omega (arith, held-append xs ys)

-- A document was placed in one of the groups, if in any.
abbrev IsAdding : ℕ → Option (List Group × Bool) → Type 0
IsAdding n none = Unit {0}
IsAdding n (some (placed, copied)) = held placed ≡ n + 1

IsAdding-kept_before :
    (g : Group) (n : ℕ) (r : Option (List Group × Bool))
    → IsAdding n r
    → IsAdding (suc (length g.added) + n) (kept_before g r)
IsAdding-kept_before g n none h = tt
IsAdding-kept_before g n (some (placed, copied)) h = omega (arith, h)

IsAdding-if :
    (n : ℕ) (b : Bool) (x y : Option (List Group × Bool))
    → IsAdding n x
    → IsAdding n y
    → IsAdding n (if b then x else y)
IsAdding-if n true x y p q = p
IsAdding-if n false x y p q = q

module _ (tokens : String → List String) (top bottom : ℕ) where
  place-IsAdding :
      (d : SourceDocument) (groups : List Group)
      → IsAdding (held groups) (place tokens top bottom d groups)
  unfolding place
  place-IsAdding d [] = tt
  place-IsAdding d (g ∷ groups) =
      let same_publisher = same_name d.publisher g.first.publisher in
      let copied = overlaps top bottom (shingles_of tokens top bottom d) g.group_shingles in
      IsAdding-if (held (g ∷ groups)) (same_publisher || copied)
        (some (record g { added = g.added ++ d ∷ [] } ∷ groups, copied && not same_publisher))
        (kept_before g (place tokens top bottom d groups))
        (omega (arith, length-append g.added (d ∷ [])))
        (IsAdding-kept_before g (held groups) (place tokens top bottom d groups)
          (place-IsAdding d groups))

  held-with_place :
      (d : SourceDocument) (groups : List Group) (syndicated : List String)
      (r : Option (List Group × Bool))
      → IsAdding (held groups) r
      → held (with_place tokens top bottom d groups syndicated r).0 ≡ held groups + 1
  held-with_place d groups syndicated none h =
      held-append groups
        (record { first = d; group_shingles = shingles_of tokens top bottom d; added = [] } ∷ [])
  held-with_place d groups syndicated (some (placed, copied)) h = h

  held-group_all :
      (documents : List SourceDocument) (groups : List Group) (syndicated : List String)
      → held (group_all tokens top bottom documents groups syndicated).0
        ≡ held groups + length documents
  unfolding group_all
  held-group_all [] groups syndicated = omega arith
  held-group_all (d ∷ rest) groups syndicated =
      let next =
        with_place tokens top bottom d groups syndicated (place tokens top bottom d groups) in
      omega (
        arith,
        held-group_all rest next.0 next.1,
        held-with_place d groups syndicated (place tokens top bottom d groups)
            (place-IsAdding d groups),
      )

-- Every document is counted once: the independent sources and the suppressed documents are
-- together as many as the documents, whatever the tokens and the threshold.
assess_independence-suppressed :
    (tokens : String → List String) (top bottom : ℕ) (documents : List SourceDocument)
    → (assess_independence tokens top bottom documents).independent_source_count
        + suppressed (assess_independence tokens top bottom documents)
      ≡ length documents
unfolding assess_independence suppressed
assess_independence-suppressed tokens top bottom documents =
    held-suppressed (group_all tokens top bottom documents [] []).0
    ∙ held-group_all tokens top bottom documents [] []
    ∙ none_before (length documents)
  where
    none_before : (n : ℕ) → 0 + n ≡ n
    none_before n = omega arith
