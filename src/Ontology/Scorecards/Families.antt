-- ===== src/Ontology/Scorecards/Families.antt =====
-- The families of quality.py stay apart.
use econiq_ai.Prelude.{
  ◌≡◌, refl, sym, ◌↔◌, Bool, true, not, List, String, ok, arith, all, In, str_eq, str_eq_iff, subst,
}
use econiq_ai.Prelude.Membership.{all-In, any-In}
use econiq_ai.Ontology.Scorecards.{
  ScoreFamily, thesis_quality, asset_quality, trade_quality, family_dimensions, names_member,
  Scorecard, dimensions_belong_to_family,
}

-- No name of one list is in the other.
abbrev apart : List String → List String → Bool
apart xs ys = all (λ d. not (names_member ys d)) xs

not_both :
    (xs ys : List String) (d : String)
    → apart xs ys ≡ true
    → names_member xs d ≡ true
    → names_member ys d ≡ true
    → ⊥
not_both xs ys d h x y =
    let (n, m, e) = any-In (λ n. str_eq d n) xs x in
    let same : d ≡ n = (str_eq_iff d n).0 e in
    let away = all-In n (λ d. not (names_member ys d)) xs h m in
    let there : names_member ys n ≡ true = subst (λ k. names_member ys k ≡ true) same y in
    ground arith

-- A dimension belongs to one family at most.
one_family :
    (f g : ScoreFamily) (d : String)
    → names_member (family_dimensions f) d ≡ true
    → names_member (family_dimensions g) d ≡ true
    → f ≡ g
one_family thesis_quality thesis_quality d x y = refl
one_family thesis_quality asset_quality d x y =
    absurd
      (not_both (family_dimensions thesis_quality) (family_dimensions asset_quality) d refl x y)
one_family asset_quality thesis_quality d x y =
    absurd
      (not_both (family_dimensions asset_quality) (family_dimensions thesis_quality) d refl x y)
one_family asset_quality asset_quality d x y = refl
one_family trade_quality g d x y = cc
one_family thesis_quality trade_quality d x y = cc
one_family asset_quality trade_quality d x y = cc

-- A dimension of an accepted scorecard belongs to the family of the scorecard and to no other.
dimensions-one_family :
    (c : Scorecard) (d : String) (f : ScoreFamily)
    → dimensions_belong_to_family c ≡ ok c
    → In d c.dimensions
    → (names_member (family_dimensions f) d ≡ true) ↔ (f ≡ c.family)
unfolding dimensions_belong_to_family
dimensions-one_family c d f accepted m =
    let belongs : all (names_member (family_dimensions c.family)) c.dimensions ≡ true =
      ground arith in
    let inside = all-In d (names_member (family_dimensions c.family)) c.dimensions belongs m in
    (
      λ h. one_family f c.family d h inside,
      λ e. subst (λ g. names_member (family_dimensions g) d ≡ true) (sym e) inside,
    )
