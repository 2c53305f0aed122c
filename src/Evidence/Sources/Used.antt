-- ===== src/Evidence/Sources/Used.antt =====
-- `effective_sources` of dependence.py skips the dependences on events that it was not given.
use econiq_ai.Prelude.{
  ℕ, zero, suc, ◌≡◌, refl, sym, ◌∙◌, inl, inr, Bool, true, false, not, ◌&&◌, ◌||◌, List, [], ◌∷◌,
  ◌==◌, if◌then◌else◌, arith, Bool-cases, filter, any, length, In, ◌≤◌,
}
use econiq_ai.Prelude.Membership.{In-filter}
use econiq_ai.Evidence.Dependence.{EvidenceItem, Dependence}
use econiq_ai.Evidence.Sources.{
  Parents, parent_of, set_parent, find_root, unite, unite_all, own_parents, knows,
}
use econiq_ai.Evidence.Sources.Roots.{parent_of-set}

-- What holds of both branches holds of an `if`.
pub of_if : {A : Type 0} (P : A → Type 0) (b : Bool) (x y : A) → P x → P y → P (if b then x else y)
of_if P true x y p q = p
of_if P false x y p q = q

-- The parent of an event with an entry has an entry.
abbrev pub IsClosed : Parents → Type 0
IsClosed t = (y : ℕ) → knows y t ≡ true → knows (parent_of y t) t ≡ true

knows-set_same :
    (y x g : ℕ) (t : Parents) → knows x t ≡ true → knows y (set_parent x g t) ≡ knows y t
unfolding set_parent
knows-set_same y x g [] h = absurd (cc)
knows-set_same y x g ((key, old) ∷ rest) h = ground (arith, knows-set_same y x g rest)

set_parent-IsClosed :
    (x g : ℕ) (t : Parents)
    → IsClosed t
    → knows x t ≡ true
    → knows g t ≡ true
    → IsClosed (set_parent x g t)
set_parent-IsClosed x g t closed hx hg y hy =
    let old : knows y t ≡ true = sym (knows-set_same y x g t hx) ∙ hy in
    let up = closed y old in
    rw (parent_of-set y x g t, knows-set_same (if x == y then g else parent_of y t) x g t hx)
      (of_if (λ z. knows z t ≡ true) (x == y) g (parent_of y t) hg up)

-- A known root, and a closed table of the same events.
abbrev pub Stays : Parents → ℕ × Parents → Type 0
Stays t q = (knows q.0 t ≡ true) × IsClosed q.1 × ((y : ℕ) → knows y q.1 ≡ knows y t)

find_root-Stays :
    (fuel x : ℕ) (t : Parents) → IsClosed t → knows x t ≡ true → Stays t (find_root fuel x t)
unfolding find_root
find_root-Stays zero x t closed h = (h, closed, λ y. refl)
find_root-Stays (suc fuel) x t closed h =
    let g = parent_of (parent_of x t) t in
    let hg = closed (parent_of x t) (closed x h) in
    let u = set_parent x g t in
    let same = λ (y : ℕ). knows-set_same y x g t h in
    let (root, shut, keys) =
      find_root-Stays fuel g u (set_parent-IsClosed x g t closed h hg) (same g ∙ hg) in
    of_if (Stays t) (parent_of x t == x) (x, t) (find_root fuel g u) (h, closed, λ y. refl)
      (sym (same (find_root fuel g u).0) ∙ root, shut, λ y. keys y ∙ same y)

unite-Stays :
    (fuel a b : ℕ) (t : Parents)
    → IsClosed t
    → knows a t ≡ true
    → knows b t ≡ true
    → IsClosed (unite fuel a b t) × ((y : ℕ) → knows y (unite fuel a b t) ≡ knows y t)
unfolding unite
unite-Stays fuel a b t closed ha hb =
    let (ra, u) = find_root fuel a t in
    let (rb, v) = find_root fuel b u in
    let (root, shut, keys) = find_root-Stays fuel a t closed ha in
    let (root', shut', keys') = find_root-Stays fuel b u shut (keys b ∙ hb) in
    let in_a : knows ra v ≡ true = keys' ra ∙ keys ra ∙ root in
    let in_b : knows rb v ≡ true = keys' rb ∙ root' in
    of_if (λ (q : Parents). IsClosed q × ((y : ℕ) → knows y q ≡ knows y t)) (ra == rb) v
      (set_parent rb ra v) (shut', λ y. keys' y ∙ keys y)
      (
        set_parent-IsClosed rb ra v shut' in_b in_a,
        λ y. knows-set_same y rb ra v in_b ∙ keys' y ∙ keys y,
      )

-- Whether an item is about the event.
abbrev pub is_event : ℕ → List EvidenceItem → Bool
is_event event items = any (λ (item : EvidenceItem). item.event_id == event) items

-- The dependences between two of the given events.
abbrev pub used : List EvidenceItem → List Dependence → List Dependence
used items dependences =
    filter
      (λ (d : Dependence). is_event d.source_event_id items && is_event d.dependent_event_id items)
      dependences

pub length-used :
    (items : List EvidenceItem) (dependences : List Dependence)
    → length (used items dependences) ≤ length dependences
length-used items [] = omega arith
length-used items (d ∷ rest) = ground (arith, length-used items rest)

unite_all-step :
    (fuel : ℕ) (d : Dependence) (rest : List Dependence) (t : Parents)
    → knows d.source_event_id t ≡ true
    → knows d.dependent_event_id t ≡ true
    → unite_all fuel (d ∷ rest) t
      ≡ unite_all fuel rest (unite fuel d.source_event_id d.dependent_event_id t)
unfolding unite_all
unite_all-step fuel d rest t ha hb = rw (ha, hb) refl

unite_all-used :
    (fuel : ℕ) (items : List EvidenceItem) (dependences : List Dependence) (t : Parents)
    → IsClosed t
    → ((y : ℕ) → knows y t ≡ is_event y items)
    → unite_all fuel dependences t ≡ unite_all fuel (used items dependences) t
unfolding unite_all
unite_all-used fuel items [] t closed same = refl
unite_all-used fuel items (d ∷ rest) t closed same =
    let a = d.source_event_id in
    let b = d.dependent_event_id in
    let p = same a in
    let q = same b in
    elim (Bool-cases (is_event a items && is_event b items)) [
      | inl e ↦
          let ha : knows a t ≡ true = ground (arith, p, q, e) in
          let hb : knows b t ≡ true = ground (arith, p, q, e) in
          let (shut, keys) = unite-Stays fuel a b t closed ha hb in
          rw e (
            unite_all-step fuel d rest t ha hb
            ∙ unite_all-used fuel items rest (unite fuel a b t) shut (λ y. keys y ∙ same y)
            ∙ sym (unite_all-step fuel d (used items rest) t ha hb))
      | inr e ↦
          let skip : (not (knows a t) || not (knows b t)) ≡ true = ground (arith, p, q, e) in
          rw (e, skip) (unite_all-used fuel items rest t closed same)
    ]

pub own_parents_self : (items : List EvidenceItem) (x : ℕ) → parent_of x (own_parents items) ≡ x
unfolding own_parents parent_of
own_parents_self [] x = refl
own_parents_self (item ∷ items) x = ground (arith, own_parents_self items x)

own_parents-knows :
    (items : List EvidenceItem) (y : ℕ) → knows y (own_parents items) ≡ is_event y items
unfolding own_parents
own_parents-knows [] y = refl
own_parents-knows (item ∷ items) y = ground (arith, own_parents-knows items y)

own_parents-IsClosed : (items : List EvidenceItem) → IsClosed (own_parents items)
own_parents-IsClosed items y h = rw (own_parents_self items y) h

pub unite_all-items :
    (items : List EvidenceItem) (dependences : List Dependence)
    → unite_all (length dependences) dependences (own_parents items)
      ≡ unite_all (length dependences) (used items dependences) (own_parents items)
unite_all-items items dependences =
    unite_all-used (length dependences) items dependences (own_parents items)
      (own_parents-IsClosed items) (own_parents-knows items)

-- Both events of a dependence have an entry.
abbrev pub IsKnown : Parents → Dependence → Type 0
IsKnown t d = (knows d.source_event_id t ≡ true) × (knows d.dependent_event_id t ≡ true)

pub used-IsKnown :
    (items : List EvidenceItem) (dependences : List Dependence) (d : Dependence)
    → In d (used items dependences)
    → IsKnown (own_parents items) d
used-IsKnown items dependences d m =
    let (i, e) =
      In-filter d
        (λ (d : Dependence).
          is_event d.source_event_id items && is_event d.dependent_event_id items)
        dependences m in
    let p = own_parents-knows items d.source_event_id in
    let q = own_parents-knows items d.dependent_event_id in
    (ground (arith, p, q, e), ground (arith, p, q, e))
