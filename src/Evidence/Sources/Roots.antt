-- ===== src/Evidence/Sources/Roots.antt =====
-- Path halving and union keep the trees of dependence.py trees, and their roots.
use econiq_ai.Prelude.{
  ℕ, zero, suc, ◌≤◌, ◌≡◌, ◌≢◌, refl, sym, ap, ◌∙◌, subst, inl, inr, false, [], ◌∷◌, ◌==◌, ==_iff,
  if◌then◌else◌, arith, Bool-cases,
}
use econiq_ai.Evidence.Sources.{Parents, parent_of, set_parent, find_root}

pub parent_of-set :
    (y x g : ℕ) (t : Parents)
    → parent_of y (set_parent x g t) ≡ (if x == y then g else parent_of y t)
unfolding parent_of set_parent
parent_of-set y x g [] = refl
parent_of-set y x g ((k, o) ∷ rest) = ground (arith, parent_of-set y x g rest)

set-same : (x g : ℕ) (t : Parents) → parent_of x (set_parent x g t) ≡ g
set-same x g t = ground (arith, parent_of-set x x g t)

set-other : (y x g : ℕ) (t : Parents) → y ≢ x → parent_of y (set_parent x g t) ≡ parent_of y t
set-other y x g t d = ground (arith, parent_of-set y x g t)

-- `n` steps up from `x` stands the root `r`.
abbrev pub IsRooted : Parents → ℕ → ℕ → ℕ → Type 0
IsRooted t x r zero = (parent_of x t ≡ x) × (x ≡ r)
IsRooted t x r (suc n) = (parent_of x t ≢ x) × IsRooted t (parent_of x t) r n

pub rooted_once :
    (t : Parents) (n m x r s : ℕ) → IsRooted t x r n → IsRooted t x s m → (r ≡ s) × (n ≡ m)
rooted_once t zero zero x r s (e, p) (f, q) = (sym p ∙ q, refl)
rooted_once t zero (suc m) x r s (e, p) (f, q) = absurd (f e)
rooted_once t (suc n) zero x r s (e, p) (f, q) = absurd (e f)
rooted_once t (suc n) (suc m) x r s (e, p) (f, q) =
    let (a, b) = rooted_once t n m (parent_of x t) r s p q in (a, ap (λ k. suc k) b)

pub root_of : (t : Parents) (n x r : ℕ) → IsRooted t x r n → parent_of r t ≡ r
root_of t zero x r (e, p) = subst (λ z. parent_of z t ≡ z) p e
root_of t (suc n) x r (e, p) = root_of t n (parent_of x t) r p

-- All roots stay, and no node gets deeper.
abbrev pub KeepsRoots : Parents → Parents → Type 0
KeepsRoots t u = (n y r : ℕ) → IsRooted t y r n → (k : ℕ) × (k ≤ n) × IsRooted u y r k

-- The table in which `x` skips its parent.
abbrev pub halved_at : ℕ → Parents → Parents
halved_at x t = set_parent x (parent_of (parent_of x t) t) t

module _ (t : Parents) (x : ℕ) (inner : parent_of x t ≢ x) where
  abbrev halved : Parents
  halved = set_parent x (parent_of (parent_of x t) t) t

  halved-at : parent_of x halved ≡ parent_of (parent_of x t) t
  halved-at = set-same x (parent_of (parent_of x t) t) t

  halved-off : (y : ℕ) → y ≢ x → parent_of y halved ≡ parent_of y t
  halved-off y d = set-other y x (parent_of (parent_of x t) t) t d

  root_off : (y : ℕ) → parent_of y t ≡ y → y ≢ x
  root_off y e same = inner (subst (λ z. parent_of z t ≡ z) same e)

  root_stays : (y : ℕ) → parent_of y t ≡ y → parent_of y halved ≡ y
  root_stays y e = halved-off y (root_off y e) ∙ e

  -- A node other than `x`, whose parent keeps its root.
  off_path :
      (n y r : ℕ)
      → y ≢ x
      → parent_of y t ≢ y
      → (k : ℕ) × (k ≤ n) × IsRooted halved (parent_of y t) r k
      → (k : ℕ) × (k ≤ suc n) × IsRooted halved y r k
  off_path n y r d e (k, le, p) =
      let same = halved-off y d in
      (
        suc k,
        omega arith,
        ((λ q. e (sym same ∙ q)), subst (λ z. IsRooted halved z r k) (sym same) p),
      )

  under_root :
      (r : ℕ)
      → parent_of (parent_of x t) t ≡ parent_of x t
      → parent_of x t ≡ r
      → IsRooted halved x r 1
  under_root r f p = (
    (λ q. inner (sym f ∙ sym halved-at ∙ q)),
    subst (λ z. IsRooted halved z r 0) (sym (halved-at ∙ f)) (root_stays (parent_of x t) f, p),
  )

  -- Two steps up from `x` stands another node: a tree has no cycle.
  no_cycle :
      (n r : ℕ)
      → parent_of (parent_of x t) t ≢ parent_of x t
      → IsRooted t (parent_of (parent_of x t) t) r n
      → parent_of (parent_of x t) t ≢ x
  no_cycle n r f p q =
      let (_, e) =
        rooted_once t n (suc (suc n)) x r r (subst (λ z. IsRooted t z r n) q p) (inner, (f, p)) in
      absurd (omega (arith, e))

  deeper :
      (n r : ℕ)
      → parent_of (parent_of x t) t ≢ parent_of x t
      → IsRooted t (parent_of (parent_of x t) t) r n
      → (k : ℕ) × (k ≤ n) × IsRooted halved (parent_of (parent_of x t) t) r k
      → (k : ℕ) × (k ≤ suc (suc n)) × IsRooted halved x r k
  deeper n r f p (k, le, q) = (
    suc k,
    omega arith,
    (
      (λ e. no_cycle n r f p (sym halved-at ∙ e)),
      subst (λ z. IsRooted halved z r k) (sym halved-at) q,
    ),
  )

  halving-KeepsRoots : KeepsRoots t halved
  halving-KeepsRoots zero y r (e, p) = (zero, omega arith, (root_stays y e, p))
  halving-KeepsRoots (suc zero) y r (e, (f, p)) = elim (Bool-cases (y == x)) [
    | inr off ↦
        off_path zero y r (ground arith) e (halving-KeepsRoots zero (parent_of y t) r (f, p))
    | inl on ↦
        let same : y ≡ x = (==_iff y x).0 on in
        (
          1,
          omega arith,
          subst (λ z. IsRooted halved z r 1) (sym same)
              (under_root r (subst (λ z. parent_of (parent_of z t) t ≡ parent_of z t) same f)
                (subst (λ z. parent_of z t ≡ r) same p)),
        )
  ]
  halving-KeepsRoots (suc (suc n)) y r (e, (f, p)) = elim (Bool-cases (y == x)) [
    | inr off ↦
        off_path (suc n) y r (ground arith) e (halving-KeepsRoots (suc n) (parent_of y t) r (f, p))
    | inl on ↦
        let same : y ≡ x = (==_iff y x).0 on in
        subst (λ z. (k : ℕ) × (k ≤ suc (suc n)) × IsRooted halved z r k) (sym same)
          (deeper n r (subst (λ z. parent_of (parent_of z t) t ≢ parent_of z t) same f)
            (subst (λ z. IsRooted t (parent_of (parent_of z t) t) r n) same p)
            (subst (λ z. (k : ℕ) × (k ≤ n) × IsRooted halved (parent_of (parent_of z t) t) r k) same
              (halving-KeepsRoots n (parent_of (parent_of y t) t) r p)))
  ]

pub KeepsRoots-trans : (t u v : Parents) → KeepsRoots t u → KeepsRoots u v → KeepsRoots t v
KeepsRoots-trans t u v a b n y r p =
    let (k, le, q) = a n y r p in let (j, le', w) = b k y r q in (j, omega arith, w)

-- What `find_root` returns: the root, and a table in which every root is kept.
abbrev pub IsFound : Parents → ℕ → ℕ × Parents → Type 0
IsFound t r q = (q.0 ≡ r) × KeepsRoots t q.1

-- Two steps up from an inner node its root stands `n` steps higher at most.
two_up :
    (t : Parents) (x r n : ℕ)
    → IsRooted t (parent_of x t) r n
    → (k : ℕ) × (k ≤ n) × IsRooted t (parent_of (parent_of x t) t) r k
two_up t x r zero (f, p) = (zero, omega arith, subst (λ z. IsRooted t z r 0) (sym f) (f, p))
two_up t x r (suc n) (f, p) = (n, omega arith, p)

pub missed : (a b : ℕ) → a ≢ b → (a == b) ≡ false
missed a b d = elim (Bool-cases (a == b)) [ inl t ↦ absurd (d ((==_iff a b).0 t)) | inr f ↦ f ]

-- With fuel for the depth of a node, `find_root` returns its root, and every node keeps its root
-- at no greater depth.
pub find_root_lem :
    (fuel n x r : ℕ) (t : Parents) → IsRooted t x r n → n ≤ fuel → IsFound t r (find_root fuel x t)
unfolding find_root
find_root_lem zero zero x r t (e, p) le = (p, λ n y s q. (n, omega arith, q))
find_root_lem zero (suc n) x r t (e, p) le = absurd (omega arith)
find_root_lem (suc fuel) zero x r t (e, p) le =
    let rest = find_root fuel (parent_of (parent_of x t) t) (halved_at x t) in
    subst (λ b. IsFound t r (if b then (x, t) else rest)) (sym ((==_iff (parent_of x t) x).1 e))
      (p, λ n y s q. (n, omega arith, q))
find_root_lem (suc fuel) (suc n) x r t (e, p) le =
    let rest = find_root fuel (parent_of (parent_of x t) t) (halved_at x t) in
    let (k, low, q) = two_up t x r n p in
    let (j, lower, w) = halving-KeepsRoots t x e k (parent_of (parent_of x t) t) r q in
    let (same, keeps) =
      find_root_lem fuel j (parent_of (parent_of x t) t) r (halved_at x t) w (omega arith) in
    subst (λ b. IsFound t r (if b then (x, t) else rest)) (sym (missed (parent_of x t) x e))
      (same, KeepsRoots-trans t (halved_at x t) rest.1 (halving-KeepsRoots t x e) keeps)

-- The root `b` put under the root `a`.
module _ (t : Parents) (a b : ℕ) (root_a : parent_of a t ≡ a) (root_b : parent_of b t ≡ b)
    (apart : a ≢ b) where
  abbrev joined : Parents
  joined = set_parent b a t

  abbrev merged : ℕ → ℕ
  merged r = if b == r then a else r

  under_a : IsRooted joined b a 1
  under_a =
      let at = set-same b a t in
      (
        (λ e. apart (sym at ∙ e)),
        subst (λ z. IsRooted joined z a 0) (sym at) (set-other a b a t apart ∙ root_a, refl),
      )

  pub join_lem :
      (n y r : ℕ)
      → IsRooted t y r n
      → (k : ℕ) × (k ≤ suc n) × IsRooted (set_parent b a t) y (if b == r then a else r) k
  join_lem zero y r (e, p) = elim (Bool-cases (b == r)) [
    | inl on ↦ (
      1,
      omega arith,
      subst (λ c. IsRooted joined y (if c then a else r) 1) (sym on)
          (subst (λ z. IsRooted joined z a 1) (((==_iff b r).0 on) ∙ sym p) under_a),
    )
    | inr off ↦ (
      0,
      omega arith,
      subst (λ c. IsRooted joined y (if c then a else r) 0) (sym off)
          (set-other y b a t (ground arith) ∙ e, p),
    )
  ]
  join_lem (suc n) y r (e, p) =
      let off : y ≢ b = λ q. e (subst (λ z. parent_of z t ≡ z) (sym q) root_b) in
      let same = set-other y b a t off in
      let (k, le, w) = join_lem n (parent_of y t) r p in
      (
        suc k,
        omega arith,
        ((λ q. e (sym same ∙ q)), subst (λ z. IsRooted joined z (merged r) k) (sym same) w),
      )
