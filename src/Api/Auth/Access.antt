-- ===== src/Api/Auth/Access.antt =====
-- auth.py: who is served.
use econiq_ai.Prelude.{
  ◌≡◌, ◌∙◌, inl, inr, true, Option, none, some, [], ◌∷◌, Bool-cases, Option-cases,
}
use econiq_ai.Prelude.Text.{Text, or_else}
use econiq_ai.Api.Auth.{
  Request, Principal, Claims, Verifier, served, bearer, verify, verify_presented_token, member,
  after_middleware, authenticate,
}

module _ (verifier : Verifier) where
  -- The token of a request was decoded, and its claims name the principal.
  abbrev pub IsProven : Request → Principal → Type 0
  IsProven request principal =
      (verifier.enabled ≡ true)
      × ((token : Text) × (claims : Claims) × (bearer verifier request ≡ some token)
          × (verifier.decode token ≡ some claims)
          × (claims.sub ≡ some principal.user_id)
          × (claims.org_id ≡ principal.organization_id))

  not_anonymous : (p : Principal) → member verifier none ≡ served p → ⊥
  unfolding member
  not_anonymous p e = elim (Bool-cases verifier.enabled) [
    | inl t ↦ let f = rw (member, t) at e in cc
    | inr t ↦ let f = rw (member, t) at e in cc
  ]

  known : (q p : Principal) → member verifier (some q) ≡ served p → q ≡ p
  unfolding member
  known q p e = cc

  or_else_lem : (o : Option Text) (s : Text) → or_else o none ≡ some s → o ≡ some s
  unfolding or_else
  or_else_lem none s e = absurd (cc)
  or_else_lem (some []) s e = absurd (cc)
  or_else_lem (some (c ∷ t)) s e = e

  -- What the claims of a verified token say.
  verify_lem :
      (token : Text) (p : Principal)
      → verify verifier token ≡ some p
      → (claims : Claims) × (verifier.decode token ≡ some claims)
        × (claims.sub ≡ some p.user_id)
        × (claims.org_id ≡ p.organization_id)
  unfolding verify
  verify_lem token p e = elim (Option-cases (verifier.decode token)) [
    | inl d ↦ absurd (let f = rw (verify, d) at e in cc)
    | inr (claims, d) ↦ elim (Option-cases (or_else claims.sub none)) [
      | inl n ↦ absurd (let f = rw (verify, d, n) at e in cc)
      | inr (subject, n) ↦
          let f = rw (verify, d, n) at e in (claims, d, or_else_lem claims.sub subject n ∙ cc, cc)
    ]
  ]

  -- A route that requires a member is served only where an identity provider is configured and the
  -- request bears a token that it decoded, with the user and the organization that the claims of
  -- the token name.
  pub authenticate-IsProven :
      (request : Request) (principal : Principal)
      → authenticate verifier request ≡ served principal
      → IsProven request principal
  unfolding authenticate verify_presented_token after_middleware
  authenticate-IsProven request principal e = elim (Option-cases (bearer verifier request)) [
    | inl b ↦ absurd (not_anonymous principal (rw (authenticate, verify_presented_token, b) at e))
    | inr (token, b) ↦ elim (Bool-cases verifier.enabled) [
      | inr off ↦ absurd (let f = rw (authenticate, verify_presented_token, b, off) at e in cc)
      | inl on ↦ elim (Option-cases (verify verifier token)) [
        | inl v ↦ absurd (let f = rw (authenticate, verify_presented_token, b, on, v) at e in cc)
        | inr (q, v) ↦
            let k = known q principal (rw (authenticate, verify_presented_token, b, on, v) at e) in
            let (claims, d, u, o) = verify_lem token q v in
            (on, (token, claims, b, d, rw k at u, rw k at o))
      ]
    ]
  ]
