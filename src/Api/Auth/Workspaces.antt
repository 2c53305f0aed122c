-- ===== src/Api/Auth/Workspaces.antt =====
-- auth.py: `current_workspace` finds or makes one workspace.
use econiq_ai.Prelude.{
  ℕ, ◌≤◌, ◌≡◌, refl, ◌∙◌, sym, ap, inl, inr, Bool, true, List, [], ◌∷◌, ◌++◌, arith, Bool-cases,
  count, filter, length, subst, In,
}
use econiq_ai.Prelude.Counting.{count-append, length-filter, filter-append}
use econiq_ai.Prelude.Membership.{In-filter}
use econiq_ai.Prelude.Text.{Text, text_eq}
use econiq_ai.Prelude.Strips.{text_eq_refl, text_eq_sound}
use econiq_ai.Api.Auth.{
  Principal, Workspace, WorkspaceDb, Found, workspace_is, has_external_id, workspace_external_id,
  new_workspace, is_storable, with_workspace, workspace_from, current_workspace,
}

-- the unique index on external ids
abbrev pub IsUnique : List Workspace → Type 0
IsUnique workspaces = (external_id : Text) → count (has_external_id external_id) workspaces ≤ 1

-- The workspace is found again under every new id, in a table that is still unique.
abbrev pub IsSettled : Principal → ℕ → Found → Type 0
IsSettled principal again found =
    (workspace : Workspace) × (db : WorkspaceDb) × (found ≡ workspace_is workspace db)
    × (current_workspace again principal db ≡ workspace_is workspace db)
    × (workspace.external_id ≡ workspace_external_id principal)
    × IsUnique db.workspaces

module _ (principal : Principal) (id again : ℕ) (db : WorkspaceDb)
    (unique : IsUnique db.workspaces) where
  abbrev own : Workspace → Bool
  own = has_external_id (workspace_external_id principal)

  abbrev with_new : List Workspace
  with_new = db.workspaces ++ (new_workspace id principal ∷ [])

  own-new : own (new_workspace id principal) ≡ true
  unfolding new_workspace
  own-new = text_eq_refl (workspace_external_id principal)

  with_new-IsUnique : filter own db.workspaces ≡ [] → IsUnique with_new
  unfolding new_workspace
  with_new-IsUnique e external_id =
      let c =
        count-append (has_external_id external_id) db.workspaces
          (new_workspace id principal ∷ []) in
      elim (Bool-cases (text_eq (workspace_external_id principal) external_id)) [
        | inl t ↦
            let n : count (has_external_id external_id) db.workspaces ≡ 0 =
              subst (λ x. count (has_external_id x) db.workspaces ≡ 0)
                (text_eq_sound (workspace_external_id principal) external_id t)
                (sym (length-filter own db.workspaces) ∙ ap length e) in
            rw c (rw (n, t) (omega arith))
        | inr f ↦ rw c (rw f (omega (arith, unique external_id)))
      ]

  found-new : filter own db.workspaces ≡ [] → filter own with_new ≡ new_workspace id principal ∷ []
  found-new e =
      filter-append own db.workspaces (new_workspace id principal ∷ []) ∙ rw (e, own-new) refl

  settled :
      (held : List Workspace)
      → filter own db.workspaces ≡ held
      → (held ≡ [] → is_storable id principal db ≡ true)
      → IsSettled principal again (workspace_from held id principal db)
  unfolding workspace_from with_workspace current_workspace new_workspace
  settled [] e storable = (
    new_workspace id principal,
    with_workspace id principal db,
    rw (storable refl) refl,
    rw (current_workspace, found-new e) refl,
    refl,
    with_new-IsUnique e,
  )
  settled (workspace ∷ []) e storable =
      let m =
        In-filter workspace own db.workspaces (subst (λ l. In workspace l) (sym e) (inl refl)) in
      let its_own = text_eq_sound workspace.external_id (workspace_external_id principal) m.1 in
      (workspace, db, refl, rw (current_workspace, e) refl, its_own, unique)
  settled (workspace ∷ next ∷ rest) e storable = absurd (
      omega (
        arith,
        unique (workspace_external_id principal),
        length-filter own db.workspaces,
        ap length e,
      ))

-- Where external ids are unique, and a workspace that is to be made has an id that no row has and
-- texts that fit their columns, current_workspace returns a workspace with the external id of the
-- principal and keeps them unique, and a second call finds the same workspace and changes nothing.
pub current_workspace_idempotent :
    (principal : Principal) (id again : ℕ) (db : WorkspaceDb)
    → IsUnique db.workspaces
    → (filter (has_external_id (workspace_external_id principal)) db.workspaces ≡ []
        → is_storable id principal db ≡ true)
    → IsSettled principal again (current_workspace id principal db)
unfolding current_workspace
current_workspace_idempotent principal id again db unique storable =
    settled principal id again db unique
      (filter (has_external_id (workspace_external_id principal)) db.workspaces) refl storable
