-- ===== src/Api/Auth.antt =====
-- auth.py: identity and workspaces. The signature check of PyJWT is a parameter, `decode`, which gives
-- the claims of a token or refuses it; so is `str.lower`.
pub mod Access
pub mod Workspaces
use econiq_ai.Prelude.{
  ℕ, Bool, true, false, Option, none, some, List, [], ◌∷◌, ◌++◌, ◌==◌, ◌&&◌, not, leb, length, any,
  filter, if◌then◌else◌,
}
use econiq_ai.Prelude.Text.{Text, codes, text_eq, is_empty, or_else}

-- `request.headers.get("authorization", "")`
pub record Request : Type 0 where
  pub authorization : Text

pub record Principal : Type 0 where
  pub user_id : Text
  pub organization_id : Option Text
  pub email : Option Text

-- `Principal.workspace_external_id`
unfoldable pub workspace_external_id : Principal → Text
workspace_external_id principal = elim (or_else principal.organization_id none) [
  | some organization ↦ organization
  | none ↦ principal.user_id
]

pub record Claims : Type 0 where
  pub sub : Option Text
  pub org_id : Option Text
  pub email : Option Text

-- `_Verifier`: whether there is an issuer, and what jwt.decode makes of a token
pub record Verifier : Type 0 where
  pub enabled : Bool
  pub decode : Text → Option Claims
  pub lower : Text → Text

pub record Parts : Type 0 where
  pub head : Text
  pub tail : Text

-- `header.partition(" ")`: the parts around the first blank
unfoldable pub partition : Text → Parts
partition [] = record { head = []; tail = [] }
partition (c ∷ s) =
    let rest = partition s in
    if c == 32
    then record { head = []; tail = s }
    else record { head = c ∷ rest.head; tail = rest.tail }

unfoldable pub non_empty : Text → Option Text
non_empty [] = none
non_empty (c ∷ s) = some (c ∷ s)

module _ (verifier : Verifier) where
  -- `_bearer`
  unfoldable pub bearer : Request → Option Text
  unfolding partition non_empty text_eq
  bearer request =
      let parts = partition request.authorization in
      if text_eq (verifier.lower parts.head) (codes "bearer") then non_empty parts.tail else none

  -- `_Verifier.verify`; `none` is a PyJWTError, as for a token without a subject.
  unfoldable pub verify : Text → Option Principal
  unfolding or_else
  verify token = elim (verifier.decode token) [
    | none ↦ none
    | some claims ↦ elim (or_else claims.sub none) [
      | none ↦ none
      | some subject ↦
          some (record { user_id = subject; organization_id = claims.org_id; email = claims.email })
    ]
  ]

-- What a request leads to: an error of HTTP, or the route, with what it is given.
pub data Reply (A : Type 0) : Type 0 where
  unauthorized not_implemented : Reply A
  served : A → Reply A

module _ (verifier : Verifier) where
  -- `verify_presented_token`: the route runs with the `request.state.principal` that it gives.
  unfoldable pub verify_presented_token : Request → Reply (Option Principal)
  unfolding bearer verify
  verify_presented_token request = elim (bearer verifier request) [
    | none ↦ served none
    | some token ↦
        if verifier.enabled
        then elim (verify verifier token) [
          | none ↦ unauthorized
          | some principal ↦ served (some principal)
        ]
        else served none
  ]

  -- `viewer` and `member`, on the principal of the request's state
  unfoldable pub member : Option Principal → Reply Principal
  member (some principal) = served principal
  member none = if verifier.enabled then unauthorized else not_implemented

  unfoldable pub after_middleware : Reply (Option Principal) → Reply Principal
  unfolding member
  after_middleware unauthorized = unauthorized
  after_middleware not_implemented = not_implemented
  after_middleware (served principal) = member principal

  -- what a route that depends on `member` is given for a request
  unfoldable pub authenticate : Request → Reply Principal
  unfolding verify_presented_token after_middleware
  authenticate request = after_middleware (verify_presented_token request)

pub record Workspace : Type 0 where
  pub workspace_id : ℕ
  pub external_id : Text
  pub name : Text
  pub kind : Text

pub record WorkspaceMember : Type 0 where
  pub workspace_id : ℕ
  pub external_user_id : Text
  pub role : Text

pub record WorkspaceDb : Type 0 where
  pub workspaces : List Workspace
  pub members : List WorkspaceMember

pub data Found : Type 0 where
  workspace_is : Workspace → WorkspaceDb → Found
  multiple_results : Found
  not_stored : Found

abbrev pub has_external_id : Text → Workspace → Bool
has_external_id external_id workspace = text_eq workspace.external_id external_id

unfoldable pub name_of : Principal → Text
unfolding or_else
name_of principal = elim (or_else principal.email none) [
  | some email ↦ email
  | none ↦ elim (or_else principal.organization_id none) [
    | some organization ↦ codes "Organization"
    | none ↦ codes "Personal"
  ]
]

unfoldable pub kind_of : Principal → Text
unfolding or_else
kind_of principal = elim (or_else principal.organization_id none) [
  | some organization ↦ codes "organization"
  | none ↦ codes "personal"
]

unfoldable pub new_workspace : ℕ → Principal → Workspace
unfolding workspace_external_id name_of kind_of
new_workspace id principal = record {
  workspace_id = id;
  external_id = workspace_external_id principal;
  name = name_of principal;
  kind = kind_of principal;
}

-- What the primary keys and the widths of the columns say of the two new rows.
unfoldable pub is_storable : ℕ → Principal → WorkspaceDb → Bool
unfolding workspace_external_id name_of
is_storable id principal db =
    not (any (λ (w : Workspace). w.workspace_id == id) db.workspaces)
    && not (
        any
          (λ (m : WorkspaceMember).
            (m.workspace_id == id) && text_eq m.external_user_id principal.user_id)
          db.members)
    && leb (length (workspace_external_id principal)) 128
    && leb (length (name_of principal)) 256
    && leb (length principal.user_id) 128

-- The tables with both rows.
unfoldable pub with_workspace : ℕ → Principal → WorkspaceDb → WorkspaceDb
unfolding new_workspace
with_workspace id principal db = record {
  workspaces = db.workspaces ++ (new_workspace id principal ∷ []);
  members =
      db.members
      ++ (record { workspace_id = id; external_user_id = principal.user_id; role = codes "owner" }
          ∷ []);
}

-- The rows that the query for a workspace finds, and what follows. Postgres refuses rows that
-- cannot be stored; the query has shown that no row has the external id.
unfoldable pub workspace_from : List Workspace → ℕ → Principal → WorkspaceDb → Found
unfolding with_workspace is_storable
workspace_from [] id principal db =
    if is_storable id principal db
    then workspace_is (new_workspace id principal) (with_workspace id principal db)
    else not_stored
workspace_from (workspace ∷ []) id principal db = workspace_is workspace db
workspace_from (workspace ∷ next ∷ rest) id principal db = multiple_results

-- `current_workspace`; `id` is the result of uuid4.
unfoldable pub current_workspace : ℕ → Principal → WorkspaceDb → Found
unfolding workspace_from workspace_external_id
current_workspace id principal db =
    workspace_from (filter (has_external_id (workspace_external_id principal)) db.workspaces) id
      principal db

-- `is_member`
pub is_member : ℕ → Principal → WorkspaceDb → Bool
is_member workspace_id principal db =
    any
      (λ (m : WorkspaceMember).
        (m.workspace_id == workspace_id) && text_eq m.external_user_id principal.user_id)
      db.members
