-- ===== src/Api/Examples.antt =====
-- The theorems about the API at concrete requests.
use econiq_ai.Prelude.{refl, true, none, some, [], ◌∷◌, arith, if◌then◌else◌}
use econiq_ai.Prelude.Text.{codes, text_eq}
use econiq_ai.Api.Auth.{
  Request, Principal, Verifier, WorkspaceDb, authenticate, is_storable, workspace_external_id,
  current_workspace,
}
use econiq_ai.Api.Auth.Access.{IsProven, authenticate-IsProven}
use econiq_ai.Api.Auth.Workspaces.{IsSettled, current_workspace_idempotent}

-- One token is signed, for a person in an organization.
abbrev verifier : Verifier
verifier = record {
  enabled = true;
  decode = λ token.
      if text_eq token (codes "t")
      then some (record { sub = some (codes "u"); org_id = some (codes "o"); email = none })
      else none;
  lower = λ s. s;
}

abbrev colleague : Principal
colleague = record { user_id = codes "u"; organization_id = some (codes "o"); email = none }

abbrev request : Request
request = record { authorization = codes "bearer t" }

authenticate-IsProven_example : IsProven verifier request colleague
unfolding authenticate text_eq
authenticate-IsProven_example = authenticate-IsProven verifier request colleague refl

abbrev tables : WorkspaceDb
tables = record {
  workspaces =
      record {
        workspace_id = 1;
        external_id = codes "v";
        name = codes "Personal";
        kind = codes "personal";
      }
      ∷ [];
  members = [];
}

current_workspace_idempotent_example : IsSettled colleague 8 (current_workspace 7 colleague tables)
unfolding is_storable text_eq workspace_external_id
current_workspace_idempotent_example =
    current_workspace_idempotent colleague 7 8 tables (λ external_id. ground arith) (λ e. refl)
