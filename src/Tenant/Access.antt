-- ===== src/Tenant/Access.antt =====
-- The scope of a request to an organization (internal/tenant/middleware.go). What the middleware
-- hands on to the next handler is the result; an error is the response.
use nearby_backend.Prelude.{String, Bool, not, Option, none, some}
use nearby_backend.Prelude.Text.{text_eq, trim_space}
use nearby_backend.Platform.Errors.{Error, unauthenticated, org_required, validation, forbidden}
use nearby_backend.Platform.Database.{api, Outcome, ok, err, M, ◌>>=◌, ◌>>◌, return, guard, lift}
use nearby_backend.Accounts.Tables.{Uuid, Role, admin, Store}
use nearby_backend.Tenant.Models.{role_at_least}
use nearby_backend.Tenant.Members.{membership}

-- `Org`.
pub record Org : Type 0 where
  pub provider_id : Uuid
  pub role : Role

-- `CanManage`.
unfoldable pub can_manage : Org → Bool
unfolding role_at_least
can_manage org = role_at_least org.role admin

-- What a context holds, or an error.
abbrev pub in_context {ℓ} : {A : Type ℓ} → Error → Option A → Outcome A
in_context e none = err (api e)
in_context e (some a) = ok a

-- `MustIdentity`, of which only the user is read here.
unfoldable pub must_identity : Option Uuid → Outcome Uuid
must_identity = in_context (unauthenticated "Authentication is required")

-- `MustOrg`.
unfoldable pub must_org : Option Org → Outcome Org
must_org = in_context org_required

-- `RequireOrg`. The parser of uuids is a library's.
unfoldable pub require_org : (String → Option Uuid) → Option Uuid → String → M Store Org
unfolding must_identity trim_space
require_org parse_uuid identity header = lift (must_identity identity) >>= λ user_id.
    let raw = trim_space header in
    guard (not (text_eq raw "")) org_required
    >> (lift (in_context (validation "x-organization-id must be a UUID") (parse_uuid raw))
        >>= λ provider_id. membership provider_id user_id >>= λ role.
            return (record { provider_id = provider_id; role = role }))

-- `RequireOrgRole`.
unfoldable pub require_org_role : Role → Option Org → M Store Org
unfolding must_org role_at_least
require_org_role minimum org = lift (must_org org) >>= λ scope.
    guard (role_at_least scope.role minimum) (forbidden "Your role does not allow that action")
    >> return scope
