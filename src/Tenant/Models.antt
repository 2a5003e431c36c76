-- ===== src/Tenant/Models.antt =====
-- The values of the tenant package (internal/tenant/models.go).
use nearby_backend.Prelude.{ℕ, String, Bool, Option, ◌&&◌, leb, ltb}
use nearby_backend.Accounts.Tables.{Uuid, Instant, Role, owner, admin, staff, unknown_role}

-- `roleRank`: a text that is no role has rank 0.
unfoldable pub role_rank : Role → ℕ
role_rank owner = 3
role_rank admin = 2
role_rank staff = 1
role_rank (unknown_role s) = 0

-- `RoleAtLeast`.
unfoldable pub role_at_least : Role → Role → Bool
unfolding role_rank
role_at_least have want = leb (role_rank want) (role_rank have) && ltb 0 (role_rank have)

-- `ValidRole`: whether the text is a key of `roleRank`.
unfoldable pub valid_role : Role → Bool
valid_role owner = Bool.true
valid_role admin = Bool.true
valid_role staff = Bool.true
valid_role (unknown_role s) = Bool.false

unfoldable pub is_owner : Role → Bool
is_owner owner = Bool.true
is_owner _ = Bool.false

-- `Member`. The name and the contact are empty where the source leaves them so.
pub record Member : Type 0 where
  pub provider_id : Uuid
  pub user_id : Uuid
  pub role : Role
  pub name : String
  pub email : String
  pub phone : Option String

-- `Invitation`; the token is empty but in the answer to its creation.
pub record Invitation : Type 0 where
  pub id : Uuid
  pub provider_id : Uuid
  pub email : String
  pub role : Role
  pub expires_at : Instant
  pub accepted_at : Option Instant
  pub token : String
