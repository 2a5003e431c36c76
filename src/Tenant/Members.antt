-- ===== src/Tenant/Members.antt =====
-- Members and their roles (internal/tenant/service.go).
use nearby_backend.Prelude.{Bool, ◌&&◌, not, none, ltb, ◌==◌, if◌then◌else◌}
use nearby_backend.Platform.Errors.{validation, not_found, conflict, not_a_member}
use nearby_backend.Platform.Database.{
  M, ◌>>=◌, ◌>>◌, return, guard, missing, on_error, or_internal, query, in_tx,
}
use nearby_backend.Accounts.Tables.{Uuid, Role, MemberRow, Store}
use nearby_backend.Tenant.Models.{Member, valid_role, is_owner}
use nearby_backend.Tenant.Queries.{get_membership, count_owners, set_member_role, delete_member}

-- The answer that shows a row only.
unfoldable pub member_of : MemberRow → Member
member_of row = record {
  provider_id = row.provider_id;
  user_id = row.user_id;
  role = row.role;
  name = "";
  email = "";
  phone = none;
}

-- `Membership`.
unfoldable pub membership : Uuid → Uuid → M Store Role
membership provider_id user_id =
    on_error (missing not_a_member) (query (get_membership provider_id user_id)) >>= λ row.
    return row.role

-- The count of owners, where an owner is about to go.
unfoldable pub keep_an_owner : Uuid → Bool → M Store (Unit {0})
keep_an_owner provider_id leaves =
    if leaves
    then (or_internal (query (count_owners provider_id)) >>= λ owners.
        guard (ltb 1 owners) (conflict "A provider must keep at least one owner"))
    else return tt

-- The transaction of `UpdateMemberRole`.
unfoldable pub change_role : Uuid → Uuid → Role → M Store Member
unfolding keep_an_owner is_owner member_of
change_role provider_id user_id role =
    on_error (missing (not_found "Member")) (query (get_membership provider_id user_id))
    >>= λ current.
        keep_an_owner provider_id (is_owner current.role && not (is_owner role))
        >> (or_internal (query (set_member_role provider_id user_id role)) >>= λ row.
            return (member_of row))

-- `UpdateMemberRole`.
unfoldable pub update_member_role : Uuid → Uuid → Role → M Store Member
unfolding change_role valid_role
update_member_role provider_id user_id role =
    guard (valid_role role) (validation "role must be 'owner', 'admin' or 'staff'")
    >> in_tx (change_role provider_id user_id role)

-- The transaction of `RemoveMember`.
unfoldable pub detach : Uuid → Uuid → M Store (Unit {0})
unfolding keep_an_owner is_owner
detach provider_id user_id =
    on_error (missing (not_found "Member")) (query (get_membership provider_id user_id))
    >>= λ current.
        keep_an_owner provider_id (is_owner current.role)
        >> (or_internal (query (delete_member provider_id user_id)) >>= λ affected.
            guard (not (affected == 0)) (not_found "Member"))

-- `RemoveMember`.
unfoldable pub remove_member : Uuid → Uuid → M Store (Unit {0})
unfolding detach
remove_member provider_id user_id = in_tx (detach provider_id user_id)
