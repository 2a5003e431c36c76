-- ===== src/Tenant/Invitations.antt =====
-- Invitations (internal/tenant/service.go).
use nearby_backend.Prelude.{
  ℕ, ◌+◌, ◌*◌, String, not, none, List, map, leb, ◌==◌, is_some, if◌then◌else◌,
}
use nearby_backend.Prelude.Text.{text_eq, trim_space}
use nearby_backend.Platform.Errors.{
  Error, validation, not_found, conflict, invalid_token, token_expired, forbidden,
}
use nearby_backend.Platform.Database.{
  Failure, api, caused, is_unique_violation, M, ◌>>=◌, ◌>>◌, return, guard, missing, on_error,
  or_internal, query, in_tx,
}
use nearby_backend.Accounts.Tables.{Uuid, Role, InvitationRow, Store, Clock, Codec}
use nearby_backend.Auth.Tokens.{hash_refresh_token, new_refresh_token}
use nearby_backend.Tenant.Models.{Member, Invitation, valid_role}
use nearby_backend.Tenant.Queries.{
  add_member, insert_invitation, get_invitation, mark_accepted, delete_invitation,
  select_invitations,
}
use nearby_backend.Tenant.Members.{member_of}

-- Seven days.
abbrev pub invitation_ttl : ℕ
invitation_ttl = 7 * 24 * 3_600_000_000_000

-- A unique violation is answered with this error, anything else is internal.
unfoldable pub taken_or_internal : Error → Failure → Failure
taken_or_internal e f = if is_unique_violation f then api e else caused f

unfoldable pub invitation_of : InvitationRow → String → Invitation
invitation_of row token = record {
  id = row.id;
  provider_id = row.provider_id;
  email = row.email;
  role = row.role;
  expires_at = row.expires_at;
  accepted_at = row.accepted_at;
  token = token;
}

-- `CreateInvitation`.
unfoldable pub create_invitation : Codec → Clock → Uuid → String → Role → M Store Invitation
unfolding valid_role trim_space taken_or_internal invitation_of
create_invitation codec clock provider_id raw role =
    let email = codec.to_lower (trim_space raw) in
    guard (not (text_eq email "")) (validation "Email is required")
    >> guard (valid_role role) (validation "role must be 'owner', 'admin' or 'staff'")
    >> (or_internal (new_refresh_token codec) >>= λ issued.
        on_error
          (taken_or_internal (conflict "There is already a pending invitation for that email"))
          (query (
            insert_invitation (record {
              id = 0;
              provider_id = provider_id;
              email = codec.sql_lower email;
              role = role;
              token_hash = issued.1;
              expires_at = clock.now + invitation_ttl;
              accepted_at = none;
            })))
        >>= λ row. return (invitation_of row issued.0))

-- `ListInvitations`.
unfoldable pub list_invitations : Uuid → M Store (List Invitation)
unfolding invitation_of
list_invitations provider_id = or_internal (query (select_invitations provider_id)) >>= λ rows.
    return (map (λ row. invitation_of row "") rows)

-- `RevokeInvitation`.
unfoldable pub revoke_invitation : Uuid → Uuid → M Store (Unit {0})
revoke_invitation provider_id invitation_id =
    or_internal (query (delete_invitation invitation_id provider_id)) >>= λ affected.
    guard (not (affected == 0)) (not_found "Invitation")

-- The end of `AcceptInvitation`: the invitation is marked, and the membership written.
unfoldable pub join : Clock → InvitationRow → Uuid → M Store Member
unfolding member_of
join clock invitation user_id =
    on_error (missing (conflict "That invitation is no longer valid"))
      (query (mark_accepted invitation.id clock.database))
    >>= λ _.
        or_internal (
          query (
            add_member (record {
              provider_id = invitation.provider_id;
              user_id = user_id;
              role = invitation.role;
            })))
        >>= λ row. return (member_of row)

-- The transaction of `AcceptInvitation`.
unfoldable pub redeem : Codec → Clock → String → Uuid → String → M Store Member
unfolding hash_refresh_token join
redeem codec clock token user_id user_email =
    on_error (missing invalid_token) (query (get_invitation (hash_refresh_token codec token)))
    >>= λ invitation.
        guard (not (is_some invitation.accepted_at))
          (conflict "That invitation has already been accepted")
        >> (guard (leb clock.now invitation.expires_at) token_expired
            >> (guard (codec.equal_fold invitation.email user_email)
                  (forbidden "That invitation was issued to a different email address")
                >> join clock invitation user_id))

-- `AcceptInvitation`.
unfoldable pub accept_invitation : Codec → Clock → String → Uuid → String → M Store Member
unfolding trim_space redeem
accept_invitation codec clock raw user_id user_email =
    let token = trim_space raw in
    guard (not (text_eq token "")) (validation "token is required")
    >> in_tx (redeem codec clock token user_id user_email)
