-- ===== src/Tenant/Queries.antt =====
-- The statements of internal/db/query/members.sql and invitations.sql that the tenant package runs,
-- and `CreateUser` of users.sql, with the constraints of migrations/00002_auth.sql and
-- 00003_tenancy.sql. A foreign key that is violated shows as a fault of the statement's turn.
use nearby_backend.Prelude.{
  ℕ, suc, Bool, true, false, ◌&&◌, not, Option, none, some, List, ◌∷◌, map, ltb, ◌==◌,
  if◌then◌else◌, select, find, exists, length, is_some,
}
use nearby_backend.Prelude.Text.{text_eq}
use nearby_backend.Platform.Database.{
  unique_violation, check_violation, Failure, pg, Outcome, ok, err,
}
use nearby_backend.Accounts.Tables.{
  Uuid, Instant, Digest, Role, MemberRow, InvitationRow, Store, one_row,
}
use nearby_backend.Tenant.Models.{valid_role, is_owner}

-- The key of `members`.
abbrev pub is_member : Uuid → Uuid → MemberRow → Bool
is_member provider_id user_id r = r.provider_id == provider_id && r.user_id == user_id

-- `GetMembership`.
unfoldable pub get_membership : Uuid → Uuid → Store → Outcome MemberRow × Store
unfolding find
get_membership provider_id user_id s = (one_row (find (is_member provider_id user_id) s.members), s)

abbrev pub is_owner_of : Uuid → MemberRow → Bool
is_owner_of provider_id r = r.provider_id == provider_id && is_owner r.role

-- `CountOwners`.
unfoldable pub count_owners : Uuid → Store → Outcome ℕ × Store
unfolding select is_owner
count_owners provider_id s = (ok (length (select (is_owner_of provider_id) s.members)), s)

unfoldable pub with_role : Uuid → Uuid → Role → MemberRow → MemberRow
with_role provider_id user_id role r =
    if is_member provider_id user_id r then record r { role = role } else r

-- `ON CONFLICT (provider_id, user_id) DO UPDATE SET role = EXCLUDED.role`.
unfoldable pub upsert : MemberRow → List MemberRow → List MemberRow
unfolding exists with_role
upsert row rows =
    if exists (is_member row.provider_id row.user_id) rows
    then map (with_role row.provider_id row.user_id row.role) rows
    else row ∷ rows

abbrev pub upserted : MemberRow → Store → Bool → Outcome MemberRow × Store
upserted row s false = (err (pg check_violation "members_role_check"), s)
upserted row s true = (ok row, record s { members = upsert row s.members })

-- `AddMember`.
unfoldable pub add_member : MemberRow → Store → Outcome MemberRow × Store
unfolding valid_role upsert
add_member row s = upserted row s (valid_role row.role)

abbrev pub set_role :
    Uuid → Uuid → Role → Store → Option MemberRow → Bool → Outcome MemberRow × Store
set_role provider_id user_id role s (some r) false =
    (err (pg check_violation "members_role_check"), s)
set_role provider_id user_id role s (some r) true = (
  ok (record r { role = role }),
  record s { members = map (with_role provider_id user_id role) s.members },
)
set_role provider_id user_id role s none valid = (one_row none, s)

-- `UpdateMemberRole`.
unfoldable pub set_member_role : Uuid → Uuid → Role → Store → Outcome MemberRow × Store
unfolding find valid_role with_role
set_member_role provider_id user_id role s =
    set_role provider_id user_id role s (find (is_member provider_id user_id) s.members)
      (valid_role role)

abbrev pub is_other : Uuid → Uuid → MemberRow → Bool
is_other provider_id user_id r = not (is_member provider_id user_id r)

-- `RemoveMember`: the rows that were deleted.
unfoldable pub delete_member : Uuid → Uuid → Store → Outcome ℕ × Store
unfolding select
delete_member provider_id user_id s = (
  ok (length (select (is_member provider_id user_id) s.members)),
  record s { members = select (is_other provider_id user_id) s.members },
)

-- The unique constraints of `invitations`: on the hash, and on provider and address among those that
-- are pending, whether or not they have expired.
unfoldable pub invitation_violation : InvitationRow → List InvitationRow → Option Failure
unfolding exists valid_role
invitation_violation row rows =
    if not (valid_role row.role)
    then some (pg check_violation "invitations_role_check")
    else if exists (λ r. r.token_hash == row.token_hash) rows
    then some (pg unique_violation "invitations_token_hash_key")
    else if exists
        (λ r.
          r.provider_id == row.provider_id
          && text_eq r.email row.email
          && not (is_some r.accepted_at))
        rows
    then some (pg unique_violation "invitations_pending_email_idx")
    else none

abbrev pub invited : InvitationRow → Store → Option Failure → Outcome InvitationRow × Store
invited row s (some e) = (err e, s)
invited row s none =
    (ok row, record s { invitations = row ∷ s.invitations; next_id = suc s.next_id })

-- `CreateInvitation`. The parameter's id is not read, and its address is in lower case.
unfoldable pub insert_invitation : InvitationRow → Store → Outcome InvitationRow × Store
unfolding invitation_violation
insert_invitation params s =
    let row = record params { id = s.next_id } in
    invited row s (invitation_violation row s.invitations)

-- `GetInvitationByTokenHash`.
unfoldable pub get_invitation : Digest → Store → Outcome InvitationRow × Store
unfolding find
get_invitation hash s = (one_row (find (λ r. r.token_hash == hash) s.invitations), s)

-- The guard of `AcceptInvitation`.
abbrev pub can_be_accepted : Uuid → Instant → InvitationRow → Bool
can_be_accepted id now r = r.id == id && not (is_some r.accepted_at) && ltb now r.expires_at

unfoldable pub accept_row : Uuid → Instant → InvitationRow → InvitationRow
accept_row id now r = if can_be_accepted id now r then record r { accepted_at = some now } else r

abbrev pub marked : Uuid → Instant → Store → Option InvitationRow → Outcome InvitationRow × Store
marked id now s none = (one_row none, s)
marked id now s (some r) = (
  ok (record r { accepted_at = some now }),
  record s { invitations = map (accept_row id now) s.invitations },
)

-- `AcceptInvitation`.
unfoldable pub mark_accepted : Uuid → Instant → Store → Outcome InvitationRow × Store
unfolding find accept_row
mark_accepted id now s = marked id now s (find (can_be_accepted id now) s.invitations)

abbrev pub is_pending : Uuid → Uuid → InvitationRow → Bool
is_pending id provider_id r =
    r.id == id && r.provider_id == provider_id && not (is_some r.accepted_at)

-- `DeleteInvitation`: the rows that were deleted.
unfoldable pub delete_invitation : Uuid → Uuid → Store → Outcome ℕ × Store
unfolding select
delete_invitation id provider_id s = (
  ok (length (select (is_pending id provider_id) s.invitations)),
  record s { invitations = select (λ r. not (is_pending id provider_id r)) s.invitations },
)

-- `ListInvitations`.
unfoldable pub select_invitations : Uuid → Store → Outcome (List InvitationRow) × Store
unfolding select
select_invitations provider_id s =
    (ok (select (λ r. r.provider_id == provider_id) s.invitations), s)
