-- ===== src/Tenant/Hiring.antt =====
-- Accounts that an organization provisions (`CreateMember` of internal/tenant/service.go).
-- `GeneratePassword` of internal/auth is an argument: its loop draws bytes until enough of them pass.
use nearby_backend.Prelude.{String, Bool, not, Option, none, some}
use nearby_backend.Prelude.Text.{text_eq, trim_space, trim_ptr}
use nearby_backend.Platform.Errors.{validation, conflict}
use nearby_backend.Platform.Database.{
  api, Outcome, ok, err, M, ◌>>=◌, ◌>>◌, return, guard, lift, on_error, or_internal, query, in_tx,
}
use nearby_backend.Accounts.Tables.{
  Uuid, Role, owner, admin, staff, unknown_role, platform_user, UserRow, Codec, Store,
}
use nearby_backend.Auth.Queries.{create_user}
use nearby_backend.Auth.Accounts.{normalize_email, validate_email, validate_password, hash_password}
use nearby_backend.Tenant.Models.{Member}
use nearby_backend.Tenant.Queries.{add_member}
use nearby_backend.Tenant.Invitations.{taken_or_internal}

-- `CreateMemberInput`.
pub record CreateMemberInput : Type 0 where
  pub name : String
  pub email : String
  pub phone : Option String
  pub password : Option String
  pub role : Role

-- The switch on the role.
unfoldable pub check_hired_role : Role → Outcome (Unit {0})
check_hired_role admin = ok tt
check_hired_role staff = ok tt
check_hired_role owner = err (
    api (
      validation
        "A new account cannot start as an owner; create them as a manager first, then promote"))
check_hired_role (unknown_role s) = err (api (validation "role must be 'admin' or 'staff'"))

-- The password to hash, and the one to hand back.
unfoldable pub choose_password : M Store String → Option String → M Store (String × String)
unfolding validate_password
choose_password generate (some given) = validate_password given >> return (given, "")
choose_password generate none = or_internal generate >>= λ made. return (made, made)

-- The account of the new member.
unfoldable pub open_login : Codec → CreateMemberInput → String → String → String → M Store UserRow
unfolding trim_ptr taken_or_internal
open_login codec input name email hash =
    on_error
      (taken_or_internal
        (conflict "Someone already has an account with that email — invite them instead"))
      (query (
        create_user (record {
          id = 0;
          name = name;
          email = codec.sql_lower email;
          phone = trim_ptr input.phone;
          password_hash = hash;
          platform_role = platform_user;
          email_verified = Bool.false;
          fcm_token = none;
        })))

-- Its membership.
unfoldable pub seat : Uuid → Role → UserRow → M Store Member
seat provider_id role user =
    or_internal
      (query (add_member (record { provider_id = provider_id; user_id = user.id; role = role })))
    >>= λ row. return (record {
      provider_id = row.provider_id;
      user_id = row.user_id;
      role = row.role;
      name = user.name;
      email = user.email;
      phone = user.phone;
    })

-- The transaction of `CreateMember`.
unfoldable pub enroll : Codec → Uuid → CreateMemberInput → String → String → String → M Store Member
unfolding open_login seat
enroll codec provider_id input name email hash =
    open_login codec input name email hash >>= λ user. seat provider_id input.role user

-- `CreateMember` from the choice of the password on.
unfoldable pub hire :
    Codec → M Store String → Uuid → CreateMemberInput → String → String → M Store (Member × String)
unfolding choose_password hash_password enroll
hire codec generate provider_id input name email =
    choose_password generate input.password >>= λ chosen.
    or_internal (hash_password codec chosen.0) >>= λ hash.
    in_tx (enroll codec provider_id input name email hash) >>= λ member. return (member, chosen.1)

-- `CreateMember`.
unfoldable pub create_member :
    Codec → M Store String → Uuid → CreateMemberInput → M Store (Member × String)
unfolding trim_space normalize_email validate_email check_hired_role hire
create_member codec generate provider_id input =
    let name = trim_space input.name in
    let email = normalize_email codec input.email in
    guard (not (text_eq name "")) (validation "Name is required")
    >> (validate_email codec email
        >> (lift (check_hired_role input.role) >> hire codec generate provider_id input name email))
