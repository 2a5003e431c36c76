-- ===== src/Auth/Sessions.antt =====
-- Sign-up, sign-in and refresh tokens (internal/auth/service.go).
use nearby_backend.Prelude.{
  ℕ, ◌+◌, String, Bool, true, false, ◌&&◌, not, Option, none, some, List, [], map, leb, ◌==◌,
  is_some, if◌then◌else◌,
}
use nearby_backend.Prelude.Text.{text_eq, trim_space, trim_ptr}
use nearby_backend.Platform.Errors.{
  validation, invalid_credentials, email_taken, invalid_token, token_expired, not_found,
}
use nearby_backend.Platform.Database.{
  Failure, no_rows, api, caused, is_unique_violation, or_other, Outcome, ok, err, M, ◌>>=◌, ◌>>◌,
  return, throw, guard, missing, attempt, on_error, or_internal, lift, query, in_tx,
}
use nearby_backend.Accounts.Tables.{
  Uuid, Instant, Role, ClientType, web, mobile, PlatformRole, platform_user, RefreshTokenRow, Codec,
  Clock, Store,
}
use nearby_backend.Auth.Tokens.{hash_refresh_token, new_refresh_token}
use nearby_backend.Auth.Queries.{
  MembershipRow, create_user, get_user_by_email, get_user_by_id, list_memberships_by_user,
  create_refresh_token, get_refresh_token_by_hash, revoke_refresh_token,
  revoke_all_user_refresh_tokens, revoke_refresh_token_by_hash,
}
use nearby_backend.Auth.Accounts.{
  User, user_of, normalize_email, validate_email, validate_password, hash_password,
}
use nearby_backend.Auth.Verification.{issue_email_verification}

-- `Claims`: what an access token says.
pub record Claims : Type 0 where
  pub subject : Uuid
  pub email : String
  pub name : String
  pub platform_role : PlatformRole
  pub memberships : List (Uuid × Role)
  pub issuer : String
  pub issued_at : Instant
  pub expires_at : Instant

-- The configuration of the service, and the signature of the token library.
pub record Settings : Type 0 where
  pub issuer : String
  pub access_ttl : ℕ
  pub refresh_ttl_web : ℕ
  pub refresh_ttl_mobile : ℕ
  pub sign : Claims → Option String

-- `Tokens`; the type is always "Bearer".
pub record Tokens : Type 0 where
  pub access_token : String
  pub refresh_token : String
  pub expires_at : Instant

-- `Session`.
pub record Session : Type 0 where
  pub user : User
  pub memberships : List MembershipRow
  pub tokens : Tokens

-- `NormalizeClientType`.
unfoldable pub normalize_client_type : String → ClientType
normalize_client_type raw = if text_eq raw "mobile" then mobile else web

-- `refreshTTL`.
unfoldable pub refresh_ttl : Settings → ClientType → ℕ
refresh_ttl settings mobile = settings.refresh_ttl_mobile
refresh_ttl settings web = settings.refresh_ttl_web

-- `IssueAccessToken`.
unfoldable pub issue_access_token :
    Settings → Clock → User → List MembershipRow → Outcome (String × Instant)
issue_access_token settings clock user memberships =
    let expires_at = clock.now + settings.access_ttl in
    signed expires_at (
      settings.sign (record {
        subject = user.id;
        email = user.email;
        name = user.name;
        platform_role = user.platform_role;
        memberships = map (λ m. (m.provider_id, m.role)) memberships;
        issuer = settings.issuer;
        issued_at = clock.now;
        expires_at = expires_at;
      }))
  where
    signed : Instant → Option String → Outcome (String × Instant)
    signed t none = or_other none
    signed t (some text) = ok (text, t)

-- `issueSession`.
unfoldable pub issue_session :
    Settings → Codec → Clock → User → List MembershipRow → ClientType → M Store Session
unfolding issue_access_token refresh_ttl
issue_session settings codec clock user memberships client_type =
    or_internal (lift (issue_access_token settings clock user memberships)) >>= λ access.
    or_internal (new_refresh_token codec) >>= λ issued.
    or_internal (
      query (
        create_refresh_token (record {
          id = 0;
          user_id = user.id;
          token_hash = issued.1;
          client_type = client_type;
          expires_at = clock.now + refresh_ttl settings client_type;
          revoked_at = none;
        })))
    >>= λ _. return (record {
      user = user;
      memberships = memberships;
      tokens = record { access_token = access.0; refresh_token = issued.0; expires_at = access.1 };
    })

-- `membershipsFromQuerier`.
unfoldable pub memberships_for : Uuid → M Store (List MembershipRow)
memberships_for user_id = or_internal (query (list_memberships_by_user user_id))

-- `SignUpInput`.
pub record SignUpInput : Type 0 where
  pub name : String
  pub email : String
  pub phone : Option String
  pub password : String
  pub client_type : String

unfoldable pub email_taken_or_internal : Failure → Failure
email_taken_or_internal e = if is_unique_violation e then api email_taken else caused e

-- `SignUp` from the hash of the password on. An error of the verification code is only logged.
unfoldable pub open_account :
    Settings → Codec → Clock → SignUpInput → String → String → M Store Session
unfolding trim_ptr email_taken_or_internal user_of normalize_client_type issue_session
open_account settings codec clock input name email =
    or_internal (hash_password codec input.password) >>= λ hash.
    on_error email_taken_or_internal (
      query (
        create_user (record {
          id = 0;
          name = name;
          email = codec.sql_lower email;
          phone = trim_ptr input.phone;
          password_hash = hash;
          platform_role = platform_user;
          email_verified = false;
          fcm_token = none;
        })))
    >>= λ row. attempt (issue_email_verification codec clock row.id row.email) >>= λ _.
        issue_session settings codec clock (user_of row) []
          (normalize_client_type input.client_type)

-- `SignUp`.
unfoldable pub sign_up : Settings → Codec → Clock → SignUpInput → M Store Session
unfolding trim_space normalize_email validate_email validate_password open_account
sign_up settings codec clock input =
    let name = trim_space input.name in
    let email = normalize_email codec input.email in
    guard (not (text_eq name "")) (validation "Name is required")
    >> (validate_email codec email
        >> (validate_password input.password >> open_account settings codec clock input name email))

-- `SignIn`. The time that a failed search spends is not modelled.
unfoldable pub sign_in : Settings → Codec → Clock → String → String → String → M Store Session
unfolding normalize_email user_of normalize_client_type memberships_for issue_session
sign_in settings codec clock raw_email password client_type =
    let email = normalize_email codec raw_email in
    guard (not (text_eq email "") && not (text_eq password "")) invalid_credentials
    >> (on_error (missing invalid_credentials) (query (get_user_by_email (codec.sql_lower email)))
        >>= λ row.
            or_internal (lift (or_other (codec.verify_password password row.password_hash)))
            >>= λ right.
                guard right invalid_credentials
                >> (memberships_for row.id >>= λ memberships.
                    issue_session settings codec clock (user_of row) memberships
                      (normalize_client_type client_type)))

-- The transaction of `Refresh`.
unfoldable pub rotate : Settings → Codec → Clock → RefreshTokenRow → M Store Session
unfolding user_of memberships_for issue_session
rotate settings codec clock stored =
    or_internal (query (revoke_refresh_token stored.id clock.database)) >>= λ consumed.
    guard (not (consumed == 0)) invalid_token
    >> (on_error (missing invalid_token) (query (get_user_by_id stored.user_id)) >>= λ user.
        memberships_for stored.user_id >>= λ memberships.
        issue_session settings codec clock (user_of user) memberships stored.client_type)

-- `Refresh` once the stored token is read, by whether it was revoked.
unfoldable pub refresh_stored : Settings → Codec → Clock → RefreshTokenRow → Bool → M Store Session
unfolding rotate
refresh_stored settings codec clock stored true =
    or_internal (query (revoke_all_user_refresh_tokens stored.user_id clock.database))
    >> throw (api invalid_token)
refresh_stored settings codec clock stored false =
    guard (leb clock.now stored.expires_at) token_expired
    >> in_tx (rotate settings codec clock stored)

-- `Refresh`.
unfoldable pub refresh : Settings → Codec → Clock → String → M Store Session
unfolding trim_space hash_refresh_token refresh_stored
refresh settings codec clock raw =
    let token = trim_space raw in
    guard (not (text_eq token "")) invalid_token
    >> (on_error (missing invalid_token)
          (query (get_refresh_token_by_hash (hash_refresh_token codec token)))
        >>= λ stored. refresh_stored settings codec clock stored (is_some stored.revoked_at))

unfoldable pub ignore_missing : Outcome RefreshTokenRow → M Store (Unit {0})
ignore_missing (ok row) = return tt
ignore_missing (err no_rows) = return tt
ignore_missing (err e) = throw (caused e)

-- `SignOut`.
unfoldable pub sign_out : Codec → Clock → String → M Store (Unit {0})
unfolding trim_space hash_refresh_token ignore_missing
sign_out codec clock raw =
    let token = trim_space raw in
    if text_eq token ""
    then return tt
    else (attempt
          (query (revoke_refresh_token_by_hash (hash_refresh_token codec token) clock.database))
        >>= λ result. ignore_missing result)

-- `SignOutEverywhere`.
unfoldable pub sign_out_everywhere : Clock → Uuid → M Store (Unit {0})
sign_out_everywhere clock user_id =
    or_internal (query (revoke_all_user_refresh_tokens user_id clock.database))

-- `CurrentSession`.
unfoldable pub current_session : Uuid → M Store (User × List MembershipRow)
unfolding user_of memberships_for
current_session user_id =
    on_error (missing (not_found "User")) (query (get_user_by_id user_id)) >>= λ row.
    memberships_for user_id >>= λ memberships. return (user_of row, memberships)
