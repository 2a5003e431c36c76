-- ===== src/Auth/Queries.antt =====
-- The statements of internal/db/query/users.sql, refresh_tokens.sql and verification_codes.sql that the
-- auth package runs, with the constraints of migrations/00002_auth.sql and 00008_verification.sql.
-- Addresses come in lower case, as `lower` in the statement makes them. A foreign key that is violated
-- shows as a fault of the statement's turn.
use nearby_backend.Prelude.{
  ℕ, suc, ◌+◌, String, Bool, true, false, ◌&&◌, not, Option, none, some, List, [], ◌∷◌, map, leb,
  ◌==◌, if◌then◌else◌, select, find, exists, length, is_some, get_or,
}
use nearby_backend.Prelude.Text.{text_eq, text_le}
use nearby_backend.Prelude.Sort.{sort_by}
use nearby_backend.Platform.Database.{unique_violation, other_state, pg, Outcome, ok, err}
use nearby_backend.Accounts.Tables.{
  Uuid, Instant, Digest, Role, UserRow, ProviderRow, MemberRow, RefreshTokenRow, CodeRow, Store,
  one_row,
}

abbrev pub user_created : UserRow → Store → Bool → Outcome UserRow × Store
user_created row s true = (err (pg unique_violation "users_email_key"), s)
user_created row s false = (ok row, record s { users = row ∷ s.users; next_id = suc s.next_id })

-- `CreateUser`. The parameter's id is not read.
unfoldable pub create_user : UserRow → Store → Outcome UserRow × Store
unfolding exists
create_user params s =
    let row = record params { id = s.next_id } in
    user_created row s (exists (λ u. text_eq u.email row.email) s.users)

-- `GetUserByEmail`.
unfoldable pub get_user_by_email : String → Store → Outcome UserRow × Store
unfolding find
get_user_by_email email s = (one_row (find (λ u. text_eq u.email email) s.users), s)

-- `GetUserByID`.
unfoldable pub get_user_by_id : Uuid → Store → Outcome UserRow × Store
unfolding find
get_user_by_id id s = (one_row (find (λ u. u.id == id) s.users), s)

-- A membership with its provider.
pub record MembershipRow : Type 0 where
  pub provider_id : Uuid
  pub role : Role
  pub slug : String
  pub name : String
  pub status : String

abbrev pub joined : MemberRow → Option ProviderRow → List MembershipRow → List MembershipRow
joined m none rest = rest
joined m (some p) rest =
    record {
      provider_id = m.provider_id;
      role = m.role;
      slug = p.slug;
      name = p.name;
      status = p.status;
    }
    ∷ rest

unfoldable pub join_providers : List ProviderRow → List MemberRow → List MembershipRow
unfolding find
join_providers providers [] = []
join_providers providers (m ∷ ms) =
    joined m (find (λ p. p.id == m.provider_id) providers) (join_providers providers ms)

-- `ListMembershipsByUser`.
unfoldable pub list_memberships_by_user : Uuid → Store → Outcome (List MembershipRow) × Store
unfolding select join_providers sort_by
list_memberships_by_user user_id s = (
  ok (
      sort_by (λ a b. text_le a.name b.name)
        (join_providers s.providers (select (λ m. m.user_id == user_id) s.members))),
  s,
)

abbrev pub token_created : RefreshTokenRow → Store → Bool → Outcome RefreshTokenRow × Store
token_created row s true = (err (pg unique_violation "refresh_tokens_token_hash_key"), s)
token_created row s false =
    (ok row, record s { refresh_tokens = row ∷ s.refresh_tokens; next_id = suc s.next_id })

-- `CreateRefreshToken`. The parameter's id is not read.
unfoldable pub create_refresh_token : RefreshTokenRow → Store → Outcome RefreshTokenRow × Store
unfolding exists
create_refresh_token params s =
    let row = record params { id = s.next_id } in
    token_created row s (exists (λ r. r.token_hash == row.token_hash) s.refresh_tokens)

-- `GetRefreshTokenByHash`.
unfoldable pub get_refresh_token_by_hash : Digest → Store → Outcome RefreshTokenRow × Store
unfolding find
get_refresh_token_by_hash hash s = (one_row (find (λ r. r.token_hash == hash) s.refresh_tokens), s)

-- `UPDATE refresh_tokens SET revoked_at = now() WHERE ... AND revoked_at IS NULL`.
unfoldable pub revoke_row : (RefreshTokenRow → Bool) → Instant → RefreshTokenRow → RefreshTokenRow
revoke_row which now r =
    if which r && not (is_some r.revoked_at) then record r { revoked_at = some now } else r

abbrev pub is_live : (RefreshTokenRow → Bool) → RefreshTokenRow → Bool
is_live which r = which r && not (is_some r.revoked_at)

unfoldable pub revoke_where : (RefreshTokenRow → Bool) → Instant → Store → Store
unfolding revoke_row
revoke_where which now s = record s { refresh_tokens = map (revoke_row which now) s.refresh_tokens }

-- `RevokeRefreshToken`: the rows that were changed.
unfoldable pub revoke_refresh_token : Uuid → Instant → Store → Outcome ℕ × Store
unfolding select revoke_where
revoke_refresh_token id now s = (
  ok (length (select (is_live (λ r. r.id == id)) s.refresh_tokens)),
  revoke_where (λ r. r.id == id) now s,
)

-- `RevokeAllUserRefreshTokens`.
unfoldable pub revoke_all_user_refresh_tokens : Uuid → Instant → Store → Outcome (Unit {0}) × Store
unfolding revoke_where
revoke_all_user_refresh_tokens user_id now s =
    (ok tt, revoke_where (λ r. r.user_id == user_id) now s)

-- `RevokeRefreshTokenByHash`: the first row that was changed.
unfoldable pub revoke_refresh_token_by_hash :
    Digest → Instant → Store → Outcome RefreshTokenRow × Store
unfolding find revoke_where
revoke_refresh_token_by_hash hash now s = (
  one_row (find (is_live (λ r. r.token_hash == hash)) s.refresh_tokens),
  revoke_where (λ r. r.token_hash == hash) now s,
)

abbrev pub is_live_for : String → CodeRow → Bool
is_live_for destination c = text_eq c.destination destination && not (is_some c.consumed_at)

unfoldable pub consume_row : (CodeRow → Bool) → Instant → CodeRow → CodeRow
consume_row which now c =
    if which c && not (is_some c.consumed_at) then record c { consumed_at = some now } else c

-- `ConsumeVerificationCodesFor`.
unfoldable pub consume_codes_for : String → Instant → Store → Outcome (Unit {0}) × Store
unfolding consume_row
consume_codes_for destination now s = (
  ok tt,
  record s { codes = map (consume_row (λ c. text_eq c.destination destination) now) s.codes },
)

-- `CreateVerificationCode`. The parameter's id is not read.
unfoldable pub create_code : CodeRow → Store → Outcome CodeRow × Store
create_code params s =
    let row = record params { id = s.next_id } in
    (ok row, record s { codes = row ∷ s.codes; next_id = suc s.next_id })

-- `GetLiveVerificationCode`: the newest.
unfoldable pub get_live_code : String → Store → Outcome CodeRow × Store
unfolding find
get_live_code destination s = (one_row (find (is_live_for destination) s.codes), s)

-- The largest `integer` of the database.
abbrev pub max_integer : ℕ
max_integer = 2_147_483_647

unfoldable pub count_attempt : Uuid → CodeRow → CodeRow
count_attempt id c = if c.id == id then record c { attempts = c.attempts + 1 } else c

abbrev pub attempt_counted : Uuid → Store → Option CodeRow → Outcome ℕ × Store
attempt_counted id s none = (one_row none, s)
attempt_counted id s (some c) =
    if leb max_integer c.attempts
    then (err (pg other_state ""), s)
    else (ok (c.attempts + 1), record s { codes = map (count_attempt id) s.codes })

-- `IncrementVerificationAttempts`: the count after the update.
unfoldable pub increment_attempts : Uuid → Store → Outcome ℕ × Store
unfolding find count_attempt
increment_attempts id s = attempt_counted id s (find (λ c. c.id == id) s.codes)

-- `ConsumeVerificationCode`: the rows that were changed.
unfoldable pub consume_code : Uuid → Instant → Store → Outcome ℕ × Store
unfolding select consume_row
consume_code id now s = (
  ok (length (select (λ c. c.id == id && not (is_some c.consumed_at)) s.codes)),
  record s { codes = map (consume_row (λ c. c.id == id) now) s.codes },
)

unfoldable pub verify_user : Uuid → UserRow → UserRow
verify_user id u = if u.id == id then record u { email_verified = true } else u

-- `MarkEmailVerified`.
unfoldable pub mark_email_verified : Uuid → Store → Outcome (Unit {0}) × Store
unfolding verify_user
mark_email_verified id s = (ok tt, record s { users = map (verify_user id) s.users })

abbrev pub patch_user : Option String → Option String → UserRow → UserRow
patch_user name phone u = record u { name = get_or name u.name; phone = or_keep phone u.phone }
  where
    or_keep : Option String → Option String → Option String
    or_keep none old = old
    or_keep (some p) old = some p

abbrev pub patched :
    Uuid → Option String → Option String → Store → Option UserRow → Outcome UserRow × Store
patched id name phone s none = (one_row none, s)
patched id name phone s (some u) = (
  ok (patch_user name phone u),
  record s { users = map (λ v. if v.id == id then patch_user name phone v else v) s.users },
)

-- `UpdateUserProfile`: `COALESCE` keeps what is not given.
unfoldable pub update_user_profile :
    Uuid → Option String → Option String → Store → Outcome UserRow × Store
unfolding find
update_user_profile id name phone s = patched id name phone s (find (λ u. u.id == id) s.users)

-- `SetUserFCMToken`.
unfoldable pub set_user_fcm_token : Uuid → String → Store → Outcome (Unit {0}) × Store
set_user_fcm_token id fcm_token s = (
  ok tt,
  record s {
    users = map (λ u. if u.id == id then record u { fcm_token = some fcm_token } else u) s.users;
  },
)
