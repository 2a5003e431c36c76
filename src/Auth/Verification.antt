-- ===== src/Auth/Verification.antt =====
-- Codes that prove an address (internal/auth/verification.go). Delivery writes nothing, and its
-- failure is only logged.
use nearby_backend.Prelude.{ℕ, ◌+◌, ◌*◌, ◌^◌, String, ◌&&◌, not, none, leb, ◌==◌, if◌then◌else◌}
use nearby_backend.Prelude.Text.{text_eq, trim_space, padded}
use nearby_backend.Platform.Errors.{validation, invalid_code, too_many_attempts}
use nearby_backend.Platform.Database.{
  no_rows, api, caused, Outcome, ok, err, M, ◌>>=◌, ◌>>◌, return, throw, guard, missing, attempt,
  on_error, or_internal, query, rand_int,
}
use nearby_backend.Accounts.Tables.{Uuid, Codec, Clock, UserRow, CodeRow, Store}
use nearby_backend.Auth.Tokens.{hash_refresh_token}
use nearby_backend.Auth.Queries.{
  get_user_by_email, consume_codes_for, create_code, get_live_code, increment_attempts,
  consume_code, mark_email_verified,
}
use nearby_backend.Auth.Accounts.{normalize_email, validate_email}

-- Fifteen minutes.
abbrev pub code_ttl : ℕ
code_ttl = 15 * 60_000_000_000

abbrev pub max_attempts : ℕ
max_attempts = 5

abbrev pub code_digits : ℕ
code_digits = 6

-- `generateNumericCode`.
unfoldable pub generate_numeric_code : ℕ → M Store String
unfolding padded
generate_numeric_code digits = rand_int (10 ^ digits) >>= λ n. return (padded digits n)

-- `IssueEmailVerification`.
unfoldable pub issue_email_verification : Codec → Clock → Uuid → String → M Store (Unit {0})
unfolding normalize_email hash_refresh_token
issue_email_verification codec clock user_id raw =
    let email = codec.sql_lower (normalize_email codec raw) in
    or_internal (generate_numeric_code code_digits) >>= λ code.
    or_internal (query (consume_codes_for email clock.database))
    >> (or_internal (
          query (
            create_code (record {
              id = 0;
              user_id = user_id;
              destination = email;
              code_hash = hash_refresh_token codec code;
              attempts = 0;
              expires_at = clock.now + code_ttl;
              consumed_at = none;
            })))
        >>= λ _. return tt)

-- The end of `VerifyEmail`, where the code is right.
unfoldable pub confirm_address : Clock → CodeRow → M Store (Unit {0})
confirm_address clock row = or_internal (query (consume_code row.id clock.database)) >>= λ consumed.
    guard (not (consumed == 0)) invalid_code
    >> or_internal (query (mark_email_verified row.user_id))

-- `VerifyEmail` from the counted attempt on.
unfoldable pub check_code : Codec → Clock → String → CodeRow → M Store (Unit {0})
unfolding hash_refresh_token confirm_address
check_code codec clock code row = or_internal (query (increment_attempts row.id)) >>= λ attempts.
    if leb attempts max_attempts
    then guard (hash_refresh_token codec code == row.code_hash) invalid_code
      >> confirm_address clock row
    else (or_internal (query (consume_code row.id clock.database)) >>= λ _.
        throw (api too_many_attempts))

-- `VerifyEmail`.
unfoldable pub verify_email : Codec → Clock → String → String → M Store (Unit {0})
unfolding normalize_email trim_space check_code
verify_email codec clock raw_email raw_code =
    let email = normalize_email codec raw_email in
    let code = trim_space raw_code in
    guard (not (text_eq email "") && not (text_eq code ""))
      (validation "Email and code are both required")
    >> (on_error (missing invalid_code) (query (get_live_code (codec.sql_lower email))) >>= λ row.
        guard (leb clock.now row.expires_at) invalid_code >> check_code codec clock code row)

-- An address with no account is answered like any other.
unfoldable pub resend_to : Codec → Clock → Outcome UserRow → M Store (Unit {0})
unfolding issue_email_verification
resend_to codec clock (err no_rows) = return tt
resend_to codec clock (err e) = throw (caused e)
resend_to codec clock (ok user) =
    if user.email_verified
    then return tt
    else issue_email_verification codec clock user.id user.email

-- `ResendEmailVerification`.
unfoldable pub resend_email_verification : Codec → Clock → String → M Store (Unit {0})
unfolding normalize_email validate_email resend_to
resend_email_verification codec clock raw =
    let email = normalize_email codec raw in
    validate_email codec email
    >> (attempt (query (get_user_by_email (codec.sql_lower email))) >>= λ found.
        resend_to codec clock found)
