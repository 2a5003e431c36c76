-- ===== src/Accounts/Tables.antt =====
-- Rows of the tables in migrations/00002_auth.sql, migrations/00003_tenancy.sql and
-- migrations/00008_verification.sql (the structs of internal/db/models.go). Columns that the
-- database fills from its clock and that no operation reads are left out, and so are the columns of
-- a provider that only its profile shows. A digest is the text that `HashRefreshToken` gives, as a
-- number.
use nearby_backend.Prelude.{ℕ, String, Bool, Option, none, some, List}
use nearby_backend.Platform.Database.{no_rows, Outcome, ok, err}

abbrev pub Uuid : Type 0
Uuid = ℕ

abbrev pub Instant : Type 0
Instant = ℕ

abbrev pub Digest : Type 0
Digest = ℕ

-- A member's role: one of the three that the table allows, or any other text.
pub data Role : Type 0 where
  owner admin staff : Role
  unknown_role : String → Role

pub data PlatformRole : Type 0 where
  platform_admin platform_user : PlatformRole

pub data ClientType : Type 0 where
  web mobile : ClientType

pub record UserRow : Type 0 where
  pub id : Uuid
  pub name : String
  pub email : String
  pub phone : Option String
  pub password_hash : String
  pub platform_role : PlatformRole
  pub email_verified : Bool
  pub fcm_token : Option String

pub record ProviderRow : Type 0 where
  pub id : Uuid
  pub slug : String
  pub name : String
  pub status : String

pub record MemberRow : Type 0 where
  pub provider_id : Uuid
  pub user_id : Uuid
  pub role : Role

pub record InvitationRow : Type 0 where
  pub id : Uuid
  pub provider_id : Uuid
  pub email : String
  pub role : Role
  pub token_hash : Digest
  pub expires_at : Instant
  pub accepted_at : Option Instant

pub record RefreshTokenRow : Type 0 where
  pub id : Uuid
  pub user_id : Uuid
  pub token_hash : Digest
  pub client_type : ClientType
  pub expires_at : Instant
  pub revoked_at : Option Instant

-- All codes go to email addresses; the channel is not kept.
pub record CodeRow : Type 0 where
  pub id : Uuid
  pub user_id : Uuid
  pub destination : String
  pub code_hash : Digest
  pub attempts : ℕ
  pub expires_at : Instant
  pub consumed_at : Option Instant

-- The tables, newest row first, and the next uuid that the database hands out.
pub record Store : Type 0 where
  pub users : List UserRow
  pub providers : List ProviderRow
  pub members : List MemberRow
  pub invitations : List InvitationRow
  pub refresh_tokens : List RefreshTokenRow
  pub codes : List CodeRow
  pub next_id : Uuid

-- What time it is: `time.Now()` in the service, and `now()` in a statement.
pub record Clock : Type 0 where
  pub now : Instant
  pub database : Instant

-- The library functions on texts and bytes that the packages call: `strings.ToLower` and
-- `strings.EqualFold` by the Unicode tables, Postgres's `lower`, SHA-256 in hex, and unpadded base64
-- of random bytes, which are read as one number; and those that passwords and addresses need.
pub record Codec : Type 0 where
  pub to_lower : String → String
  pub equal_fold : String → String → Bool
  pub sql_lower : String → String
  pub sha256 : String → Digest
  pub base64 : ℕ → String
  -- `mail.ParseAddress` accepts the text.
  pub is_address : String → Bool
  -- argon2id with the package's parameters: the encoded hash for a salt and a password, and the check
  -- of a password, which fails on a text that is no such hash.
  pub argon2 : ℕ → String → String
  pub verify_password : String → String → Option Bool

-- `QueryRow(...).Scan(...)`.
abbrev pub one_row {ℓ} : {A : Type ℓ} → Option A → Outcome A
one_row none = err no_rows
one_row (some a) = ok a
