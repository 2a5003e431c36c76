-- ===== src/Auth/Accounts.antt =====
-- Addresses, passwords and profiles of accounts (internal/auth/service.go).
use nearby_backend.Prelude.{ℕ, ◌^◌, String, Bool, not, Option, none, some, ltb}
use nearby_backend.Prelude.Text.{text_eq, trim_space, trim_ptr}
use Prim.Native.String.{len}
use nearby_backend.Platform.Errors.{validation, not_found}
use nearby_backend.Platform.Database.{
  M, ◌>>=◌, ◌>>◌, return, guard, missing, on_error, or_internal, query, rand_int,
}
use nearby_backend.Accounts.Tables.{Uuid, Codec, PlatformRole, UserRow, Store}
use nearby_backend.Auth.Queries.{update_user_profile, set_user_fcm_token}

-- `User`: an account without its password.
pub record User : Type 0 where
  pub id : Uuid
  pub name : String
  pub email : String
  pub phone : Option String
  pub platform_role : PlatformRole
  pub email_verified : Bool

unfoldable pub user_of : UserRow → User
user_of row = record {
  id = row.id;
  name = row.name;
  email = row.email;
  phone = row.phone;
  platform_role = row.platform_role;
  email_verified = row.email_verified;
}

-- `NormalizeEmail`.
unfoldable pub normalize_email : Codec → String → String
unfolding trim_space
normalize_email codec email = codec.to_lower (trim_space email)

-- `ValidateEmail`.
unfoldable pub validate_email : Codec → String → M Store (Unit {0})
validate_email codec email =
    guard (not (text_eq email "")) (validation "Email is required")
    >> guard (codec.is_address email) (validation "That does not look like a valid email address")

-- `minPasswordLength`, in bytes.
abbrev pub min_password_length : ℕ
min_password_length = 8

-- `ValidatePassword`.
unfoldable pub validate_password : String → M Store (Unit {0})
validate_password password =
    guard (not (ltb (len password) min_password_length))
      (validation "Password must be at least 8 characters")

-- `HashPassword`, with a salt of 16 random bytes.
unfoldable pub hash_password : Codec → String → M Store String
hash_password codec password = rand_int (2 ^ 128) >>= λ salt. return (codec.argon2 salt password)

-- Whether a profile's new name is left out or has something in it.
unfoldable pub is_name : Option String → Bool
unfolding trim_space
is_name none = Bool.true
is_name (some name) = not (text_eq (trim_space name) "")

-- `UpdateProfile`.
unfoldable pub update_profile : Uuid → Option String → Option String → M Store User
unfolding is_name trim_ptr user_of
update_profile user_id name phone =
    guard (is_name name) (validation "Name cannot be empty")
    >> (on_error (missing (not_found "User"))
          (query (update_user_profile user_id (trim_ptr name) (trim_ptr phone)))
        >>= λ row. return (user_of row))

-- `RegisterDevice`.
unfoldable pub register_device : Uuid → String → M Store (Unit {0})
unfolding trim_space
register_device user_id fcm_token =
    guard (not (text_eq (trim_space fcm_token) "")) (validation "fcmToken is required")
    >> or_internal (query (set_user_fcm_token user_id (trim_space fcm_token)))
