-- ===== src/Platform/Errors.antt =====
-- The API errors (internal/platform/httpx/errors.go). The code strings are constructors of `Code`.
-- The cause of an error is logged and never sent; it is not kept here.
use Prim.Native.String.{String, ◌++◌}
use mathlib.Core.List.{List, []}
use Prim.Native.Nat.{ℕ}

pub data Code : Type 0 where
  invalid_credentials_code email_taken_code unauthenticated_code forbidden_code : Code
  not_a_member_code token_expired_code invalid_token_code validation_error_code : Code
  org_required_code not_found_code slot_taken_code outside_hours_code : Code
  invalid_transition_code service_inactive_code provider_inactive_code conflict_code : Code
  invalid_code_code too_many_attempts_code internal_error_code : Code

pub record Error : Type 0 where
  pub status : ℕ
  pub code : Code
  pub message : String
  pub details : List (String × String)

unfoldable pub new_error : ℕ → Code → String → Error
new_error status code message = record {
  status = status;
  code = code;
  message = message;
  details = [];
}

unfoldable pub with_details : Error → List (String × String) → Error
with_details e details = record e { details = details }

unfoldable pub unauthenticated : String → Error
unfolding new_error
unauthenticated message = new_error 401 unauthenticated_code message

unfoldable pub invalid_credentials : Error
unfolding new_error
invalid_credentials = new_error 401 invalid_credentials_code "Incorrect email or password"

unfoldable pub token_expired : Error
unfolding new_error
token_expired = new_error 401 token_expired_code "Your session has expired"

unfoldable pub invalid_token : Error
unfolding new_error
invalid_token = new_error 401 invalid_token_code "Invalid token"

unfoldable pub forbidden : String → Error
unfolding new_error
forbidden message = new_error 403 forbidden_code message

unfoldable pub not_a_member : Error
unfolding new_error
not_a_member = new_error 403 not_a_member_code "You are not a member of this organization"

unfoldable pub org_required : Error
unfolding new_error
org_required = new_error 400 org_required_code "x-organization-id header is required"

unfoldable pub email_taken : Error
unfolding new_error
email_taken = new_error 409 email_taken_code "That email is already registered"

unfoldable pub not_found : String → Error
unfolding new_error
not_found what = new_error 404 not_found_code (what ++ " not found")

unfoldable pub validation : String → Error
unfolding new_error
validation message = new_error 422 validation_error_code message

unfoldable pub slot_taken : Error
unfolding new_error
slot_taken = new_error 409 slot_taken_code "That slot was just taken"

unfoldable pub outside_hours : Error
unfolding new_error
outside_hours = new_error 422 outside_hours_code "That time is outside the provider's opening hours"

unfoldable pub invalid_transition : String → String → Error
unfolding new_error
invalid_transition from to =
    new_error 409 invalid_transition_code ("A " ++ (from ++ (" booking cannot become " ++ to)))

unfoldable pub service_inactive : Error
unfolding new_error
service_inactive = new_error 422 service_inactive_code "That service is not currently bookable"

unfoldable pub provider_inactive : Error
unfolding new_error
provider_inactive =
    new_error 422 provider_inactive_code "That provider is not currently accepting bookings"

unfoldable pub conflict : String → Error
unfolding new_error
conflict message = new_error 409 conflict_code message

unfoldable pub invalid_code : Error
unfolding new_error
invalid_code = new_error 400 invalid_code_code "That code is not valid. Request a new one."

unfoldable pub too_many_attempts : Error
unfolding new_error
too_many_attempts =
    new_error 429 too_many_attempts_code "Too many incorrect codes. Request a new one."

unfoldable pub internal : Error
unfolding new_error
internal = new_error 500 internal_error_code "Something went wrong on our end"
