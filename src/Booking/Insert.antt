-- ===== src/Booking/Insert.antt =====
-- Booking codes, and the insertion of a booking with its retries (internal/booking/models.go and
-- `insertBooking` of service.go).
use Prim.Native.Char.{code}
use nearby_backend.Prelude.{
  ℕ, zero, suc, ◌+◌, ◌*◌, ◌^◌, String, Option, none, some, List, [], ◌∷◌, ◌++◌, ◌==◌, if◌then◌else◌,
}
use nearby_backend.Prelude.Text.{trim_ptr}
use nearby_backend.Platform.Errors.{internal, slot_taken}
use nearby_backend.Platform.Database.{
  api, is_exclusion_violation, is_retryable, as_error, Outcome, ok, err, M, ◌>>=◌, ◌>>◌, return,
  throw, attempt, or_internal, query, in_tx, rand_int,
}
use nearby_backend.Catalog.Models.{ServiceWithProvider, SelectedOption, Quote}
use nearby_backend.Booking.State.{Status}
use nearby_backend.Booking.Models.{
  Uuid, Instant, BookingCode, BookedOption, BookingRow, Booking, Store,
}
use nearby_backend.Booking.Queries.{booking_code_exists, create_booking, add_booking_option}

abbrev pub codes : String → List ℕ
codes String.[] = []
codes (String.◌∷◌ c s) = code c ∷ codes s

pub record InsertParams : Type 0 where
  pub service : ServiceWithProvider
  pub quote : Quote
  pub candidates : List Uuid
  pub customer_id : Option Uuid
  pub starts_at : Instant
  pub ends_at : Instant
  pub status : Status
  pub attributes : String
  pub note : Option String
  pub walk_in_name : Option String
  pub walk_in_phone : Option String

-- --- codes (models.go) ---

unfoldable pub code_alphabet : List ℕ
code_alphabet = codes "23456789ABCDEFGHJKLMNPQRSTVWXYZ"

unfoldable pub letter_at : List ℕ → ℕ → ℕ
letter_at [] n = 0
letter_at (c ∷ cs) zero = c
letter_at (c ∷ cs) (suc n) = letter_at cs n

-- `rand.Int` under the length of the alphabet, once for each of the code's places.
unfoldable pub letters : ℕ → M Store BookingCode
unfolding letter_at code_alphabet
letters zero = return []
letters (suc n) = do i ← rand_int 31; rest ← letters n; return (letter_at code_alphabet i ∷ rest)

unfoldable pub new_booking_code : M Store BookingCode
unfolding letters
new_booking_code = do rest ← letters 4; return (codes "BK-" ++ rest)

-- `reserveCode`, by the attempts that are left of five.
unfoldable pub reserve_code : ℕ → M Store BookingCode
unfolding new_booking_code booking_code_exists
reserve_code zero = throw (api internal)
reserve_code (suc n) = do
  code ← or_internal new_booking_code
  taken ← or_internal (query (booking_code_exists code))
  let again = reserve_code n
  if taken then again else return code

-- --- reservations ---

abbrev pub booked_option : SelectedOption → BookedOption
booked_option o = record {
  option_id = some o.option_id;
  name = o.name;
  price_delta_cents = o.price_delta_cents;
  duration_delta_minutes = o.duration_delta_minutes;
}

-- The arguments of `CreateBooking`; the id is the database's to give.
unfoldable pub booking_params : InsertParams → BookingCode → Uuid → BookingRow
unfolding trim_ptr
booking_params p code resource_id = record {
  id = 0;
  code = code;
  provider_id = p.service.provider_id;
  service_id = some p.service.id;
  resource_id = resource_id;
  customer_id = p.customer_id;
  starts_at = p.starts_at;
  ends_at = p.ends_at;
  status = p.status;
  service_name = p.service.name;
  price_cents = p.quote.price_cents;
  currency = p.quote.currency;
  duration_minutes = p.quote.duration_minutes;
  attributes = p.attributes;
  customer_note = trim_ptr p.note;
  customer_name = trim_ptr p.walk_in_name;
  customer_phone = trim_ptr p.walk_in_phone;
  cancelled_by = none;
  cancel_reason = none;
}

-- The loop that writes the option snapshot.
unfoldable pub add_options : Uuid → ℕ → List SelectedOption → M Store (List BookedOption)
unfolding add_booking_option
add_options id i [] = return []
add_options id i (o ∷ os) = do
  or_internal (
      query
        (add_booking_option (record { booking_id = id; option = booked_option o; sort_order = i })))
  rest ← add_options id (suc i) os
  return (booked_option o ∷ rest)

-- The body of the transaction in `insertOnce`.
unfoldable pub write_booking : InsertParams → Uuid → M Store Booking
unfolding reserve_code create_booking booking_params add_options
write_booking p resource_id = do
  code ← reserve_code 5
  row ← query (create_booking (booking_params p code resource_id))
  options ← add_options row.id 0 p.quote.options
  return (record { row = row; options = options })

unfoldable pub insert_once : InsertParams → Uuid → M Store Booking
unfolding write_booking
insert_once p resource_id = in_tx (write_booking p resource_id)

-- `time.Millisecond`.
abbrev millisecond : ℕ
millisecond = 1_000_000

abbrev jittered : ℕ → Outcome ℕ → ℕ
jittered base (ok jitter) = base + jitter
jittered base (err e) = base

unfoldable pub backoff_for : ℕ → M Store ℕ
backoff_for n = do
  let base = 2 ^ n * 10 * millisecond
  jitter ← attempt (rand_int base)
  return (jittered base jitter)

-- The `select`: the wait is over, or the context is done, which is a fault of the wait's turn.
unfoldable pub wait_for : ℕ → M Store (Unit {0})
wait_for delay = or_internal (query (λ s. (ok tt, s)))

-- The `switch` on the outcome of one attempt; `retry` is the rest of the loop.
unfoldable pub classify : M Store (Option Booking) → ℕ → Outcome Booking → M Store (Option Booking)
unfolding backoff_for wait_for
classify retry n (ok created) = return (some created)
classify retry n (err e) =
    if is_exclusion_violation e
    then return none
    else if is_retryable e
    then (if n == 2 then return none else (do delay ← backoff_for n; wait_for delay; retry))
    else throw (api (as_error e))

-- The loop of `tryResource`, by the attempts that are left; `n` is the number of this one.
unfoldable pub try_from : ℕ → ℕ → InsertParams → Uuid → M Store (Option Booking)
unfolding insert_once classify
try_from zero n p resource_id = return none
try_from (suc left) n p resource_id = do
  outcome ← attempt (insert_once p resource_id)
  classify (try_from left (suc n) p resource_id) n outcome

unfoldable pub try_resource : InsertParams → Uuid → M Store (Option Booking)
unfolding try_from
try_resource p resource_id = try_from 3 0 p resource_id

abbrev pub or_next : M Store Booking → Option Booking → M Store Booking
or_next later (some b) = return b
or_next later none = later

-- The loop of `insertBooking` over the candidates.
unfoldable pub insert_booking : InsertParams → List Uuid → M Store Booking
unfolding try_resource
insert_booking p [] = throw (api slot_taken)
insert_booking p (resource_id ∷ rest) = do
  booking ← try_resource p resource_id
  or_next (insert_booking p rest) booking
