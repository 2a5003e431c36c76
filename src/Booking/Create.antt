-- ===== src/Booking/Create.antt =====
-- The reservation of a slot (`Create` of internal/booking/service.go).
use text.Mathlib.Text.{◌==◌ as text_eq}
use nearby_backend.Prelude.{
  ◌+◌, ◌-◌, ◌*◌, ◌%◌, String, not, Option, none, some, List, [], ◌∷◌, ◌==◌, if◌then◌else◌, is_empty,
  contains,
}
use nearby_backend.Prelude.Int.{ℤ, pos_part, neg_part, ◌+ℤ◌, wrap32}
use nearby_backend.Platform.Errors.{
  validation, service_inactive, provider_inactive, slot_taken, outside_hours,
}
use nearby_backend.Platform.Database.{
  api, Outcome, ok, err, M, ◌>>=◌, ◌>>◌, return, guard, or_internal, lift,
}
use nearby_backend.Catalog.Models.{Service, ServiceWithProvider, Quote}
use nearby_backend.Scheduling.Models.{Location, minute, Slot}
use nearby_backend.Booking.State.{Status, pending, confirmed}
use nearby_backend.Booking.Models.{Uuid, Instant, Booking, Store}
use nearby_backend.Booking.Insert.{InsertParams, insert_booking}

-- The other packages, as this one calls them (`Catalog` and `Slots` in the source), and the zones of
-- `time.LoadLocation`.
pub record Ports : Type 0 where
  pub get_service_with_provider : Uuid → Outcome ServiceWithProvider
  pub quote_for : Service → List Uuid → Outcome Quote
  pub validate_booking_attributes : Uuid → String → Outcome String
  -- A `time.Time` is its instant and its location.
  pub slots_for_booking : Uuid → Instant → Location → List Uuid → Outcome (List Slot)
  pub load_location : String → Outcome Location

pub record CreateInput : Type 0 where
  pub service_id : Uuid
  pub starts_at : Instant
  pub option_ids : List Uuid
  pub attributes : String
  pub note : Option String
  pub resource_id : Option Uuid
  pub customer_name : Option String
  pub customer_phone : Option String

-- `resourcesForStart`: the slot that starts then, with the resources that are free.
unfoldable pub resources_at : Instant → List Slot → Outcome (List Uuid)
resources_at starts_at [] = err (api outside_hours)
resources_at starts_at (slot ∷ slots) =
    let later = resources_at starts_at slots in
    if slot.starts_at == starts_at
    then (if is_empty slot.resource_ids then err (api slot_taken) else ok slot.resource_ids)
    else later

unfoldable pub resources_for_start :
    Ports → Uuid → Instant → Location → List Uuid → M Store (List Uuid)
unfolding resources_at
resources_for_start ports service_id starts_at location option_ids = do
  slots ← lift (ports.slots_for_booking service_id starts_at location option_ids)
  lift (resources_at starts_at slots)

-- The resource that staff ask for must be among the candidates.
unfoldable pub narrow : Option Uuid → List Uuid → Outcome (List Uuid)
narrow none candidates = ok candidates
narrow (some id) candidates = if contains candidates id then ok (id ∷ []) else err (api slot_taken)

-- `t.Add(time.Duration(minutes) * time.Minute)`.
unfoldable pub add_minutes : Instant → ℤ → Instant
add_minutes t minutes = t + pos_part minutes * minute - neg_part minutes * minute

-- `t.Truncate(time.Second)`.
unfoldable pub truncate_second : Instant → Instant
truncate_second t = t - t % 1_000_000_000

unfoldable pub starting_status : String → Status
starting_status mode = if text_eq mode "instant" then confirmed else pending

-- `InvalidateProvider`.
unfoldable pub invalidate_provider : Uuid → M Store (Unit {0})
invalidate_provider id w =
    (ok tt, record w { store = record (w.store) { invalidated = id ∷ w.store.invalidated } })

abbrev pub insert_params :
    Option Uuid → CreateInput → ServiceWithProvider → String → Quote → List Uuid → InsertParams
insert_params customer_id input service attributes quote candidates =
    let starts_at = truncate_second input.starts_at in
    record {
      service = service;
      quote = quote;
      candidates = candidates;
      customer_id = customer_id;
      starts_at = starts_at;
      ends_at = add_minutes starts_at (wrap32 (quote.duration_minutes +ℤ service.buffer_minutes));
      status = starting_status service.booking_mode;
      attributes = attributes;
      note = input.note;
      walk_in_name = input.customer_name;
      walk_in_phone = input.customer_phone;
    }

-- The rest of `Create`, from the quote on.
unfoldable pub create_from :
    Ports
    → Option Uuid
    → CreateInput
    → ServiceWithProvider
    → Location
    → String
    → Quote
    → M Store Booking
unfolding resources_for_start narrow insert_booking invalidate_provider
create_from ports customer_id input service location attributes quote = do
  free ←
      resources_for_start ports input.service_id (truncate_second input.starts_at) location
        input.option_ids
  candidates ← lift (narrow input.resource_id free)
  booking ←
      insert_booking (insert_params customer_id input service attributes quote candidates)
        candidates
  invalidate_provider service.provider_id
  return booking

unfoldable pub create : Ports → Option Uuid → CreateInput → M Store Booking
unfolding create_from
create ports customer_id input = do
  guard (not (input.starts_at == 0)) (validation "startsAt is required")
  service ← lift (ports.get_service_with_provider input.service_id)
  guard service.is_active service_inactive
  guard (text_eq service.provider_status "active") provider_inactive
  location ← or_internal (lift (ports.load_location service.timezone))
  attributes ← lift (ports.validate_booking_attributes service.category_id input.attributes)
  quote ← lift (ports.quote_for service.service input.option_ids)
  create_from ports customer_id input service location attributes quote
