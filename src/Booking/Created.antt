-- ===== src/Booking/Created.antt =====
-- What `Create` (internal/booking/service.go) hands back: the booking that was asked for, at the
-- price and for the time that the catalog quotes, on a resource that was free.
use text.Mathlib.Text.{◌==◌ as text_eq}
use nearby_backend.Prelude.{ℕ, ◌≡◌, String, Option, List, ◌==◌}
use nearby_backend.Platform.Database.{ok}
use nearby_backend.Platform.Ensures.{Ensures}
use nearby_backend.Catalog.Models.{ServiceWithProvider, Quote}
use nearby_backend.Scheduling.Models.{Location, Slot}
use nearby_backend.Booking.Models.{Uuid, Booking}
use nearby_backend.Booking.Insert.{InsertParams}
use nearby_backend.Booking.Create.{
  Ports, CreateInput, resources_at, narrow, insert_params, truncate_second,
}
use nearby_backend.Booking.Filed.{IsFiledAmong}

module _ (ports : Ports) (customer_id : Option Uuid) (input : CreateInput)
    (service : ServiceWithProvider) (location : Location) (attributes : String)
    (quote : Quote) where
  abbrev start : ℕ
  start = truncate_second input.starts_at

  -- The slot list was fresh, and the slot of the requested start has these resources free.
  abbrev Listed : List Uuid → Type 0
  Listed ids =
      (slots : List Slot) × (ports.slots_for_booking input.service_id start location
          input.option_ids
        ≡ ok slots)
      × (resources_at start slots ≡ ok ids)

  abbrev params : List Uuid → InsertParams
  params = insert_params customer_id input service attributes quote

  abbrev Answered : Booking → Type 0
  Answered b =
      (candidates : List Uuid) × (ids : List Uuid) × Listed ids
      × (narrow input.resource_id ids ≡ ok candidates)
      × IsFiledAmong (params candidates) candidates b
