-- ===== src/Scheduling/DayTests.antt =====
-- The slots of a concrete day.
use nearby_backend.Prelude.{◌≡◌, refl, true, none, some, List, [], ◌∷◌, arith, contains}
use nearby_backend.Prelude.Int.{pos}
use nearby_backend.Platform.Database.{ok, World, return, query}
use nearby_backend.Platform.Facts.{Leaves}
use nearby_backend.Booking.State.{confirmed}
use nearby_backend.Scheduling.Models.{IsBounded, utc, Slot}
use nearby_backend.Scheduling.Slots.{scan_window, scan_from, generate_slots}
use nearby_backend.Scheduling.Slots.Keys.{ids_at, add_id, add_start, add_empty}
use nearby_backend.Scheduling.Windows.{resolve_windows, is_for_day}
use nearby_backend.Scheduling.Cache.{new_availability_cache}
use nearby_backend.Scheduling.Availability.{Scheduler, RequestedDate, Clock, slots_for_booking}
use nearby_backend.Scheduling.Availability.Queries.{
  DayStore, ServiceScheduling, hours_for_day, resources_for_service, busy_intervals,
}
use nearby_backend.Scheduling.Availability.Unbooked.{IsOffer, slots_for_booking-IsUnbooked}

-- A wash takes an hour in bay 7, which opens from nine to eleven and is booked till half past nine.
abbrev wash : ServiceScheduling
wash = record {
  service_id = 3;
  provider_id = 1;
  total_duration = pos 3_600_000_000_000;
  timezone = "UTC";
  min_lead_minutes = 0;
  bookable = true;
  unbookable_code = none;
}

abbrev shop : DayStore
shop = record {
  resources = record { id = 7; provider_id = 1; name = "Bay"; is_active = true } ∷ [];
  attached = (7, 3) ∷ [];
  hours =
      record {
        id = 1;
        provider_id = 1;
        resource_id = some 7;
        weekday = 1;
        opens = 540;
        closes = 660;
      }
      ∷ [];
  exceptions = [];
  occupied =
      record {
        resource_id = 7;
        status = confirmed;
        starts_at = 32_400_000_000_000;
        ends_at = 34_200_000_000_000;
      }
      ∷ [];
  cache = new_availability_cache 0;
}

abbrev morning_world : World DayStore
morning_world = record { store = shop; turns = []; committed = none; draws = λ k. none; drawn = 0 }

abbrev half_hours : Scheduler
half_hours = record {
  resolve = λ service_id option_ids. return wash;
  load_location = λ name. some utc;
  step = pos 1_800_000_000_000;
}

abbrev first_day : RequestedDate
first_day = record { at = 0; day = 0 }

abbrev midnight : Clock
midnight = record { asked = 0; now = 0; stored = 0; swept = 0 }

abbrev free_slots : List Slot
free_slots =
    record { starts_at = 32_400_000_000_000; resource_ids = [] }
    ∷ record { starts_at = 34_200_000_000_000; resource_ids = 7 ∷ [] }
    ∷ record { starts_at = 36_000_000_000_000; resource_ids = 7 ∷ [] }
    ∷ []

morning_answer :
    slots_for_booking half_hours 3 first_day [] midnight morning_world
    ≡ (ok (some free_slots), morning_world)
unfolding slots_for_booking generate_slots scan_window scan_from contains ids_at add_id add_start
    add_empty query hours_for_day resources_for_service busy_intervals resolve_windows is_for_day
morning_answer = refl

utc_bounds : IsBounded utc
utc_bounds = record { late = λ d m. omega arith; early = λ d m. omega arith }

slots_for_booking-IsUnbooked_example :
    Leaves (IsOffer utc 0 wash) (slots_for_booking half_hours 3 first_day [] midnight morning_world)
slots_for_booking-IsUnbooked_example =
    slots_for_booking-IsUnbooked half_hours 3 first_day [] midnight wash utc morning_world refl refl
      utc_bounds (omega arith)
