-- ===== src/Scheduling/Availability/Queries.antt =====
-- The tables that a day's slots come from, and the queries on them (internal/db/query/scheduling.sql,
-- `ListBusyIntervals` of bookings.sql).
use nearby_backend.Prelude.{
  ℕ, String, Bool, true, ◌&&◌, ◌||◌, Option, none, some, List, map, ltb, leb, ◌==◌, select, exists,
  contains,
}
use nearby_backend.Prelude.Int.{ℤ}
use nearby_backend.Prelude.Text.{text_le}
use nearby_backend.Prelude.Sort.{sort_by}
use nearby_backend.Platform.Errors.{Code}
use nearby_backend.Booking.State.{Status, is_active}
use nearby_backend.Scheduling.Models.{Uuid, Instant, BusyInterval, HoursRule, ExceptionRule}
use nearby_backend.Scheduling.Cache.{AvailabilityCache}

-- A row of `resources`.
pub record ResourceRow : Type 0 where
  pub id : Uuid
  pub provider_id : Uuid
  pub name : String
  pub is_active : Bool

-- What a booking takes of a resource.
pub record Occupation : Type 0 where
  pub resource_id : Uuid
  pub status : Status
  pub starts_at : Instant
  pub ends_at : Instant

-- The tables that a day's slots come from, and the scheduler's cache. `attached` holds the pairs of
-- resource and service, and each exception comes with its date.
pub record DayStore : Type 0 where
  pub resources : List ResourceRow
  pub attached : List (Uuid × Uuid)
  pub hours : List HoursRule
  pub exceptions : List (ℕ × ExceptionRule)
  pub occupied : List Occupation
  pub cache : AvailabilityCache

-- `ServiceScheduling`.
pub record ServiceScheduling : Type 0 where
  pub service_id : Uuid
  pub provider_id : Uuid
  pub total_duration : ℤ
  pub timezone : String
  pub min_lead_minutes : ℕ
  pub bookable : Bool
  pub unbookable_code : Option Code

-- `ListResourcesForService`.
unfoldable pub resources_for_service : Uuid → DayStore → List ResourceRow
unfolding select exists sort_by
resources_for_service service_id s =
    sort_by (λ a b. text_le a.name b.name)
      (select
        (λ r. exists (λ pair. pair.1 == service_id && pair.0 == r.id) s.attached && r.is_active)
        s.resources)

abbrev pub is_null_or_in : List Uuid → Option Uuid → Bool
is_null_or_in ids none = true
is_null_or_in ids (some id) = contains ids id

-- `ListBusinessHoursForDay`.
unfoldable pub hours_for_day : Uuid → ℕ → List Uuid → DayStore → List HoursRule
unfolding select sort_by contains
hours_for_day provider_id weekday ids s =
    sort_by (λ a b. leb a.opens b.opens)
      (select
        (λ r.
          r.provider_id == provider_id && r.weekday == weekday && is_null_or_in ids r.resource_id)
        s.hours)

-- `ListScheduleExceptionsForDate`.
unfoldable pub exceptions_for_date : Uuid → ℕ → DayStore → List ExceptionRule
unfolding select
exceptions_for_date provider_id date s =
    map (λ pair. pair.1)
      (select (λ pair. pair.1.provider_id == provider_id && pair.0 == date) s.exceptions)

abbrev pub is_busy : List Uuid → Instant → Instant → Occupation → Bool
is_busy ids from to o =
    contains ids o.resource_id && is_active o.status && ltb o.starts_at to && ltb from o.ends_at

abbrev pub interval : Occupation → BusyInterval
interval o = record { resource_id = o.resource_id; start = o.starts_at; end = o.ends_at }

abbrev pub is_sooner : Occupation → Occupation → Bool
is_sooner a b =
    ltb a.resource_id b.resource_id
    || (a.resource_id == b.resource_id && leb a.starts_at b.starts_at)

-- `ListBusyIntervals`.
unfoldable pub busy_intervals : List Uuid → Instant → Instant → DayStore → List BusyInterval
unfolding select sort_by contains is_active
busy_intervals ids from to s =
    map interval (sort_by is_sooner (select (is_busy ids from to) s.occupied))
