-- ===== src/Scheduling/Availability.antt =====
-- The slots of a service on a day (`availability` of internal/scheduling/service.go). The catalog's
-- resolver and the table of time zones are parameters. The loop of `GenerateSlots` takes fuel, `rounds`
-- of the day's windows, and `none` is a loop that used it up.
pub mod Queries
pub mod Busy
pub mod Unbooked
use nearby_backend.Prelude.{
  ℕ, ◌+◌, ◌*◌, ◌%◌, String, Bool, true, false, Option, none, some, List, [], ◌∷◌, map,
  if◌then◌else◌,
}
use nearby_backend.Prelude.Int.{ℤ}
use nearby_backend.Platform.Errors.{
  Code, Error, service_inactive_code, service_inactive, provider_inactive,
}
use nearby_backend.Platform.Database.{
  or_other, ok, M, ◌>>=◌, ◌>>◌, return, guard, lift, or_internal, query,
}
use nearby_backend.Scheduling.Models.{
  Uuid, Instant, minute, Location, DayWindow, BusyInterval, Slot, SlotRequest,
}
use nearby_backend.Scheduling.Slots.{generate_slots}
use nearby_backend.Scheduling.Windows.{resolve_windows}
use nearby_backend.Scheduling.Cache.{cache_key, get, put}
use Queries.{
  DayStore, ServiceScheduling, resources_for_service, hours_for_day, exceptions_for_date,
  busy_intervals,
}

-- A statement that reads.
abbrev pub reading : {A : Type 0} → (DayStore → A) → M DayStore A
reading f = or_internal (query (λ s. (ok (f s), s)))

-- The switch on `resolved.UnbookableCode`.
abbrev pub unbookable : Option Code → Error
unbookable (some service_inactive_code) = service_inactive
unbookable _ = provider_inactive

-- `cache.get`, and `cache.put`.
unfoldable pub cached : Bool → Uuid → ℕ → List Uuid → Instant → M DayStore (Option (List Slot))
unfolding get cache_key
cached true service_id date option_ids now w = (ok none, w)
cached false service_id date option_ids now w =
    (ok (get w.store.cache (cache_key service_id date option_ids) now), w)

unfoldable pub remember :
    Bool → Uuid → ℕ → List Uuid → Uuid → Instant → Instant → List Slot → M DayStore (Unit {0})
unfolding put cache_key
remember true service_id date option_ids provider_id now later slots w = (ok tt, w)
remember false service_id date option_ids provider_id now later slots w =
    let c = put w.store.cache (cache_key service_id date option_ids) provider_id slots now later in
    (ok tt, record w { store = record w.store { cache = c } })

-- `time.Weekday` of a local day, Sunday first: the first day is a Monday.
abbrev pub weekday_of : ℕ → ℕ
weekday_of day = (day + 1) % 7

-- A `time.Time` that names a day: the instant, and the day that it prints in its own location.
pub record RequestedDate : Type 0 where
  pub at : Instant
  pub day : ℕ

-- `Scheduler`: the catalog's `ResolveScheduling`, `time.LoadLocation` and the step.
pub record Scheduler : Type 0 where
  pub resolve : Uuid → List Uuid → M DayStore ServiceScheduling
  pub load_location : String → Option Location
  pub step : ℤ

abbrev pub day_start : Location → Instant → Instant
day_start z at = z.at_minute (z.day_of at) 0

-- `dayStart.AddDate(0, 0, 1)`, for a day that begins at midnight.
abbrev pub day_end : Location → Instant → Instant
day_end z at = z.at_minute (z.day_of (day_start z at) + 1) 0

-- The readings of the clock: at the cache, for the lead time, at the cache's new entry and at the
-- eviction that follows it.
pub record Clock : Type 0 where
  pub asked : Instant
  pub now : Instant
  pub stored : Instant
  pub swept : Instant

-- What both callers ask for.
pub record Inquiry : Type 0 where
  pub for_booking : Bool
  pub service_id : Uuid
  pub date : RequestedDate
  pub option_ids : List Uuid
  pub clock : Clock

abbrev pub slot_request :
    ℤ → Inquiry → ServiceScheduling → Location → List DayWindow → List BusyInterval → SlotRequest
slot_request step q resolved z windows busy = record {
  date = day_start z q.date.at;
  location = some z;
  total_duration = resolved.total_duration;
  step = step;
  earliest_start = q.clock.now + resolved.min_lead_minutes * minute;
  windows = windows;
  busy = busy;
  include_fully_booked = q.for_booking;
}

-- The end: a list that was made is kept in the cache. `none`: the loop does not end.
unfoldable pub deliver :
    Inquiry → ServiceScheduling → Option (List Slot) → M DayStore (Option (List Slot))
unfolding remember
deliver q resolved none = return none
deliver q resolved (some slots) =
    remember q.for_booking q.service_id q.date.day q.option_ids resolved.provider_id q.clock.stored
      q.clock.swept slots
    >> return (some slots)

-- Fuel for the loop of each window: a minute for each round up to the closing time, and two days for
-- the offsets of a zone.
unfoldable pub rounds : List DayWindow → ℕ
rounds [] = 2882
rounds (w ∷ ws) = w.closes + rounds ws

-- From the windows on.
unfoldable pub fill :
    ℤ
    → Inquiry
    → ServiceScheduling
    → Location
    → List Uuid
    → List DayWindow
    → M DayStore (Option (List Slot))
unfolding deliver busy_intervals generate_slots rounds
fill step q resolved z ids [] = return (some [])
fill step q resolved z ids (window ∷ rest) =
    reading (busy_intervals ids (day_start z q.date.at) (day_end z q.date.at)) >>= λ busy.
    deliver q resolved (
      generate_slots (rounds (window ∷ rest)) (slot_request step q resolved z (window ∷ rest) busy))

-- From the resources on.
unfoldable pub plan_day :
    ℤ → Inquiry → ServiceScheduling → Location → List Uuid → M DayStore (Option (List Slot))
unfolding fill hours_for_day exceptions_for_date resolve_windows
plan_day step q resolved z [] = return (some [])
plan_day step q resolved z (id ∷ rest) =
    let ids = id ∷ rest in
    let on = z.day_of (day_start z q.date.at) in
    reading (hours_for_day resolved.provider_id (weekday_of on) ids) >>= λ hours.
    reading (exceptions_for_date resolved.provider_id on) >>= λ exceptions.
    fill step q resolved z ids (resolve_windows ids hours exceptions (weekday_of on))

-- From the cache's answer on.
unfoldable pub compute :
    ℤ
    → Inquiry
    → ServiceScheduling
    → Location
    → Option (List Slot)
    → M DayStore (Option (List Slot))
unfolding plan_day resources_for_service
compute step q resolved z (some slots) = return (some slots)
compute step q resolved z none = reading (resources_for_service q.service_id) >>= λ rows.
    plan_day step q resolved z (map (λ row. row.id) rows)

-- `availability`.
unfoldable pub availability : Scheduler → Inquiry → M DayStore (Option (List Slot))
unfolding compute cached
availability s q = s.resolve q.service_id q.option_ids >>= λ resolved.
    guard resolved.bookable (unbookable resolved.unbookable_code)
    >> or_internal (lift (or_other (s.load_location resolved.timezone)))
    >>= λ z. cached q.for_booking q.service_id q.date.day q.option_ids q.clock.asked >>= λ hit.
        compute s.step q resolved z hit

-- `Availability` and `SlotsForBooking`.
abbrev pub inquiry : Bool → Uuid → RequestedDate → List Uuid → Clock → Inquiry
inquiry for_booking service_id date option_ids clock = record {
  for_booking = for_booking;
  service_id = service_id;
  date = date;
  option_ids = option_ids;
  clock = clock;
}

unfoldable pub browse :
    Scheduler → Uuid → RequestedDate → List Uuid → Clock → M DayStore (Option (List Slot))
unfolding availability
browse s service_id date option_ids clock =
    availability s (inquiry false service_id date option_ids clock)

unfoldable pub slots_for_booking :
    Scheduler → Uuid → RequestedDate → List Uuid → Clock → M DayStore (Option (List Slot))
unfolding availability
slots_for_booking s service_id date option_ids clock =
    availability s (inquiry true service_id date option_ids clock)
