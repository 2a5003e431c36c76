-- ===== src/Scheduling/Models.antt =====
-- The values that the scheduling package passes around (internal/scheduling/models.go and the types
-- of slots.go). A uuid is its 128-bit value: its text is fixed-width hexadecimal, so texts and values
-- are ordered alike. An instant is a count of nanoseconds from Go's zero time, and a `TimeOfDay` is a
-- count of minutes; neither is ever negative in the program.
use nearby_backend.Prelude.{ℕ, ◌+◌, ◌*◌, ◌/◌, ◌≤◌, String, Bool, Option, List}
use nearby_backend.Prelude.Int.{ℤ}

abbrev pub Uuid : Type 0
Uuid = ℕ

abbrev pub Instant : Type 0
Instant = ℕ

abbrev pub TimeOfDay : Type 0
TimeOfDay = ℕ

-- `time.Minute`, in nanoseconds.
abbrev pub minute : ℕ
minute = 60_000_000_000

abbrev pub day : ℕ
day = 86_400_000_000_000

-- A `*time.Location`: the local calendar day of an instant, as a day number, and `time.Date` at a
-- count of minutes from the midnight that begins a local day.
pub record Location : Type 0 where
  pub day_of : Instant → ℕ
  pub at_minute : ℕ → ℕ → Instant

-- `time.UTC`.
abbrev pub utc : Location
utc = record { day_of = λ t. t / day; at_minute = λ d m. d * day + m * minute }

-- What every zone keeps to: its offset from UTC is less than a day, on either side.
pub record IsBounded (z : Location) : Type 0 where
  pub late : (d m : ℕ) → z.at_minute d m ≤ d * day + m * minute + day
  pub early : (d m : ℕ) → d * day + m * minute ≤ z.at_minute d m + day

pub record DayWindow : Type 0 where
  pub resource_id : Uuid
  pub opens : TimeOfDay
  pub closes : TimeOfDay

pub record BusyInterval : Type 0 where
  pub resource_id : Uuid
  pub start : Instant
  pub end : Instant

pub record Slot : Type 0 where
  pub starts_at : Instant
  pub resource_ids : List Uuid

pub record SlotRequest : Type 0 where
  pub date : Instant
  pub location : Option Location
  pub total_duration : ℤ
  pub step : ℤ
  pub earliest_start : Instant
  pub windows : List DayWindow
  pub busy : List BusyInterval
  pub include_fully_booked : Bool

pub record HoursRule : Type 0 where
  pub id : Uuid
  pub provider_id : Uuid
  pub resource_id : Option Uuid
  pub weekday : ℕ
  pub opens : TimeOfDay
  pub closes : TimeOfDay

pub record ExceptionRule : Type 0 where
  pub id : Uuid
  pub provider_id : Uuid
  pub resource_id : Option Uuid
  pub is_closed : Bool
  pub opens : Option TimeOfDay
  pub closes : Option TimeOfDay
  pub reason : Option String
