-- ===== src/Booking/Models.antt =====
-- The values of the booking package (internal/booking/models.go, and the rows of the tables in
-- migrations/00007_bookings.sql). Columns that the database fills from its clock, and that no
-- operation reads, are left out; attributes are kept as their encoded bytes.
use nearby_backend.Prelude.{ℕ, String, Option, List}
use nearby_backend.Prelude.Int.{ℤ}
use nearby_backend.Booking.State.{Status, Actor}

abbrev pub Uuid : Type 0
Uuid = ℕ

abbrev pub Instant : Type 0
Instant = ℕ

-- A reference such as "BK-7QK2", as bytes.
abbrev pub BookingCode : Type 0
BookingCode = List ℕ

pub record BookedOption : Type 0 where
  pub option_id : Option Uuid
  pub name : String
  pub price_delta_cents : ℤ
  pub duration_delta_minutes : ℤ

-- A row of `bookings`.
pub record BookingRow : Type 0 where
  pub id : Uuid
  pub code : BookingCode
  pub provider_id : Uuid
  pub service_id : Option Uuid
  pub resource_id : Uuid
  pub customer_id : Option Uuid
  pub starts_at : Instant
  pub ends_at : Instant
  pub status : Status
  pub service_name : String
  pub price_cents : ℤ
  pub currency : String
  pub duration_minutes : ℤ
  pub attributes : String
  pub customer_note : Option String
  pub customer_name : Option String
  pub customer_phone : Option String
  pub cancelled_by : Option Actor
  pub cancel_reason : Option String

-- A row of `booking_options`.
pub record BookingOptionRow : Type 0 where
  pub booking_id : Uuid
  pub option : BookedOption
  pub sort_order : ℕ

-- `Booking`: a row with its option snapshot.
pub record Booking : Type 0 where
  pub row : BookingRow
  pub options : List BookedOption

-- The tables of the package, the next uuid that the database hands out, and the providers whose
-- cached availability was dropped by a call of `InvalidateProvider`, newest first.
pub record Store : Type 0 where
  pub bookings : List BookingRow
  pub options : List BookingOptionRow
  pub next_id : Uuid
  pub invalidated : List Uuid
