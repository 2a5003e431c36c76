-- ===== src/Booking/Queries.antt =====
-- The statements of internal/db/query/bookings.sql that change or read single bookings, with the
-- constraints of migrations/00007_bookings.sql. A foreign key that is violated shows as a fault of
-- the statement's turn. `bookings_no_overlap` is checked where a row is inserted; Booking/Overlap
-- shows that an update of the status cannot violate it.
use nearby_backend.Prelude.{
  suc, String, Bool, true, false, ◌&&◌, Option, none, some, List, [], ◌∷◌, ◌++◌, map, ltb, leb,
  ◌==◌, if◌then◌else◌, select, find, exists,
}
use nearby_backend.Prelude.Int.{pos, ltb_ℤ, leb_ℤ}
use nearby_backend.Platform.Database.{
  exclusion_violation, unique_violation, check_violation, Failure, no_rows, pg, Outcome, ok, err,
}
use nearby_backend.Booking.State.{Status, Actor, is_active, status_number}
use nearby_backend.Booking.Models.{Uuid, BookingCode, BookingRow, BookingOptionRow, Store}

unfoldable pub same_code : BookingCode → BookingCode → Bool
same_code [] [] = true
same_code [] (b ∷ bs) = false
same_code (a ∷ as') [] = false
same_code (a ∷ as') (b ∷ bs) = let rest = same_code as' bs in if a == b then rest else false

-- `tstzrange(a) && tstzrange(b)` on the same resource, between rows that occupy it.
unfoldable pub conflicts : BookingRow → BookingRow → Bool
conflicts r s =
    is_active r.status
    && is_active s.status
    && r.resource_id == s.resource_id
    && ltb r.starts_at s.ends_at
    && ltb s.starts_at r.ends_at

-- `BookingCodeExists`.
unfoldable pub booking_code_exists : BookingCode → Store → Outcome Bool × Store
unfolding exists
booking_code_exists code s = (ok (exists (λ r. same_code r.code code) s.bookings), s)

-- The CHECKs of the table, then its unique and exclusion constraints.
unfoldable pub insert_violation : BookingRow → List BookingRow → Option Failure
unfolding exists same_code conflicts
insert_violation row rows =
    if leb row.ends_at row.starts_at
    then some (pg check_violation "bookings_ends_after_starts")
    else if ltb_ℤ row.price_cents (pos 0)
    then some (pg check_violation "bookings_price_cents_check")
    else if leb_ℤ row.duration_minutes (pos 0)
    then some (pg check_violation "bookings_duration_minutes_check")
    else if exists (λ r. same_code r.code row.code) rows
    then some (pg unique_violation "bookings_code_key")
    else if exists (conflicts row) rows
    then some (pg exclusion_violation "bookings_no_overlap")
    else none

abbrev pub inserted : BookingRow → Store → Option Failure → Outcome BookingRow × Store
inserted row s (some e) = (err e, s)
inserted row s none = (ok row, record s { bookings = row ∷ s.bookings; next_id = suc s.next_id })

-- `CreateBooking`. The parameter's id is not read: the database hands out the next one.
unfoldable pub create_booking : BookingRow → Store → Outcome BookingRow × Store
unfolding insert_violation
create_booking params s =
    let row = record params { id = s.next_id } in inserted row s (insert_violation row s.bookings)

abbrev pub same_option : Option Uuid → Option Uuid → Bool
same_option (some a) (some b) = a == b
same_option _ _ = false

abbrev pub added : BookingOptionRow → Store → Bool → Outcome (Unit {0}) × Store
added o s true = (err (pg unique_violation "booking_options_unique_idx"), s)
added o s false = (ok tt, record s { options = s.options ++ o ∷ [] })

-- `AddBookingOption`, with the partial unique index on booking and option.
unfoldable pub add_booking_option : BookingOptionRow → Store → Outcome (Unit {0}) × Store
unfolding exists
add_booking_option o s = added o s (
    exists (λ p. p.booking_id == o.booking_id && same_option p.option.option_id o.option.option_id)
      s.options)

abbrev pub one_row : Option BookingRow → Outcome BookingRow
one_row none = err no_rows
one_row (some r) = ok r

-- `GetBooking`.
unfoldable pub get_booking : Uuid → Store → Outcome BookingRow × Store
unfolding find
get_booking id s = (one_row (find (λ r. r.id == id) s.bookings), s)

-- The parameters of `TransitionBooking`.
pub record Transitioning : Type 0 where
  pub id : Uuid
  pub from_status : Status
  pub to_status : Status
  pub cancelled_by : Option Actor
  pub cancel_reason : Option String

abbrev pub is_due : Transitioning → BookingRow → Bool
is_due t r = r.id == t.id && status_number r.status == status_number t.from_status

unfoldable pub moved_row : Transitioning → BookingRow → BookingRow
moved_row t r = record r {
  status = t.to_status;
  cancelled_by = t.cancelled_by;
  cancel_reason = t.cancel_reason;
}

unfoldable pub update_row : Transitioning → BookingRow → BookingRow
unfolding moved_row
update_row t r = if is_due t r then moved_row t r else r

-- `TransitionBooking`: the UPDATE, and the row that it returns.
abbrev pub updated : Transitioning → Store → Option BookingRow → Outcome BookingRow × Store
updated t s none = (err no_rows, s)
updated t s (some r) = (ok (moved_row t r), record s { bookings = map (update_row t) s.bookings })

unfoldable pub transition_booking : Transitioning → Store → Outcome BookingRow × Store
unfolding find update_row moved_row
transition_booking t s = updated t s (find (is_due t) s.bookings)

-- `ListBookingOptions` for one booking; the rows stand in the order of their insertion, which is
-- that of `sort_order`.
unfoldable pub list_booking_options : Uuid → Store → Outcome (List BookingOptionRow) × Store
unfolding select
list_booking_options id s = (ok (select (λ o. o.booking_id == id) s.options), s)
