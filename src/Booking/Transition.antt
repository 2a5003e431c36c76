-- ===== src/Booking/Transition.antt =====
-- Lifecycle events on stored bookings, and reads of single bookings (internal/booking/service.go).
use nearby_backend.Prelude.{
  String, Bool, false, ◌&&◌, not, Option, none, some, List, map, ◌==◌, if◌then◌else◌,
}
use nearby_backend.Prelude.Text.{trim_ptr}
use nearby_backend.Platform.Errors.{Error, not_found, invalid_transition}
use nearby_backend.Platform.Database.{
  api, Outcome, ok, err, M, ◌>>=◌, ◌>>◌, return, guard, or_internal, on_error, missing, lift, query,
}
use nearby_backend.Booking.State.{
  Status, cancelled_by_customer, cancelled_by_provider, Event, cancel_by_customer, status_text,
  event_text, NextResult, moved, refused, next, is_active, Actor, customer, provider,
}
use nearby_backend.Booking.Models.{Uuid, BookingRow, BookingOptionRow, Booking, Store}
use nearby_backend.Booking.Queries.{
  get_booking, Transitioning, transition_booking, list_booking_options,
}
use nearby_backend.Booking.Create.{invalidate_provider}

abbrev pub booking_not_found : Error
unfolding not_found
booking_not_found = not_found "Booking"

abbrev pub moved_or_refused : NextResult → Outcome Status
moved_or_refused (moved s) = ok s
moved_or_refused (refused e) = err (api e)

-- Who is recorded as the canceller: the two cancelled statuses only.
unfoldable pub canceller : Status → Option Actor
canceller cancelled_by_customer = some customer
canceller cancelled_by_provider = some provider
canceller _ = none

abbrev pub reason_kept : Option Actor → Option String → Option String
reason_kept none reason = none
reason_kept (some a) reason = trim_ptr reason

unfoldable pub transition_params : Uuid → Status → Status → Option String → Transitioning
unfolding canceller trim_ptr
transition_params id from to reason = record {
  id = id;
  from_status = from;
  to_status = to;
  cancelled_by = canceller to;
  cancel_reason = reason_kept (canceller to) reason;
}

abbrev pub options_of : BookingRow → List BookingOptionRow → Booking
options_of row rows = record { row = row; options = map (λ o. o.option) rows }

-- `attachOptions` for one booking.
unfoldable pub attach_options : BookingRow → M Store Booking
unfolding list_booking_options
attach_options row = do
  rows ← or_internal (query (list_booking_options row.id))
  return (options_of row rows)

-- A booking that stopped occupying its resource frees a slot.
unfoldable pub release : Status → Status → Uuid → M Store (Unit {0})
unfolding invalidate_provider
release from to provider_id =
    if is_active from && not (is_active to) then invalidate_provider provider_id else return tt

-- The rest of `Transition`, from the status that the state machine answered.
unfoldable pub apply : Uuid → Event → Option String → BookingRow → Outcome Status → M Store Booking
unfolding transition_booking transition_params release attach_options
apply id event reason current answer = do
  to ← lift answer
  row ←
      on_error (missing (invalid_transition (status_text current.status) (event_text event)))
        (query (transition_booking (transition_params id current.status to reason)))
  release current.status to row.provider_id
  attach_options row

unfoldable pub transition : Uuid → Event → Option String → M Store Booking
unfolding get_booking apply
transition id event reason = do
  current ← on_error (missing booking_not_found) (query (get_booking id))
  apply id event reason current (moved_or_refused (next current.status event))

abbrev pub is_owner : Uuid → Option Uuid → Bool
is_owner id none = false
is_owner id (some c) = c == id

unfoldable pub cancel_as_customer : Uuid → Uuid → Option String → M Store Booking
unfolding get_booking transition
cancel_as_customer customer_id id reason = do
  row ← on_error (missing booking_not_found) (query (get_booking id))
  guard (is_owner customer_id row.customer_id) booking_not_found
  transition id cancel_by_customer reason

unfoldable pub get_for_customer : Uuid → Uuid → M Store Booking
unfolding get_booking attach_options
get_for_customer customer_id id = do
  row ← on_error (missing booking_not_found) (query (get_booking id))
  guard (is_owner customer_id row.customer_id) booking_not_found
  attach_options row

unfoldable pub get_for_provider : Uuid → Uuid → M Store Booking
unfolding get_booking attach_options
get_for_provider provider_id id = do
  row ← on_error (missing booking_not_found) (query (get_booking id))
  guard (row.provider_id == provider_id) booking_not_found
  attach_options row
