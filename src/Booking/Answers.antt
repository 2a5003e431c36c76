-- ===== src/Booking/Answers.antt =====
-- What the reads of internal/booking/service.go hand back.
use nearby_backend.Prelude.{
  ◌≡◌, refl, sym, subst, Bool, true, Option, none, some, ◌==◌, find, arith, found-passes,
}
use nearby_backend.Platform.Database.{
  ◌>>=◌, ◌>>◌, return, guard, or_internal, on_error, missing, query,
}
use nearby_backend.Platform.Ensures.{
  Yields, Ensures, query-Ensures, on_error-Ensures, guard-Ensures, >>=-Ensures, >>-Ensures,
  anything, Yields-mono,
}
use nearby_backend.Booking.Models.{Uuid, BookingRow, Booking, Store}
use nearby_backend.Booking.Queries.{get_booking, one_row, list_booking_options}
use nearby_backend.Booking.Transition.{
  booking_not_found, options_of, attach_options, is_owner, get_for_customer, get_for_provider,
}

get_booking-id : (id : Uuid) → Ensures (λ r. r.id ≡ id) (query (get_booking id))
unfolding get_booking
get_booking-id id =
    query-Ensures (λ r. r.id ≡ id) (get_booking id)
      (λ s. named s (find (λ r. r.id == id) s.bookings) refl)
  where
    named :
        (s : Store) (o : Option BookingRow)
        → find (λ r. r.id == id) s.bookings ≡ o
        → Yields (λ r. r.id ≡ id) (one_row o)
    named s none h = tt
    named s (some r) h = ground (arith, found-passes (λ q. q.id == id) s.bookings r h)

pub attach_options-row : (row : BookingRow) → Ensures (λ b. b.row ≡ row) (attach_options row)
unfolding attach_options
attach_options-row row =
    let rows = or_internal (query (list_booking_options row.id)) in
    >>=-Ensures (λ _. Unit {0}) (λ b. b.row ≡ row) rows (λ rs. return (options_of row rs))
      (anything rows) (λ rs _ w. refl)

owned : (c : Uuid) (o : Option Uuid) → is_owner c o ≡ true → o ≡ some c
owned c none h = absurd (cc)
owned c (some d) h = ground arith

module _ (Q : Booking → Type 0) (id : Uuid) (test : BookingRow → Bool) where
  -- A read that is guarded by a test of the row.
  guarded_read-Ensures :
      ((row : BookingRow) → row.id ≡ id → test row ≡ true → (b : Booking) → b.row ≡ row → Q b)
      → Ensures Q (
          on_error (missing booking_not_found) (query (get_booking id)) >>= λ row.
          guard (test row) booking_not_found >> attach_options row)
  guarded_read-Ensures f =
      let get = query (get_booking id) in
      >>=-Ensures (λ r. r.id ≡ id) Q (on_error (missing booking_not_found) get)
        (λ row. guard (test row) booking_not_found >> attach_options row)
        (on_error-Ensures (λ r. r.id ≡ id) (missing booking_not_found) get (get_booking-id id))
        (λ row e.
          >>-Ensures (test row ≡ true) Q (guard (test row) booking_not_found) (attach_options row)
            (guard-Ensures (test row) booking_not_found)
            (λ t w.
              Yields-mono (attach_options row w).0 (λ b h. f row e t b h)
                (attach_options-row row w)))

-- A customer is shown the booking that was asked for, and only if it is the customer's own.
pub get_for_customer-IsOwn :
    (c id : Uuid)
    → Ensures (λ b. (b.row.id ≡ id) × (b.row.customer_id ≡ some c)) (get_for_customer c id)
unfolding get_for_customer
get_for_customer-IsOwn c id =
    guarded_read-Ensures _ id (λ row. is_owner c row.customer_id)
      (λ row e t b h.
        subst (λ r. (r.id ≡ id) × (r.customer_id ≡ some c)) (sym h) (e, owned c row.customer_id t))

-- An organization is shown the booking that was asked for, and only if it is the organization's own.
pub get_for_provider-IsOwn :
    (p id : Uuid) → Ensures (λ b. (b.row.id ≡ id) × (b.row.provider_id ≡ p)) (get_for_provider p id)
unfolding get_for_provider
get_for_provider-IsOwn p id =
    guarded_read-Ensures _ id (λ row. row.provider_id == p)
      (λ row e t b h. subst (λ r. (r.id ≡ id) × (r.provider_id ≡ p)) (sym h) (e, ground arith))
