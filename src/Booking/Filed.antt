-- ===== src/Booking/Filed.antt =====
-- What the insertion of a booking (`insertBooking` of internal/booking/service.go) files.
use nearby_backend.Prelude.{
  ℕ, zero, suc, ◌≡◌, refl, ap, Bool, true, false, Option, none, some, List, [], ◌∷◌, map, ◌==◌,
  if◌then◌else◌, Any, inl, inr,
}
use nearby_backend.Platform.Database.{
  Failure, api, Outcome, ok, err, M, is_exclusion_violation, is_retryable, as_error, ◌>>=◌, ◌>>◌,
  return, throw, attempt, or_internal, query,
}
use nearby_backend.Platform.Ensures.{
  Yields, Ensures, query-Ensures, in_tx-Ensures, >>=-Ensures, >>-Ensures, anything,
}
use nearby_backend.Catalog.Models.{SelectedOption}
use nearby_backend.Booking.Models.{
  Uuid, BookingCode, BookingRow, BookedOption, BookingOptionRow, Booking, Store,
}
use nearby_backend.Booking.Queries.{create_booking, add_booking_option, inserted, insert_violation}
use nearby_backend.Booking.Insert.{
  reserve_code, InsertParams, booked_option, booking_params, add_options, write_booking,
  insert_once, backoff_for, wait_for, classify, try_from, try_resource, or_next, insert_booking,
}

-- The row is the one that the parameters describe, on the given resource; the database gave its id
-- and the code is any.
pub record IsFiled (p : InsertParams) (resource_id : Uuid) (b : Booking) : Type 0 where
  pub id : Uuid
  pub code : BookingCode
  pub row : b.row ≡ record (booking_params p code resource_id) { id = id }
  pub options : b.options ≡ map booked_option p.quote.options

-- The row that an INSERT returns.
IsReturned : BookingRow → BookingRow → Type 0
IsReturned params row = (id : Uuid) × (row ≡ record params { id = id })

create_booking-IsReturned :
    (params : BookingRow) → Ensures (IsReturned params) (query (create_booking params))
unfolding create_booking IsReturned
create_booking-IsReturned params = query-Ensures (IsReturned params) (create_booking params) (λ s.
    let row = record params { id = s.next_id } in returned s (insert_violation row s.bookings))
  where
    returned :
        (s : Store) (v : Option Failure)
        → Yields (IsReturned params) (inserted (record params { id = s.next_id }) s v).0
    returned s (some e) = tt
    returned s none = (s.next_id, refl)

add_options-result :
    (id : Uuid) (i : ℕ) (os : List SelectedOption)
    → Ensures (λ bs. bs ≡ map booked_option os) (add_options id i os)
unfolding add_options
add_options-result id i [] = λ w. refl
add_options-result id i (o ∷ os) =
    let one : BookingOptionRow = record {
      booking_id = id;
      option = booked_option o;
      sort_order = i;
    } in
    let prefix : List BookedOption → M Store (List BookedOption) =
      λ rest. return (booked_option o ∷ rest) in
    let later = add_options id (suc i) os in
    let Done : List BookedOption → Type 0 = λ bs. bs ≡ map booked_option (o ∷ os) in
    >>-Ensures Unit Done (or_internal (query (add_booking_option one))) (later >>= prefix)
      (anything (or_internal (query (add_booking_option one))))
      (λ _.
        >>=-Ensures (λ bs. bs ≡ map booked_option os) Done later prefix
          (add_options-result id (suc i) os) (λ bs e w. ap (◌∷◌ (booked_option o)) e))

write_booking-IsFiled : (p : InsertParams) (id : Uuid) → Ensures (IsFiled p id) (write_booking p id)
unfolding write_booking IsReturned
write_booking-IsFiled p id =
    >>=-Ensures (λ _. Unit {0}) _ _ _ (anything (reserve_code 5))
      (λ code _.
        >>=-Ensures (IsReturned (booking_params p code id)) _ _ _
          (create_booking-IsReturned (booking_params p code id))
          (λ row e.
            >>=-Ensures (λ bs. bs ≡ map booked_option p.quote.options) _ _ _
              (add_options-result row.id 0 p.quote.options)
              (λ bs f w. record { id = e.0; code = code; row = e.1; options = f })))

insert_once-IsFiled : (p : InsertParams) (id : Uuid) → Ensures (IsFiled p id) (insert_once p id)
unfolding insert_once
insert_once-IsFiled p id =
    in_tx-Ensures (IsFiled p id) (write_booking p id) (write_booking-IsFiled p id)

-- What an attempt that may come to nothing found.
abbrev Maybe : (Booking → Type 0) → Option Booking → Type 0
Maybe P none = Unit
Maybe P (some b) = P b

classify-Ensures :
    (P : Booking → Type 0) (retry : M Store (Option Booking)) (n : ℕ) (r : Outcome Booking)
    → Ensures (Maybe P) retry
    → Yields P r
    → Ensures (Maybe P) (classify retry n r)
unfolding classify
classify-Ensures P retry n (ok b) h p w = p
classify-Ensures P retry n (err e) h p w =
    sorted (is_exclusion_violation e) (is_retryable e) (n == 2) w
  where
    sorted :
        (taken again last : Bool)
        → Ensures (Maybe P) (
            if taken
            then return none
            else if again
            then (if last then return none else (backoff_for n >>= λ d. wait_for d >> retry))
            else throw (api (as_error e)))
    sorted true again last = λ v. tt
    sorted false true true = λ v. tt
    sorted false true false =
        >>=-Ensures (λ _. Unit {0}) (Maybe P) (backoff_for n) (λ d. wait_for d >> retry)
          (anything (backoff_for n))
          (λ d _. >>-Ensures Unit (Maybe P) (wait_for d) retry (anything (wait_for d)) (λ _. h))
    sorted false false last = λ v. tt

try_from-IsFiled :
    (left n : ℕ) (p : InsertParams) (id : Uuid)
    → Ensures (Maybe (IsFiled p id)) (try_from left n p id)
unfolding try_from
try_from-IsFiled zero n p id = λ w. tt
try_from-IsFiled (suc left) n p id =
    >>=-Ensures (Yields (IsFiled p id)) (Maybe (IsFiled p id)) (attempt (insert_once p id))
      (classify (try_from left (suc n) p id) n) (insert_once-IsFiled p id)
      (λ r h.
        classify-Ensures (IsFiled p id) (try_from left (suc n) p id) n r
          (try_from-IsFiled left (suc n) p id) h)

-- The booking is filed on one of the candidates.
abbrev pub IsFiledAmong : InsertParams → List Uuid → Booking → Type 0
IsFiledAmong p ids b = (id : Uuid) × Any (λ i. i ≡ id) ids × IsFiled p id b

IsFiledAmong-later :
    (p : InsertParams) (id : Uuid) (ids : List Uuid) (r : Outcome Booking)
    → Yields (IsFiledAmong p ids) r
    → Yields (IsFiledAmong p (id ∷ ids)) r
IsFiledAmong-later p id ids (ok b) (i, a, f) = (i, inr a, f)
IsFiledAmong-later p id ids (err e) h = tt

pub insert_booking-IsFiledAmong :
    (p : InsertParams) (ids : List Uuid) → Ensures (IsFiledAmong p ids) (insert_booking p ids)
unfolding insert_booking try_resource
insert_booking-IsFiledAmong p [] = λ w. tt
insert_booking-IsFiledAmong p (id ∷ ids) =
    >>=-Ensures (Maybe (IsFiled p id)) (IsFiledAmong p (id ∷ ids)) (try_from 3 0 p id)
      (or_next (insert_booking p ids)) (try_from-IsFiled 3 0 p id)
      (λ b h. next_of b h (insert_booking-IsFiledAmong p ids))
  where
    next_of :
        (b : Option Booking)
        → Maybe (IsFiled p id) b
        → Ensures (IsFiledAmong p ids) (insert_booking p ids)
        → Ensures (IsFiledAmong p (id ∷ ids)) (or_next (insert_booking p ids) b)
    next_of (some b) h k w = (id, inl refl, h)
    next_of none h k w = IsFiledAmong-later p id ids (insert_booking p ids w).0 (k w)
