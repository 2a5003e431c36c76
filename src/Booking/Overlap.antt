-- ===== src/Booking/Overlap.antt =====
-- No double booking: two bookings that occupy the same resource never share an instant, whatever
-- operations run and however they interleave.
use nearby_backend.Prelude.{
  ◌≤◌, ◌<◌, ◌≡◌, refl, sym, subst, ◌⊎◌, inl, inr, Bool, true, false, Option, none, some, List, [],
  ◌∷◌, map, arith, ◌==◌, if◌then◌else◌, Bool-cases, All, exists, find,
}
use nearby_backend.Platform.Database.{Failure}
use nearby_backend.Booking.State.{Status, is_active, status_number}
use nearby_backend.Booking.State.Lifecycle.{next-never_reactivates}
use nearby_backend.Booking.Models.{BookingRow, BookingOptionRow, Store}
use nearby_backend.Booking.Queries.{
  conflicts, insert_violation, inserted, create_booking, add_booking_option, added, Transitioning,
  is_due, moved_row, update_row, updated, transition_booking, same_code,
}
use nearby_backend.Platform.Database.{World}
use nearby_backend.Platform.Keeps.{IsSafe}
use nearby_backend.Booking.Transition.{transition_params}
use nearby_backend.Booking.Operations.{IsStable, Call, serve_all, serve_all-IsSafe}

-- The booking occupies its resource.
abbrev pub Occupies : BookingRow → Type 0
Occupies r = is_active r.status ≡ true

-- If both bookings occupy one resource, one ends before the other starts.
abbrev pub Compatible : BookingRow → BookingRow → Type 0
Compatible r s =
    Occupies r
    → Occupies s
    → r.resource_id ≡ s.resource_id
    → (r.ends_at ≤ s.starts_at) ⊎ (s.ends_at ≤ r.starts_at)

-- Every two bookings of the list are compatible.
abbrev pub NoOverlap : List BookingRow → Type 0
NoOverlap [] = Unit
NoOverlap (r ∷ rs) = All (Compatible r) rs × NoOverlap rs

abbrev pub HasNoOverlap : Store → Type 0
HasNoOverlap s = NoOverlap s.bookings

not_conflicting : (r s : BookingRow) → conflicts r s ≡ false → Compatible r s
unfolding conflicts
not_conflicting r s h p q e = ground arith

no_conflict :
    (r : BookingRow) (rs : List BookingRow)
    → exists (conflicts r) rs ≡ false
    → All (Compatible r) rs
unfolding exists
no_conflict r [] h = tt
no_conflict r (s ∷ rs) h = elim (Bool-cases (conflicts r s)) [
  | inl hit ↦ absurd (ground arith)
  | inr miss ↦ (not_conflicting r s miss, no_conflict r rs (rw miss at h))
]

-- What a row that violates no constraint is.
pub record IsSound (row : BookingRow) (rows : List BookingRow) : Type 0 where
  pub lasts : row.starts_at < row.ends_at
  pub new_code : exists (λ r. same_code r.code row.code) rows ≡ false
  pub alone : exists (conflicts row) rows ≡ false

pub insert_violation-none :
    (row : BookingRow) (rows : List BookingRow)
    → insert_violation row rows ≡ none
    → IsSound row rows
unfolding insert_violation
insert_violation-none row rows h = ground arith

inserted-NoOverlap :
    (row : BookingRow) (s : Store) (v : Option Failure)
    → insert_violation row s.bookings ≡ v
    → HasNoOverlap s
    → HasNoOverlap (inserted row s v).1
inserted-NoOverlap row s (some e) h i = i
inserted-NoOverlap row s none h i =
    (no_conflict row s.bookings (insert_violation-none row s.bookings h).alone, i)

-- `CreateBooking` keeps the bookings apart.
pub create_booking-NoOverlap :
    (params : BookingRow) (s : Store) → HasNoOverlap s → HasNoOverlap (create_booking params s).1
unfolding create_booking
create_booking-NoOverlap params s h =
    let row = record params { id = s.next_id } in
    inserted-NoOverlap row s (insert_violation row s.bookings) refl h

-- The update that a transition makes, when the status that it starts from occupies the resource.
abbrev pub FromOccupied : Transitioning → Type 0
FromOccupied t = is_active t.from_status ≡ true

same_status : (s t : Status) → (status_number s == status_number t) ≡ true → s ≡ t
same_status s t h = ground arith

pub is_due-same_status :
    (t : Transitioning) (r : BookingRow) → is_due t r ≡ true → r.status ≡ t.from_status
is_due-same_status t r h = same_status r.status t.from_status (ground arith)

-- A row after the update occupies its resource only if it did before.
update_row-Occupies :
    (t : Transitioning) (r : BookingRow) → FromOccupied t → Occupies (update_row t r) → Occupies r
unfolding update_row
update_row-Occupies t r from h = elim (Bool-cases (is_due t r)) [
  | inl due ↦ subst (λ s. is_active s ≡ true) (sym (is_due-same_status t r due)) from
  | inr skipped ↦ subst Occupies (kept (is_due t r) skipped) h
]
  where
    kept : (b : Bool) → b ≡ false → (if b then moved_row t r else r) ≡ r
    kept true e = absurd (cc)
    kept false e = refl

-- The update leaves a row's place and time as they were.
update_row-place :
    (t : Transitioning) (r : BookingRow)
    → ((update_row t r).resource_id ≡ r.resource_id)
      × ((update_row t r).starts_at ≡ r.starts_at)
      × ((update_row t r).ends_at ≡ r.ends_at)
unfolding update_row moved_row
update_row-place t r = placed (is_due t r)
  where
    placed :
        (b : Bool)
        → ((if b then moved_row t r else r).resource_id ≡ r.resource_id)
          × ((if b then moved_row t r else r).starts_at ≡ r.starts_at)
          × ((if b then moved_row t r else r).ends_at ≡ r.ends_at)
    placed true = (refl, refl, refl)
    placed false = (refl, refl, refl)

update_row-Compatible :
    (t : Transitioning) (r s : BookingRow)
    → FromOccupied t
    → Compatible r s
    → Compatible (update_row t r) (update_row t s)
update_row-Compatible t r s from h p q e =
    let (a, b, c) = update_row-place t r in
    let (a', b', c') = update_row-place t s in
    let apart = h (update_row-Occupies t r from p) (update_row-Occupies t s from q) (cc) in
    ground arith

update_row-All :
    (t : Transitioning) (r : BookingRow) (rs : List BookingRow)
    → FromOccupied t
    → All (Compatible r) rs
    → All (Compatible (update_row t r)) (map (update_row t) rs)
update_row-All t r [] from h = tt
update_row-All t r (s ∷ rs) from h =
    (update_row-Compatible t r s from h.0, update_row-All t r rs from h.1)

update_rows-NoOverlap :
    (t : Transitioning) (rs : List BookingRow)
    → FromOccupied t
    → NoOverlap rs
    → NoOverlap (map (update_row t) rs)
update_rows-NoOverlap t [] from h = tt
update_rows-NoOverlap t (r ∷ rs) from h =
    (update_row-All t r rs from h.0, update_rows-NoOverlap t rs from h.1)

-- `TransitionBooking` keeps the bookings apart when it starts from a status that occupies.
pub transition_booking-NoOverlap :
    (t : Transitioning) (s : Store)
    → FromOccupied t
    → HasNoOverlap s
    → HasNoOverlap (transition_booking t s).1
unfolding transition_booking
transition_booking-NoOverlap t s from h = kept (find (is_due t) s.bookings)
  where
    kept : (r : Option BookingRow) → HasNoOverlap (updated t s r).1
    kept none = h
    kept (some r) = update_rows-NoOverlap t s.bookings from h

-- `AddBookingOption` does not touch the bookings.
pub add_booking_option-NoOverlap :
    (o : BookingOptionRow) (s : Store) → HasNoOverlap s → HasNoOverlap (add_booking_option o s).1
unfolding add_booking_option
add_booking_option-NoOverlap o s h = kept _
  where
    kept : (b : Bool) → HasNoOverlap (added o s b).1
    kept true = h
    kept false = h

NoOverlap-IsStable : IsStable HasNoOverlap
unfolding transition_params
NoOverlap-IsStable = record {
  create_keeps = create_booking-NoOverlap;
  add_keeps = add_booking_option-NoOverlap;
  update_keeps = λ id from to e reason h s.
      transition_booking-NoOverlap (transition_params id from to reason) s
        (next-never_reactivates from e h);
  invalidate_keeps = λ id s h. h;
}

-- No double booking. If the bookings of the store do not overlap, and what other sessions write in
-- between keeps them so, then they do not overlap after any calls of the service, whatever these
-- answer and whichever of their queries fail.
pub serve_all-NoOverlap :
    (cs : List Call) (w : World Store) → IsSafe HasNoOverlap w → HasNoOverlap (serve_all cs w).store
serve_all-NoOverlap cs w h = (serve_all-IsSafe HasNoOverlap NoOverlap-IsStable cs w h).holds
