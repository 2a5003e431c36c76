-- ===== src/Booking/Moved.antt =====
-- What a lifecycle event (`Transition` of internal/booking/service.go) does to the stored booking.
use nearby_backend.Prelude.{
  ◌≡◌, ◌≢◌, refl, sym, ◌∙◌, ap, subst, inl, inr, Bool, true, false, Option, none, some, List, [],
  ◌∷◌, map, ◌==◌, find, arith, Any, found-Any, found-passes, first_or, if◌then◌else◌, String, ◌&&◌,
  not,
}
use nearby_backend.Platform.Errors.{invalid_transition}
use nearby_backend.Platform.Database.{caused, World, return, or_internal, on_error, missing, query}
use nearby_backend.Platform.Turns.{
  meanwhile, rest, IsNext, meanwhile_next, Ends, continue-Ends, map_error-Ends, query-Ends,
}
use nearby_backend.Booking.State.{
  Status, pending, confirmed, in_progress, completed, cancelled_by_customer, cancelled_by_provider,
  no_show, Event, status_text, event_text, NextResult, moved, refused, next, is_active, Actor,
  customer, provider,
}
use nearby_backend.Booking.State.Lifecycle.{◌─◌⟶◌, next-arrow_iff}
use nearby_backend.Booking.Models.{Uuid, BookingRow, Booking, Store}
use nearby_backend.Booking.Queries.{
  get_booking, one_row, Transitioning, is_due, moved_row, update_row, updated, transition_booking,
  list_booking_options,
}
use nearby_backend.Booking.Transition.{
  booking_not_found, moved_or_refused, canceller, transition_params, attach_options, release, apply,
  transition,
}
use nearby_backend.Booking.Create.{invalidate_provider}
use nearby_backend.Booking.Overlap.{is_due-same_status}

-- Who is recorded as the canceller of a booking in a status.
pub data IsCanceller : Status → Option Actor → Type 0 where
  by_customer : IsCanceller cancelled_by_customer (some customer)
  by_provider : IsCanceller cancelled_by_provider (some provider)
  by_nobody :
      (s : Status) → s ≢ cancelled_by_customer → s ≢ cancelled_by_provider → IsCanceller s none

canceller-IsCanceller : (s : Status) → IsCanceller s (canceller s)
unfolding canceller
canceller-IsCanceller cancelled_by_customer = by_customer
canceller-IsCanceller cancelled_by_provider = by_provider
canceller-IsCanceller pending = by_nobody pending (λ e. cc) (λ e. cc)
canceller-IsCanceller confirmed = by_nobody confirmed (λ e. cc) (λ e. cc)
canceller-IsCanceller in_progress = by_nobody in_progress (λ e. cc) (λ e. cc)
canceller-IsCanceller completed = by_nobody completed (λ e. cc) (λ e. cc)
canceller-IsCanceller no_show = by_nobody no_show (λ e. cc) (λ e. cc)

-- `before` stood in the table when the UPDATE ran. Its status moved along an arrow of the event, and
-- but for the status and the cancellation the row is as it was. The new row was in the table after the
-- UPDATE (`wrote`), before the other sessions' writes of the next turn.
pub record IsMoved (id : Uuid) (event : Event) (w : World Store) (b : Booking) (left : World Store)
    : Type 0 where
  pub before : BookingRow
  pub in_place : Any (λ r. r ≡ before) (meanwhile 2 w.turns w.store).bookings
  pub same_id : before.id ≡ id
  pub arrow : before.status ─ event ⟶ b.row.status
  pub unchanged : b.row ≡ record before {
    status = b.row.status;
    cancelled_by = b.row.cancelled_by;
    cancel_reason = b.row.cancel_reason;
  }
  pub by : IsCanceller b.row.status b.row.cancelled_by
  pub wrote : Store
  pub filed : Any (λ r. r ≡ b.row) wrote.bookings
  pub since : left.store ≡ meanwhile 1 (rest (rest w.turns)) wrote

-- The row that an UPDATE was about stands in the table in its new form.
map-update_row :
    (t : Transitioning) (rows : List BookingRow) (r : BookingRow)
    → find (is_due t) rows ≡ some r
    → Any (λ q. q ≡ moved_row t r) (map (update_row t) rows)
unfolding find update_row
map-update_row t [] r h = absurd (cc)
map-update_row t (x ∷ xs) r h = elim (first_or (is_due t x) x r (find (is_due t) xs) h) [
  | inl (e, same) ↦ inl (rw e (ap (moved_row t) same))
  | inr (e, g) ↦ inr (map-update_row t xs r g)
]

module _ (id : Uuid) (event : Event) (w : World Store) where
  -- What the UPDATE answers and leaves: all but the last turn.
  record IsWritten (row : BookingRow) (v : World Store) : Type 0 where
    before : BookingRow
    in_place : Any (λ r. r ≡ before) (meanwhile 2 w.turns w.store).bookings
    same_id : before.id ≡ id
    arrow : before.status ─ event ⟶ row.status
    unchanged : row ≡ record before {
      status = row.status;
      cancelled_by = row.cancelled_by;
      cancel_reason = row.cancel_reason;
    }
    by : IsCanceller row.status row.cancelled_by
    filed : Any (λ r. r ≡ row) v.store.bookings
    turns : v.turns ≡ rest (rest w.turns)

  update-IsWritten :
      (current : BookingRow) (to : Status) (reason : Option String) (v : World Store)
      → IsNext w v
      → next current.status event ≡ moved to
      → Ends IsWritten
          (query (transition_booking (transition_params id current.status to reason)) v)
  unfolding transition_booking moved_row transition_params
  update-IsWritten current to reason v i h =
      query-Ends IsWritten (transition_booking t) v
        (λ u j. written u j (find (is_due t) u.store.bookings) refl)
    where
      t : Transitioning
      t = transition_params id current.status to reason

      written :
          (u : World Store)
          → IsNext v u
          → (o : Option BookingRow) → find (is_due t) u.store.bookings ≡ o
          → Ends IsWritten ((updated t u.store o).0, record u { store = (updated t u.store o).1 })
      written u j none f = tt
      written u j (some r) f =
          let due = found-passes (is_due t) u.store.bookings r f in
          let seen : u.store ≡ meanwhile 2 w.turns w.store = j.store ∙ meanwhile_next 1 w v i in
          record {
            before = r;
            in_place =
                subst (λ s. Any (λ q. q ≡ r) s.bookings) seen
                  (found-Any (is_due t) u.store.bookings r f);
            same_id = ground arith;
            arrow =
                (next-arrow_iff r.status event to).0
                  (subst (λ s. next s event ≡ moved to) (sym (is_due-same_status t r due)) h);
            unchanged = refl;
            by = canceller-IsCanceller to;
            filed = map-update_row t u.store.bookings r f;
            turns = j.turns ∙ ap rest i.turns;
          }

  attach_options-IsMoved :
      (row : BookingRow) (v : World Store)
      → IsWritten row v
      → Ends (IsMoved id event w) (attach_options row v)
  unfolding attach_options list_booking_options
  attach_options-IsMoved row v h =
      let rows = query (list_booking_options row.id) in
      continue-Ends (λ _ u. IsNext v u) (IsMoved id event w) _ (or_internal rows v)
        (map_error-Ends (λ _ u. IsNext v u) caused (rows v)
          (query-Ends (λ _ u. IsNext v u) (list_booking_options row.id) v (λ u i. i)))
        (λ rs u i. record {
          before = h.before;
          in_place = h.in_place;
          same_id = h.same_id;
          arrow = h.arrow;
          unchanged = h.unchanged;
          by = h.by;
          wrote = v.store;
          filed = h.filed;
          since = i.store ∙ ap (λ ts. meanwhile 1 ts v.store) h.turns;
        })

  release-IsWritten :
      (row : BookingRow) (v : World Store) (frees : Bool)
      → IsWritten row v
      → Ends
          (λ _ u. IsWritten row u)
          ((if frees then invalidate_provider row.provider_id else return tt) v)
  unfolding invalidate_provider
  release-IsWritten row v true h = record {
    before = h.before;
    in_place = h.in_place;
    same_id = h.same_id;
    arrow = h.arrow;
    unchanged = h.unchanged;
    by = h.by;
    filed = h.filed;
    turns = h.turns;
  }
  release-IsWritten row v false h = h

  apply-IsMoved :
      (reason : Option String) (current : BookingRow) (v : World Store) (r : NextResult)
      → IsNext w v
      → next current.status event ≡ r
      → Ends (IsMoved id event w) (apply id event reason current (moved_or_refused r) v)
  unfolding apply release
  apply-IsMoved reason current v (refused x) i h = tt
  apply-IsMoved reason current v (moved to) i h =
      let update = query (transition_booking (transition_params id current.status to reason)) in
      let refusal = missing (invalid_transition (status_text current.status) (event_text event)) in
      continue-Ends IsWritten (IsMoved id event w) _ (on_error refusal update v)
        (map_error-Ends IsWritten refusal (update v) (update-IsWritten current to reason v i h))
        (λ row u written.
          continue-Ends (λ _. IsWritten row) (IsMoved id event w) (λ _. attach_options row)
            (release current.status to row.provider_id u)
            (release-IsWritten row u (is_active current.status && not (is_active to)) written)
            (λ _ x k. attach_options-IsMoved row x k))

-- An event that succeeds on a booking has moved a row that stood in the table when the UPDATE ran,
-- after the other sessions' writes of two turns: the row of the given id, from the status that it had
-- then, along an arrow of that event. Only the status and the cancellation of the row changed, the
-- canceller is recorded exactly where the new status is a cancellation, and the new row was in the
-- table that the UPDATE left.
pub transition-IsMoved :
    (id : Uuid) (event : Event) (reason : Option String) (w : World Store)
    → Ends (IsMoved id event w) (transition id event reason w)
unfolding transition get_booking
transition-IsMoved id event reason w =
    let get = query (get_booking id) in
    continue-Ends (λ _. IsNext w) (IsMoved id event w) _
      (on_error (missing booking_not_found) get w)
      (map_error-Ends (λ _. IsNext w) (missing booking_not_found) (get w)
        (query-Ends (λ _. IsNext w) (get_booking id) w
          (λ v i. read v i (find (λ r. r.id == id) v.store.bookings))))
      (λ current v i. apply-IsMoved id event w reason current v (next current.status event) i refl)
  where
    read :
        (v : World Store)
        → IsNext w v
        → (o : Option BookingRow) → Ends (λ _. IsNext w) (one_row o, v)
    read v i none = tt
    read v i (some r) = i
