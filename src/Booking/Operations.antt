-- ===== src/Booking/Operations.antt =====
-- What every statement on the tables keeps, whole operations of internal/booking/service.go keep too,
-- in any order and with any interleaving.
use nearby_backend.Prelude.{
  ℕ, zero, suc, ◌≡◌, refl, sym, subst, String, Bool, true, false, Option, none, some, List, [], ◌∷◌,
  if◌then◌else◌,
}
use nearby_backend.Platform.Errors.{Error, internal, slot_taken, invalid_transition}
use nearby_backend.Platform.Database.{
  caused, Failure, api, Outcome, ok, err, World, M, ◌>>=◌, ◌>>◌, return, throw, guard, attempt,
  or_internal, on_error, missing, lift, query, rand_int,
}
use nearby_backend.Platform.Keeps.{
  IsSafe, store-IsSafe, Keeps, >>=-Keeps, >>-Keeps, guard-Keeps, on_error-Keeps, query-Keeps,
  in_tx-Keeps, rand_int-Keeps,
}
use nearby_backend.Catalog.Models.{SelectedOption, ServiceWithProvider, Quote}
use nearby_backend.Scheduling.Models.{Location}
use nearby_backend.Booking.State.{
  Status, Event, status_text, event_text, NextResult, moved, refused, next,
}
use nearby_backend.Booking.Models.{
  Uuid, BookingCode, BookingRow, BookedOption, BookingOptionRow, Booking, Store,
}
use nearby_backend.Booking.Queries.{
  booking_code_exists, create_booking, add_booking_option, get_booking, transition_booking,
  list_booking_options,
}
use nearby_backend.Booking.Insert.{
  letters, new_booking_code, reserve_code, InsertParams, add_options, write_booking, insert_once,
  backoff_for, wait_for, classify, try_from, try_resource, or_next, insert_booking,
}
use nearby_backend.Booking.Create.{
  Ports, CreateInput, invalidate_provider, resources_for_start, create_from, create,
}
use nearby_backend.Booking.Transition.{
  booking_not_found, moved_or_refused, apply, transition_params, release, attach_options,
  transition, cancel_as_customer,
}

-- The property depends on the tables of bookings and options only, and the statements that write
-- keep it: INSERTs, and the guarded UPDATE along an arrow of the state machine.
pub record IsStable (I : Store → Type 0) : Type 0 where
  pub create_keeps : (row : BookingRow) (s : Store) → I s → I (create_booking row s).1
  pub add_keeps : (o : BookingOptionRow) (s : Store) → I s → I (add_booking_option o s).1
  pub update_keeps :
      (id : Uuid) (from to : Status) (e : Event) (reason : Option String)
      → next from e ≡ moved to
      → (s : Store) → I s
      → I (transition_booking (transition_params id from to reason) s).1
  pub invalidate_keeps :
      (id : Uuid) (s : Store) → I s → I (record s { invalidated = id ∷ s.invalidated })

-- A call of the service that may write.
pub data Call : Type 0 where
  reserve : Ports → Option Uuid → CreateInput → Call
  move : Uuid → Event → Option String → Call
  withdraw : Uuid → Uuid → Option String → Call

unfoldable pub serve : Call → M Store Booking
unfolding create transition cancel_as_customer
serve (reserve ports c input) = create ports c input
serve (move id e reason) = transition id e reason
serve (withdraw c id reason) = cancel_as_customer c id reason

-- The calls of one session, in order, whatever each of them answers.
unfoldable pub serve_all : List Call → World Store → World Store
unfolding serve
serve_all [] w = w
serve_all (c ∷ cs) w = serve_all cs (serve c w).1

module _ (I : Store → Type 0) (stable : IsStable I) where
  abbrev Kept : {A : Type 0} → M Store A → Type 0
  Kept = Keeps I

  bind :
      {A B : Type 0} (m : M Store A) (f : A → M Store B)
      → Kept m
      → ((a : A) → Kept (f a))
      → Kept (m >>= f)
  bind = >>=-Keeps I

  or_internal-Keeps : {A : Type 0} (m : M Store A) → Kept m → Kept (or_internal m)
  or_internal-Keeps = on_error-Keeps I caused

  return-Keeps : {A : Type 0} (a : A) → Kept (return a)
  return-Keeps a w h = h

  throw-Keeps : (A : Type 0) (e : Failure) → Kept (throw {A = A} e)
  throw-Keeps A e w h = h

  lift-Keeps : {A : Type 0} (r : Outcome A) → Kept (lift r)
  lift-Keeps r w h = h

  -- A statement that only reads.
  reads :
      {A : Type 0} (f : Store → Outcome A × Store) → ((s : Store) → (f s).1 ≡ s) → Kept (query f)
  reads f same = query-Keeps I f (λ s h. subst I (sym (same s)) h)

  test-Keeps :
      {A : Type 0} (b : Bool) (m k : M Store A) → Kept m → Kept k → Kept (if b then m else k)
  test-Keeps true m k h _ = h
  test-Keeps false m k _ h = h

  rand-Keeps : (n : ℕ) → Kept (rand_int n)
  rand-Keeps = rand_int-Keeps I

  attempt-Keeps : {A : Type 0} (m : M Store A) → Kept m → Kept (attempt m)
  attempt-Keeps m h = h

  seq : {B : Type 0} (m : M Store (Unit {0})) (k : M Store B) → Kept m → Kept k → Kept (m >> k)
  seq = >>-Keeps I

  on : {A : Type 0} (f : Failure → Failure) (m : M Store A) → Kept m → Kept (on_error f m)
  on = on_error-Keeps I

  check : (t : Bool) (e : Error) → Kept (guard t e)
  check = guard-Keeps I

  booking_code_exists-reads : (code : BookingCode) (s : Store) → (booking_code_exists code s).1 ≡ s
  unfolding booking_code_exists
  booking_code_exists-reads code s = refl

  get_booking-reads : (id : Uuid) (s : Store) → (get_booking id s).1 ≡ s
  unfolding get_booking
  get_booking-reads id s = refl

  list_booking_options-reads : (id : Uuid) (s : Store) → (list_booking_options id s).1 ≡ s
  unfolding list_booking_options
  list_booking_options-reads id s = refl

  exists-Keeps : (code : BookingCode) → Kept (query (booking_code_exists code))
  exists-Keeps code = reads (booking_code_exists code) (booking_code_exists-reads code)

  get-Keeps : (id : Uuid) → Kept (query (get_booking id))
  get-Keeps id = reads (get_booking id) (get_booking-reads id)

  list-Keeps : (id : Uuid) → Kept (query (list_booking_options id))
  list-Keeps id = reads (list_booking_options id) (list_booking_options-reads id)

  insert-Keeps : (row : BookingRow) → Kept (query (create_booking row))
  insert-Keeps row = query-Keeps I (create_booking row) (stable.create_keeps row)

  add-Keeps : (o : BookingOptionRow) → Kept (query (add_booking_option o))
  add-Keeps o = query-Keeps I (add_booking_option o) (stable.add_keeps o)

  update-Keeps :
      (id : Uuid) (from to : Status) (e : Event) (reason : Option String)
      → next from e ≡ moved to
      → Kept (query (transition_booking (transition_params id from to reason)))
  update-Keeps id from to e reason h =
      query-Keeps I (transition_booking (transition_params id from to reason))
        (stable.update_keeps id from to e reason h)

  ruleset steps = (
    bind, seq, on, check, test-Keeps, attempt-Keeps, rand-Keeps, return-Keeps, throw-Keeps,
    lift-Keeps, exists-Keeps, get-Keeps, list-Keeps, insert-Keeps, add-Keeps,
  )

  letters-Keeps : (n : ℕ) → Kept (letters n)
  unfolding letters
  letters-Keeps zero = return-Keeps {A = BookingCode} []
  letters-Keeps (suc n) = search (steps, letters-Keeps n)

  new_booking_code-Keeps : Kept new_booking_code
  unfolding new_booking_code
  new_booking_code-Keeps = search (steps, letters-Keeps)

  reserve_code-Keeps : (n : ℕ) → Kept (reserve_code n)
  unfolding reserve_code
  reserve_code-Keeps zero = throw-Keeps BookingCode (api internal)
  reserve_code-Keeps (suc n) = search (steps, new_booking_code-Keeps, reserve_code-Keeps n)

  add_options-Keeps : (id : Uuid) (i : ℕ) (os : List SelectedOption) → Kept (add_options id i os)
  unfolding add_options
  add_options-Keeps id i [] = return-Keeps {A = List BookedOption} []
  add_options-Keeps id i (o ∷ os) = search (steps, add_options-Keeps id (suc i) os)

  write_booking-Keeps : (p : InsertParams) (id : Uuid) → Kept (write_booking p id)
  unfolding write_booking
  write_booking-Keeps p id = search (steps, reserve_code-Keeps, add_options-Keeps)

  insert_once-Keeps : (p : InsertParams) (id : Uuid) → Kept (insert_once p id)
  unfolding insert_once
  insert_once-Keeps p id = in_tx-Keeps I (write_booking p id) (write_booking-Keeps p id)

  backoff_for-Keeps : (n : ℕ) → Kept (backoff_for n)
  unfolding backoff_for
  backoff_for-Keeps n = search steps

  wait_for-Keeps : (d : ℕ) → Kept (wait_for d)
  unfolding wait_for
  wait_for-Keeps d = on _ _ (query-Keeps I {A = Unit {0}} (λ s. (ok tt, s)) (λ s h. h))

  classify-Keeps :
      (retry : M Store (Option Booking)) (n : ℕ) (r : Outcome Booking)
      → Kept retry
      → Kept (classify retry n r)
  unfolding classify
  classify-Keeps retry n (ok b) k = return-Keeps (some b)
  classify-Keeps retry n (err e) k = search (steps, backoff_for-Keeps, wait_for-Keeps)

  try_from-Keeps : (left n : ℕ) (p : InsertParams) (id : Uuid) → Kept (try_from left n p id)
  unfolding try_from
  try_from-Keeps zero n p id = return-Keeps {A = Option Booking} none
  try_from-Keeps (suc left) n p id =
      search (steps, insert_once-Keeps, classify-Keeps, try_from-Keeps left (suc n) p id)

  or_next-Keeps : (m : M Store Booking) (b : Option Booking) → Kept m → Kept (or_next m b)
  or_next-Keeps m (some b) k = return-Keeps b
  or_next-Keeps m none k = k

  insert_booking-Keeps : (p : InsertParams) (ids : List Uuid) → Kept (insert_booking p ids)
  unfolding insert_booking try_resource
  insert_booking-Keeps p [] = throw-Keeps Booking (api slot_taken)
  insert_booking-Keeps p (id ∷ ids) =
      search (steps, try_from-Keeps, or_next-Keeps, insert_booking-Keeps p ids)

  invalidate_provider-Keeps : (id : Uuid) → Kept (invalidate_provider id)
  unfolding invalidate_provider
  invalidate_provider-Keeps id w h =
      store-IsSafe I w _ (stable.invalidate_keeps id w.store h.holds) h

  resources_for_start-Keeps :
      (ports : Ports) (id t : ℕ) (z : Location) (os : List Uuid)
      → Kept (resources_for_start ports id t z os)
  unfolding resources_for_start
  resources_for_start-Keeps ports id t z os = search steps

  create_from-Keeps :
      (ports : Ports) (c : Option Uuid) (input : CreateInput) (service : ServiceWithProvider)
      (location : Location) (attributes : String) (quote : Quote)
      → Kept (create_from ports c input service location attributes quote)
  unfolding create_from
  create_from-Keeps ports c input service location attributes quote =
      search (steps, resources_for_start-Keeps, insert_booking-Keeps, invalidate_provider-Keeps)
        fits 5000

  create-Keeps :
      (ports : Ports) (c : Option Uuid) (input : CreateInput) → Kept (create ports c input)
  unfolding create
  create-Keeps ports c input =
      search (bind, seq, on, check, lift-Keeps, create_from-Keeps) fits 20000 depth 9

  release-Keeps : (from to : Status) (id : Uuid) → Kept (release from to id)
  unfolding release
  release-Keeps from to id = search (steps, invalidate_provider-Keeps)

  attach_options-Keeps : (row : BookingRow) → Kept (attach_options row)
  unfolding attach_options
  attach_options-Keeps row = search steps

  -- The part of `Transition` after the booking was read and the state machine was asked.
  apply-Keeps :
      (id : Uuid) (e : Event) (reason : Option String) (current : BookingRow) (r : NextResult)
      → next current.status e ≡ r
      → Kept (apply id e reason current (moved_or_refused r))
  unfolding apply
  apply-Keeps id e reason current (refused x) h = throw-Keeps Booking (api x)
  apply-Keeps id e reason current (moved to) h =
      let update = query (transition_booking (transition_params id current.status to reason)) in
      let refusal = missing (invalid_transition (status_text current.status) (event_text e)) in
      let rest : BookingRow → M Store Booking =
        λ row. release current.status to row.provider_id >> attach_options row in
      bind (on_error refusal update) rest
        (on refusal update (update-Keeps id current.status to e reason h))
        (λ row.
          seq (release current.status to row.provider_id) (attach_options row)
            (release-Keeps current.status to row.provider_id) (attach_options-Keeps row))

  transition-Keeps :
      (id : Uuid) (e : Event) (reason : Option String) → Kept (transition id e reason)
  unfolding transition
  transition-Keeps id e reason =
      bind (on_error (missing booking_not_found) (query (get_booking id)))
        (λ current. apply id e reason current (moved_or_refused (next current.status e)))
        (on _ _ (get-Keeps id))
        (λ current. apply-Keeps id e reason current (next current.status e) refl)

  cancel_as_customer-Keeps :
      (c id : Uuid) (reason : Option String) → Kept (cancel_as_customer c id reason)
  unfolding cancel_as_customer
  cancel_as_customer-Keeps c id reason = search (steps, transition-Keeps)

  serve-Keeps : (c : Call) → Kept (serve c)
  unfolding serve
  serve-Keeps (reserve ports c input) = create-Keeps ports c input
  serve-Keeps (move id e reason) = transition-Keeps id e reason
  serve-Keeps (withdraw c id reason) = cancel_as_customer-Keeps c id reason

  -- A stable property holds after any calls, if the other sessions keep it too.
  pub serve_all-IsSafe : (cs : List Call) (w : World Store) → IsSafe I w → IsSafe I (serve_all cs w)
  unfolding serve_all
  serve_all-IsSafe [] w h = h
  serve_all-IsSafe (c ∷ cs) w h = serve_all-IsSafe cs (serve c w).1 (serve-Keeps c w h)
