-- ===== src/Booking/Tests.antt =====
-- The theorems of the booking package at a concrete shop.
use nearby_backend.Prelude.{◌*◌, ◌≡◌, ◌↔◌, refl, true, not, none, some, List, [], ◌∷◌, ◌≤◌, length}
use nearby_backend.Prelude.Int.{pos}
use nearby_backend.Platform.Errors.{invalid_transition}
use nearby_backend.Platform.Database.{pg, deadlock_detected, ok, Turn, World}
use nearby_backend.Platform.Keeps.{IsSafe, IsQuiet, start-IsSafe}
use nearby_backend.Platform.Ensures.{Ensures}
use nearby_backend.Catalog.Models.{ServiceWithProvider}
use nearby_backend.Scheduling.Models.{utc}
use nearby_backend.Booking.State.{
  pending, confirmed, completed, Event, confirm, start, complete, status_text, event_text, moved,
  refused, next, is_terminal, is_active,
}
use nearby_backend.Booking.State.Lifecycle.{
  ◌─◌⟶◌, next-arrow_iff, is_terminal_iff, is_active-not-is_terminal, run, run-pending_bounded,
  run-completed_iff,
}
use nearby_backend.Booking.Models.{BookingRow, Store}
use nearby_backend.Booking.Create.{Ports, CreateInput}
use nearby_backend.Booking.Transition.{transition, get_for_customer, get_for_provider}
use nearby_backend.Booking.Operations.{Call, reserve, move, withdraw, serve_all, serve_all-IsSafe}
use nearby_backend.Booking.Overlap.{HasNoOverlap, serve_all-NoOverlap}
use nearby_backend.Booking.History.{Grown, IsGrown, IsGrown-IsStable, serve_all-IsGrown}
use nearby_backend.Booking.Answers.{get_for_customer-IsOwn, get_for_provider-IsOwn}
use nearby_backend.Booking.Moved.{IsMoved, transition-IsMoved}
use nearby_backend.Platform.Turns.{Ends}

next-arrow_iff_example : (next pending confirm ≡ moved confirmed) ↔ (pending ─ confirm ⟶ confirmed)
next-arrow_iff_example = next-arrow_iff pending confirm confirmed

is_terminal_iff_example : (is_terminal completed ≡ true) ↔ (
    (e : Event)
    → next completed e ≡ refused (invalid_transition (status_text completed) (event_text e)))
is_terminal_iff_example = is_terminal_iff completed

is_active-not-is_terminal_example : is_active pending ≡ not (is_terminal pending)
is_active-not-is_terminal_example = is_active-not-is_terminal pending

short_life : run pending (confirm ∷ start ∷ complete ∷ []) ≡ some completed
unfolding run next
short_life = refl

run-pending_bounded_example : length (confirm ∷ start ∷ complete ∷ []) ≤ 3
run-pending_bounded_example =
    run-pending_bounded (confirm ∷ start ∷ complete ∷ []) completed short_life

run-completed_iff_example :
    ((run pending (start ∷ []) ≡ some completed) ↔ (start ∷ [] ≡ confirm ∷ start ∷ complete ∷ []))
    × ((run confirmed (start ∷ []) ≡ some completed) ↔ (start ∷ [] ≡ start ∷ complete ∷ []))
run-completed_iff_example = run-completed_iff (start ∷ [])

-- A shop with two bays, one of which is taken when the request comes.
abbrev shop_service : ServiceWithProvider
shop_service = record {
  service = record {
    id = 1;
    provider_id = 5;
    category_id = 2;
    name = "Wash";
    price_cents = pos 2000;
    currency = "ETB";
    duration_minutes = pos 30;
    buffer_minutes = pos 10;
    is_active = true;
  };
  provider_status = "active";
  booking_mode = "instant";
  timezone = "UTC";
  min_lead_minutes = pos 0;
}

abbrev shop : Ports
shop = record {
  get_service_with_provider = λ id. ok shop_service;
  quote_for = λ service ids. ok (record {
    price_cents = pos 2000;
    duration_minutes = pos 30;
    currency = "ETB";
    options = [];
  });
  validate_booking_attributes = λ id text. ok text;
  slots_for_booking =
      λ id start location ids. ok (record { starts_at = start; resource_ids = 7 ∷ 8 ∷ [] } ∷ []);
  load_location = λ name. ok utc;
}

abbrev request : CreateInput
request = record {
  service_id = 1;
  starts_at = 34_200_000_000_000;
  option_ids = [];
  attributes = "{}";
  note = none;
  resource_id = none;
  customer_name = none;
  customer_phone = none;
}

abbrev taken_row : BookingRow
taken_row = record {
  id = 1;
  code = 66 ∷ [];
  provider_id = 5;
  service_id = some 1;
  resource_id = 7;
  customer_id = some 3;
  starts_at = 33_000_000_000_000;
  ends_at = 35_000_000_000_000;
  status = confirmed;
  service_name = "Wash";
  price_cents = pos 2000;
  currency = "ETB";
  duration_minutes = pos 30;
  attributes = "{}";
  customer_note = none;
  customer_name = none;
  customer_phone = none;
  cancelled_by = none;
  cancel_reason = none;
}

-- A session on its own.
abbrev alone : Store → World Store
alone s = record { store = s; turns = []; committed = none; draws = λ n. some (n * 11); drawn = 0 }

abbrev rival_calls : List Call
rival_calls = reserve shop none request ∷ []

-- Between queries, another session reserves the same slot, and one query meets a deadlock.
abbrev others : List (Turn Store)
others =
    record { others = λ s. (serve_all rival_calls (alone s)).store; fault = none }
    ∷ record { others = λ s. s; fault = some (pg deadlock_detected "") }
    ∷ []

abbrev shop_world : World Store
shop_world = record {
  store = record { bookings = taken_row ∷ []; options = []; next_id = 2; invalidated = [] };
  turns = others;
  committed = none;
  draws = λ n. some (n * 7);
  drawn = 0;
}

abbrev calls : List Call
calls =
    reserve shop (some 4) request
    ∷ withdraw 3 1 none
    ∷ reserve shop none request
    ∷ move 2 start none
    ∷ []

rival-NoOverlap :
    (s : Store) → HasNoOverlap s → HasNoOverlap (serve_all rival_calls (alone s)).store
rival-NoOverlap s h = serve_all-NoOverlap rival_calls (alone s) (start-IsSafe _ (alone s) refl h tt)

shop_world-IsSafe : IsSafe HasNoOverlap shop_world
shop_world-IsSafe = start-IsSafe _ shop_world refl (tt, tt) (rival-NoOverlap, (λ s h. h, tt))

serve_all-NoOverlap_example : HasNoOverlap (serve_all calls shop_world).store
serve_all-NoOverlap_example = serve_all-NoOverlap calls shop_world shop_world-IsSafe

rival-IsGrown :
    (rows : List BookingRow) (s : Store)
    → IsGrown rows s
    → IsGrown rows (serve_all rival_calls (alone s)).store
rival-IsGrown rows s h =
    (serve_all-IsSafe (IsGrown rows) (IsGrown-IsStable rows) rival_calls (alone s)
      (start-IsSafe _ (alone s) refl h tt)).holds

shop_world-IsQuiet : IsQuiet (IsGrown (taken_row ∷ [])) others
shop_world-IsQuiet = (rival-IsGrown (taken_row ∷ []), (λ s h. h, tt))

serve_all-IsGrown_example : Grown (taken_row ∷ []) (serve_all calls shop_world).store.bookings
serve_all-IsGrown_example = serve_all-IsGrown calls shop_world refl shop_world-IsQuiet

transition-IsMoved_example :
    Ends
      (IsMoved 1 start (alone shop_world.store))
      (transition 1 start none (alone shop_world.store))
transition-IsMoved_example = transition-IsMoved 1 start none (alone shop_world.store)

get_for_customer-IsOwn_example :
    Ensures (λ b. (b.row.id ≡ 1) × (b.row.customer_id ≡ some 3)) (get_for_customer 3 1)
get_for_customer-IsOwn_example = get_for_customer-IsOwn 3 1

get_for_provider-IsOwn_example :
    Ensures (λ b. (b.row.id ≡ 1) × (b.row.provider_id ≡ 5)) (get_for_provider 5 1)
get_for_provider-IsOwn_example = get_for_provider-IsOwn 5 1
