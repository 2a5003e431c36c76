-- ===== src/Scheduling/Availability/Unbooked.antt =====
-- What `SlotsForBooking` offers against the bookings that there are.
use nearby_backend.Prelude.{
  ℕ, ◌+◌, ◌≤◌, ◌<◌, ◌≡◌, refl, sym, subst, Bool, true, false, Option, none, some, List, [], ◌∷◌,
  map, contains, arith, All, All-mono, All-Any,
}
use nearby_backend.Prelude.Int.{ℤ, pos_part}
use nearby_backend.Platform.Errors.{Error}
use nearby_backend.Platform.Database.{
  Failure, caused, ok, World, M, ◌>>=◌, ◌>>◌, lift, guard, or_internal, map_error, or_other, await,
  statement, query,
}
use nearby_backend.Platform.Facts.{Leaves, continue-Leaves, continue-Leaves_any}
use nearby_backend.Scheduling.Models.{
  Uuid, Instant, minute, Location, IsBounded, DayWindow, BusyInterval, Slot, SlotRequest,
}
use nearby_backend.Scheduling.Slots.{generate_slots}
use nearby_backend.Scheduling.Slots.Loop.{grid_limit, generate_slots_ends}
use nearby_backend.Scheduling.Slots.Sound.{Apart, IsFree, IsOpen, IsHonest, generate_slots-IsHonest}
use nearby_backend.Scheduling.Windows.{resolve_windows}
use nearby_backend.Scheduling.Availability.{
  Scheduler, RequestedDate, Clock, Inquiry, inquiry, day_start, day_end, slot_request, rounds,
  unbookable, deliver, fill, plan_day, compute, availability, slots_for_booking, cached, remember,
  reading,
}
use nearby_backend.Scheduling.Availability.Queries.{
  ServiceScheduling, Occupation, DayStore, busy_intervals, resources_for_service,
}
use nearby_backend.Scheduling.Availability.Busy.{
  IsClearOf, IsClearOf-busy_intervals, resolve_windows-own,
}

-- No booking is in the way of a slot on any resource that the slot lists.
abbrev pub IsUnbooked : Location → Instant → ServiceScheduling → List Occupation → Slot → Type 0
IsUnbooked z date resolved occupied slot =
    All
      (λ id.
        All
          (IsClearOf (day_start z date) (day_end z date) slot.starts_at
            (slot.starts_at + pos_part resolved.total_duration) id)
          occupied)
      slot.resource_ids

-- The service can be booked, and there is a list that has only such slots.
abbrev pub IsOffer : Location → Instant → ServiceScheduling → Option (List Slot) → DayStore → Type 0
IsOffer z date resolved answer s =
    (resolved.bookable ≡ true)
    × ((slots : List Slot) × (answer ≡ some slots)
        × All (IsUnbooked z date resolved s.occupied) slots)

rounds_base : (ws : List DayWindow) → 2882 ≤ rounds ws
unfolding rounds
rounds_base [] = omega arith
rounds_base (w ∷ ws) = omega (arith, rounds_base ws)

rounds_enough :
    (ws : List DayWindow) (fuel : ℕ) → rounds ws ≤ fuel → All (λ w. grid_limit w < fuel) ws
unfolding rounds
rounds_enough [] fuel h = tt
rounds_enough (w ∷ ws) fuel h = (omega (arith, rounds_base ws), rounds_enough ws fuel (omega arith))

-- What a reading gives is so in the store that it leaves.
reading-Leaves :
    {A : Type 0} (f : DayStore → A) (w : World DayStore) → Leaves (λ a s. f s ≡ a) (reading f w)
unfolding query
reading-Leaves f w = read (await w.turns w)
  where
    read :
        (v : Option Failure × World DayStore)
        → Leaves (λ a s. f s ≡ a) (map_error (λ e. caused e) (statement (λ s. (ok (f s), s)) v))
    read (some e, v) = tt
    read (none, v) = refl

-- The scheduler's step is a minute or more, and the zone's offset is less than a day.
module _ (step : ℤ) (service_id : Uuid) (date : RequestedDate) (option_ids : List Uuid)
    (clock : Clock) (resolved : ServiceScheduling) (z : Location) (bounded : IsBounded z)
    (whole : minute ≤ pos_part step) (can : resolved.bookable ≡ true) where
  abbrev asked : Inquiry
  asked = inquiry true service_id date option_ids clock

  abbrev request : List DayWindow → List BusyInterval → SlotRequest
  request windows busy = slot_request step asked resolved z windows busy

  abbrev Offered : Option (List Slot) → DayStore → Type 0
  Offered = IsOffer z date.at resolved

  -- A resource that is open and free is clear of the bookings.
  listed-clear :
      (ids : List Uuid) (windows : List DayWindow) (s : DayStore) (start : Instant) (id : Uuid)
      → All (λ w. contains ids w.resource_id ≡ true) windows
      → (busy : List BusyInterval)
      → busy_intervals ids (day_start z date.at) (day_end z date.at) s ≡ busy
      → IsOpen (request windows busy) id start × IsFree (request windows busy) id start
      → All
          (IsClearOf
            (day_start z date.at)
            (day_end z date.at)
            start
            (start + pos_part resolved.total_duration)
            id)
          s.occupied
  listed-clear ids windows s start id own busy e (shown, free) =
      let (w, owned, same) = All-Any windows own shown in
      IsClearOf-busy_intervals ids (day_start z date.at) (day_end z date.at) start
        (start + pos_part resolved.total_duration) id s
        (subst (λ r. contains ids r ≡ true) same.0 owned)
        (subst
          (λ bs.
            All (λ b. b.resource_id ≡ id → Apart start (start + pos_part resolved.total_duration) b)
              bs)
          (sym e) free)

  deliver-Offered :
      (ids : List Uuid) (windows : List DayWindow) (busy : List BusyInterval) (w : World DayStore)
      → All (λ v. contains ids v.resource_id ≡ true) windows
      → busy_intervals ids (day_start z date.at) (day_end z date.at) w.store ≡ busy
      → Leaves Offered
          (deliver asked resolved (generate_slots (rounds windows) (request windows busy)) w)
  unfolding deliver remember
  deliver-Offered ids windows busy w own e =
      let (slots, made) =
        generate_slots_ends (rounds windows) (request windows busy) bounded whole
          (rounds_enough windows (rounds windows) (omega arith)) in
      rw made (
        can,
        (
          slots,
          refl,
          All-mono {P = IsHonest (request windows busy)} slots
              (λ slot honest.
                All-mono slot.resource_ids
                  (λ id h. listed-clear ids windows w.store slot.starts_at id own busy e h)
                  honest.0)
              (generate_slots-IsHonest (rounds windows) (request windows busy) slots made),
        ),
      )

  fill-Offered :
      (ids : List Uuid) (windows : List DayWindow) (w : World DayStore)
      → All (λ v. contains ids v.resource_id ≡ true) windows
      → Leaves Offered (fill step asked resolved z ids windows w)
  unfolding fill
  fill-Offered ids [] w own = (can, ([], refl, tt))
  fill-Offered ids (v ∷ vs) w own =
      let f = busy_intervals ids (day_start z date.at) (day_end z date.at) in
      continue-Leaves (λ busy s. f s ≡ busy) Offered _ (reading f w)
        (λ busy u e. deliver-Offered ids (v ∷ vs) busy u own e) (reading-Leaves f w)

  plan_day-Offered :
      (ids : List Uuid) (w : World DayStore) → Leaves Offered (plan_day step asked resolved z ids w)
  unfolding plan_day
  plan_day-Offered [] w = (can, ([], refl, tt))
  plan_day-Offered (id ∷ rest) w = continue-Leaves_any Offered _ (reading _ w) (λ hours u.
      continue-Leaves_any Offered _ (reading _ u) (λ exceptions v.
        fill-Offered (id ∷ rest) (resolve_windows (id ∷ rest) hours exceptions _) v
          (resolve_windows-own (id ∷ rest) hours exceptions _)))

  compute-Offered : (w : World DayStore) → Leaves Offered (compute step asked resolved z none w)
  unfolding compute
  compute-Offered w =
      continue-Leaves_any Offered _ (reading (resources_for_service service_id) w)
        (λ rows v. plan_day-Offered (map (λ row. row.id) rows) v)

-- The part of the call behind the resolver.
abbrev gate :
    Scheduler
    → Uuid
    → RequestedDate
    → List Uuid
    → Clock
    → Bool
    → Error
    → ServiceScheduling
    → M DayStore (Option (List Slot))
gate s service_id date option_ids clock c e r =
    guard c e >> or_internal (lift (or_other (s.load_location r.timezone))) >>= λ z.
    compute s.step (inquiry true service_id date option_ids clock) r z none

-- When `SlotsForBooking` answers, the service can be booked and the answer is a list (the loop has
-- ended), and no slot of it is in the way of a booking: on each resource that the slot lists, each
-- active booking that reaches into the local day, in the store that the call leaves, has ended when
-- the slot starts or begins when the service is over, whatever other sessions wrote during the call.
-- The resolver answers `resolved` if it answers, the time zone of `resolved` loads as `z`, whose
-- offset is less than a day, and the scheduler's step is a minute or more.
pub slots_for_booking-IsUnbooked :
    (s : Scheduler) (service_id : Uuid) (date : RequestedDate) (option_ids : List Uuid)
    (clock : Clock) (resolved : ServiceScheduling) (z : Location) (w : World DayStore)
    → Leaves (λ r _. r ≡ resolved) (s.resolve service_id option_ids w)
    → s.load_location resolved.timezone ≡ some z
    → IsBounded z
    → minute ≤ pos_part s.step
    → Leaves (IsOffer z date.at resolved) (slots_for_booking s service_id date option_ids clock w)
unfolding slots_for_booking availability cached
slots_for_booking-IsUnbooked s service_id date option_ids clock resolved z w resolves loads b m =
    continue-Leaves (λ r _. r ≡ resolved) Offer _ (s.resolve service_id option_ids w)
      (λ r v e.
        subst
          (λ x.
            Leaves Offer (
              gate s service_id date option_ids clock x.bookable (unbookable x.unbookable_code) x
                v))
          (sym e) (entered resolved.bookable refl v))
      resolves
  where
    Offer : Option (List Slot) → DayStore → Type 0
    Offer = IsOffer z date.at resolved

    entered :
        (c : Bool)
        → resolved.bookable ≡ c
        → (v : World DayStore)
        → Leaves Offer (
            gate s service_id date option_ids clock c
              (unbookable resolved.unbookable_code)
              resolved
              v)
    entered true can v =
        rw loads (compute-Offered s.step service_id date option_ids clock resolved z b m can v)
    entered false can v = tt
