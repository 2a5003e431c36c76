-- ===== src/Scheduling/Slots.antt =====
-- Slot generation (`GenerateSlots`, internal/scheduling/slots.go). The two maps are association
-- lists in the order of their first writes; the lists that leave the function are sorted.
pub mod Keys
pub mod Loop
pub mod Sound
pub mod Order
pub mod Complete
pub mod Booked
use nearby_backend.Prelude.{
  ℕ, zero, suc, ◌+◌, ◌*◌, ◌/◌, Bool, true, false, ◌&&◌, ◌||◌, Option, none, some, List, [], ◌∷◌,
  map, ltb, leb, ◌==◌, if◌then◌else◌, get_or, is_empty, select, exists, contains,
}
use nearby_backend.Prelude.Int.{ℤ, pos, pos_part, leb_ℤ}
use nearby_backend.Prelude.Sort.{sort_by, by_key}
use nearby_backend.Scheduling.Models.{
  Uuid, Instant, Location, utc, minute, DayWindow, BusyInterval, Slot, SlotRequest,
}
use Keys.{Candidates, add_id, ids_at, add_empty, add_start}

unfoldable pub overlaps_any : Instant → Instant → List BusyInterval → Bool
unfolding exists
overlaps_any start end busy =
    exists (λ interval. ltb start interval.end && ltb interval.start end) busy

-- What the loop reads: one window, resolved to instants, and the request.
pub record Scan : Type 0 where
  pub resource_id : Uuid
  pub start_at : ℕ → Instant
  pub step_minutes : ℕ
  pub window_start : Instant
  pub window_end : Instant
  pub total : ℕ
  pub earliest_start : Instant
  pub busy : List BusyInterval

-- The maps `candidates` and `bookable`.
pub record Found : Type 0 where
  pub candidates : Candidates
  pub bookable : List Instant

-- The body of the loop behind the `break`: one grid position.
unfoldable pub offer : Scan → Instant → Found → Found
unfolding overlaps_any
offer s start found =
    let seen = record found { bookable = add_start start found.bookable } in
    if ltb start s.window_start
    then found
    else if ltb start s.earliest_start
    then found
    else if overlaps_any start (start + s.total) s.busy
    then seen
    else if contains (ids_at start found.candidates) s.resource_id
    then seen
    else record seen { candidates = add_id start s.resource_id found.candidates }

-- `for offset := 0; ; offset += step`. `none`: the fuel ran out.
unfoldable pub scan_from : ℕ → Scan → ℕ → Found → Option Found
unfolding offer
scan_from zero s offset found = none
scan_from (suc fuel) s offset found =
    let start = s.start_at offset in
    let rest = scan_from fuel s (offset + s.step_minutes) (offer s start found) in
    if ltb s.window_end (start + s.total) then some found else rest

-- The location and the local day of a request.
abbrev pub zone : SlotRequest → Location
zone req = get_or req.location utc

abbrev pub local_day : SlotRequest → ℕ
local_day req = (zone req).day_of req.date

-- `busyByResource[id]`.
unfoldable pub busy_of : Uuid → List BusyInterval → List BusyInterval
unfolding select
busy_of id busy = select (λ interval. interval.resource_id == id) busy

unfoldable pub scan_of : SlotRequest → DayWindow → Scan
unfolding busy_of
scan_of req window = record {
  resource_id = window.resource_id;
  start_at = λ offset. (zone req).at_minute (local_day req) (window.opens + offset);
  step_minutes = pos_part req.step / minute;
  window_start = (zone req).at_minute (local_day req) window.opens;
  window_end = (zone req).at_minute (local_day req) window.closes;
  total = pos_part req.total_duration;
  earliest_start = req.earliest_start;
  busy = busy_of window.resource_id req.busy;
}

-- One round of the loop over the windows; `continue` for a window that never opens.
unfoldable pub scan_window : ℕ → SlotRequest → DayWindow → Found → Option Found
unfolding scan_of
scan_window fuel req window found =
    if leb window.closes window.opens
    then some found
    else scan_from fuel (scan_of req window) 0 found

unfoldable pub scan_windows : ℕ → SlotRequest → List DayWindow → Found → Option Found
scan_windows fuel req [] found = some found
scan_windows fuel req (window ∷ rest) found = elim (scan_window fuel req window found) [
  | none ↦ none
  | some found' ↦ scan_windows fuel req rest found'
]

unfoldable pub add_empties : List Instant → Candidates → Candidates
add_empties [] candidates = candidates
add_empties (start ∷ rest) candidates = add_empties rest (add_empty start candidates)

abbrev pub to_slot : Instant × List Uuid → Slot
to_slot (start, ids) = record { starts_at = start; resource_ids = sort_by (by_key (λ id. id)) ids }

-- The candidates, with the fully booked positions where `IncludeFullyBooked` asks for them.
unfoldable pub entries : Bool → Found → Candidates
unfolding add_empties
entries true found = add_empties found.bookable found.candidates
entries false found = found.candidates

-- From the maps to the sorted result.
unfoldable pub finish : SlotRequest → Found → List Slot
unfolding entries sort_by
finish req found =
    sort_by (by_key (λ slot. slot.starts_at)) (map to_slot (entries req.include_fully_booked found))

abbrev pub nothing_found : Found
nothing_found = record { candidates = []; bookable = [] }

-- The early return of a request that nothing can come of.
unfoldable pub is_void : SlotRequest → Bool
is_void req = leb_ℤ req.total_duration (pos 0) || leb_ℤ req.step (pos 0) || is_empty req.windows

unfoldable pub generate_slots : ℕ → SlotRequest → Option (List Slot)
unfolding scan_windows finish is_void
generate_slots fuel req =
    if is_void req then some [] else elim (scan_windows fuel req req.windows nothing_found) [
      | none ↦ none
      | some found ↦ some (finish req found)
    ]
