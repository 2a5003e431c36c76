-- ===== src/Scheduling/Tests.antt =====
-- Runs of the scheduling package, and its theorems at concrete requests.
use nearby_backend.Prelude.{
  suc, ◌≤◌, ◌≡◌, refl, ◌≢◌, inl, inr, true, false, none, some, List, [], ◌∷◌, arith, contains, All,
  Any,
}
use nearby_backend.Prelude.Int.{pos}
use nearby_backend.Prelude.Sort.{Ascending}
use nearby_backend.Scheduling.Models.{
  IsBounded, DayWindow, Slot, SlotRequest, HoursRule, ExceptionRule,
}
use nearby_backend.Scheduling.Slots.{zone, scan_window, scan_from, generate_slots}
use nearby_backend.Scheduling.Slots.Keys.{ids_at, add_id, add_start, add_empty}
use nearby_backend.Scheduling.Slots.Loop.{grid_limit, generate_slots_ends, generate_slots_hangs}
use nearby_backend.Scheduling.Slots.Sound.{IsFree, IsOnGrid, IsHonest, generate_slots-IsHonest}
use nearby_backend.Scheduling.Slots.Order.{IdsAscend, generate_slots-Ascending}
use nearby_backend.Scheduling.Slots.Complete.{FitsBefore, Lists, generate_slots_complete}
use nearby_backend.Scheduling.Slots.Booked.{
  CanBeTaken, generate_slots-CanBeTaken, generate_slots-covers_grid,
}
use nearby_backend.Scheduling.Windows.{resolve_windows}
use nearby_backend.Scheduling.Windows.Precedence.{IsDue, resolve_windows-IsDue}
use nearby_backend.Scheduling.Cache.{
  AvailabilityCache, CacheKey, same_key, new_availability_cache, put, get, invalidate_provider,
}
use nearby_backend.Scheduling.Cache.Freshness.{
  made, filled, invalidate_provider-IsForeign, get-IsFresh,
}

-- A bay that opens from nine to eleven and is busy for the first half hour; the service takes an
-- hour, and the grid has half hours.
abbrev bay : DayWindow
bay = record { resource_id = 7; opens = 540; closes = 660 }

abbrev morning : SlotRequest
morning = record {
  date = 0;
  location = none;
  total_duration = pos 3_600_000_000_000;
  step = pos 1_800_000_000_000;
  earliest_start = 0;
  windows = bay ∷ [];
  busy = record { resource_id = 7; start = 32_400_000_000_000; end = 34_200_000_000_000 } ∷ [];
  include_fully_booked = false;
}

abbrev morning_slots : List Slot
morning_slots =
    record { starts_at = 34_200_000_000_000; resource_ids = 7 ∷ [] }
    ∷ record { starts_at = 36_000_000_000_000; resource_ids = 7 ∷ [] }
    ∷ []

morning_runs : generate_slots 5 morning ≡ some morning_slots
unfolding generate_slots scan_window scan_from contains ids_at add_id add_start add_empty
morning_runs = refl

generate_slots-IsHonest_example : All (IsHonest morning) morning_slots
generate_slots-IsHonest_example = generate_slots-IsHonest 5 morning morning_slots morning_runs

generate_slots-Ascending_example :
    Ascending (λ slot. slot.starts_at) morning_slots × All IdsAscend morning_slots
generate_slots-Ascending_example = generate_slots-Ascending 5 morning morning_slots morning_runs

generate_slots-CanBeTaken_example : All CanBeTaken morning_slots
generate_slots-CanBeTaken_example =
    generate_slots-CanBeTaken 5 morning morning_slots refl morning_runs

abbrev at_ten : IsOnGrid morning bay 36_000_000_000_000
at_ten = record {
  index = 2;
  at = refl;
  opened = omega arith;
  begins = omega arith;
  in_time = omega arith;
  ends = omega arith;
}

fits_till_ten : FitsBefore morning bay 2
fits_till_ten j h = omega arith

IsFree-at_ten : IsFree morning 7 36_000_000_000_000
IsFree-at_ten = (λ e. inr (omega arith), tt)

generate_slots_complete_example : Any (Lists 36_000_000_000_000 7) morning_slots
generate_slots_complete_example =
    generate_slots_complete 5 morning bay 36_000_000_000_000 morning_slots (inl refl) at_ten
      fits_till_ten IsFree-at_ten (omega arith) (omega arith) morning_runs

-- The same with fully booked positions.
abbrev whole_morning : SlotRequest
whole_morning = record morning { include_fully_booked = true }

abbrev whole_morning_slots : List Slot
whole_morning_slots = record { starts_at = 32_400_000_000_000; resource_ids = [] } ∷ morning_slots

whole_morning_runs : generate_slots 5 whole_morning ≡ some whole_morning_slots
unfolding generate_slots scan_window scan_from contains ids_at add_id add_start add_empty
whole_morning_runs = refl

abbrev at_nine : IsOnGrid whole_morning bay 32_400_000_000_000
at_nine = record {
  index = 0;
  at = refl;
  opened = omega arith;
  begins = omega arith;
  in_time = omega arith;
  ends = omega arith;
}

fits_at_nine : FitsBefore whole_morning bay 0
fits_at_nine j h = omega arith

generate_slots-covers_grid_example :
    Any (λ slot. slot.starts_at ≡ 32_400_000_000_000) whole_morning_slots
generate_slots-covers_grid_example =
    generate_slots-covers_grid 5 whole_morning bay 32_400_000_000_000 whole_morning_slots (inl refl)
      at_nine fits_at_nine refl (omega arith) (omega arith) whole_morning_runs

utc-IsBounded : IsBounded (zone morning)
utc-IsBounded = record { late = λ d m. omega arith; early = λ d m. omega arith }

generate_slots_ends_example :
    (slots : List Slot) × (generate_slots (suc (grid_limit bay)) morning ≡ some slots)
generate_slots_ends_example =
    generate_slots_ends (suc (grid_limit bay)) morning utc-IsBounded (omega arith) (omega arith, tt)

-- A step of half a minute.
abbrev eager : SlotRequest
eager = record morning { step = pos 30_000_000_000 }

generate_slots_hangs_example : generate_slots 1_000 eager ≡ none
generate_slots_hangs_example =
    generate_slots_hangs 1_000 eager bay [] refl (omega arith) (omega arith) (omega arith)
      (omega arith) (omega arith)

-- A week with an exception for one of two bays.
abbrev monday_hours : List HoursRule
monday_hours =
    record { id = 1; provider_id = 1; resource_id = none; weekday = 1; opens = 540; closes = 1020 }
    ∷ []

abbrev closed_bay : List ExceptionRule
closed_bay =
    record {
      id = 2;
      provider_id = 1;
      resource_id = some 7;
      is_closed = false;
      opens = some 600;
      closes = some 660;
      reason = none;
    }
    ∷ []

resolve_windows-IsDue_example :
    All
      (λ w. Any (λ id. id ≡ w.resource_id) (7 ∷ 8 ∷ []) × IsDue monday_hours closed_bay 1 w)
      (resolve_windows (7 ∷ 8 ∷ []) monday_hours closed_bay 1)
resolve_windows-IsDue_example = resolve_windows-IsDue monday_hours closed_bay 1 (7 ∷ 8 ∷ [])

-- A cache with one entry.
abbrev one_key : CacheKey
one_key = 3 ∷ 20_000 ∷ []

abbrev one_entry : AvailabilityCache
unfolding put new_availability_cache
one_entry = put (new_availability_cache 0) one_key 5 morning_slots 100 100

invalidate_provider-IsForeign_example :
    All (λ e. e.1.provider_id ≢ 5) (invalidate_provider one_entry 5).entries
unfolding put one_entry
invalidate_provider-IsForeign_example =
    invalidate_provider-IsForeign one_entry 5 (filled one_key 5 morning_slots 100 100 (made 0))

one_entry_hit : get one_entry one_key 200 ≡ some morning_slots
unfolding get one_entry
one_entry_hit = refl

get-IsFresh_example :
    Any
      (λ e. (same_key e.0 one_key ≡ true) × (e.1.slots ≡ morning_slots) × (200 ≤ e.1.expires_at))
      one_entry.entries
get-IsFresh_example = get-IsFresh one_entry one_key 200 morning_slots one_entry_hit
