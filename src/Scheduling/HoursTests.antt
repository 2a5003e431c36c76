-- ===== src/Scheduling/HoursTests.antt =====
-- The theorems on the weekly pattern at a concrete week.
use nearby_backend.Prelude.{◌≡◌, refl, true, none, some, List, [], ◌∷◌, arith, exists}
use nearby_backend.Prelude.Int.{pos}
use nearby_backend.Prelude.Sort.{sort_by}
use nearby_backend.Platform.Database.{ok, World, other}
use nearby_backend.Platform.Ensures.{Ensures}
use nearby_backend.Platform.Keeps.{IsQuiet}
use nearby_backend.Scheduling.Models.{HoursRule}
use nearby_backend.Scheduling.Hours.{
  valid, HoursInput, add_span, by_day, clashes, day_clashes, assert_no_overlap,
}
use nearby_backend.Scheduling.Hours.Apart.{AreCompatible, Pairs, assert_no_overlap-Pairs}
use nearby_backend.Scheduling.TimeOfDay.{parse_time_of_day, time_text}
use nearby_backend.Scheduling.TimeOfDay.RoundTrip.{
  parse_time_of_day-time_text, parse_time_of_day-valid,
}
use nearby_backend.Scheduling.Schedule.{HoursStore, create_hours, replace_hours}
use nearby_backend.Scheduling.Schedule.Filed.{
  IsFiledRule, create_hours-IsFiledRule, create_hours_midnight,
}
use nearby_backend.Scheduling.Schedule.Scopes.{elsewhere, IsElsewhere, replace_hours-elsewhere}

abbrev morning_span : HoursInput
morning_span = record { resource_id = some 7; weekday = pos 1; opens = 540; closes = 720 }

abbrev evening_span : HoursInput
evening_span = record { resource_id = some 7; weekday = pos 1; opens = 780; closes = 1020 }

abbrev night_span : HoursInput
night_span = record { resource_id = none; weekday = pos 5; opens = 1200; closes = 1440 }

abbrev week : List HoursInput
week = evening_span ∷ morning_span ∷ night_span ∷ []

week_accepted : assert_no_overlap week ≡ ok tt
unfolding assert_no_overlap by_day add_span day_clashes clashes sort_by exists
week_accepted = refl

assert_no_overlap-Pairs_example : Pairs AreCompatible week
assert_no_overlap-Pairs_example =
    assert_no_overlap-Pairs week (omega arith, (omega arith, (omega arith, tt))) week_accepted

create_hours-IsFiledRule_example :
    Ensures (IsFiledRule 5 morning_span) (create_hours 5 morning_span)
create_hours-IsFiledRule_example = create_hours-IsFiledRule 5 morning_span

create_hours_midnight_example : Ensures (λ _. ⊥) (create_hours 5 night_span)
create_hours_midnight_example = create_hours_midnight 5 night_span refl

-- A provider with hours of its own and hours for one resource, while another session drops cached
-- slots and the last query fails.
abbrev own_rule : HoursRule
own_rule = record {
  id = 1;
  provider_id = 5;
  resource_id = none;
  weekday = 1;
  opens = 540;
  closes = 1020;
}

abbrev bay_rule : HoursRule
bay_rule = record {
  id = 2;
  provider_id = 5;
  resource_id = some 7;
  weekday = 1;
  opens = 600;
  closes = 900;
}

abbrev hours_world : World HoursStore
hours_world = record {
  store = record {
    hours = own_rule ∷ bay_rule ∷ [];
    resources = (7, 5) ∷ [];
    next_id = 3;
    invalidated = [];
  };
  turns =
      record { others = λ s. record s { invalidated = 5 ∷ s.invalidated }; fault = none }
      ∷ record { others = λ s. s; fault = none }
      ∷ record { others = λ s. s; fault = none }
      ∷ record { others = λ s. s; fault = none }
      ∷ record { others = λ s. s; fault = some other }
      ∷ [];
  committed = none;
  draws = λ n. none;
  drawn = 0;
}

hours_world-IsQuiet :
    IsQuiet (IsElsewhere 5 (some 7) (elsewhere 5 (some 7) hours_world.store)) hours_world.turns
hours_world-IsQuiet = (λ s h. h, (λ s h. h, (λ s h. h, (λ s h. h, (λ s h. h, tt)))))

replace_hours-elsewhere_example :
    elsewhere 5
      (some 7)
      (replace_hours 5 (some 7) (morning_span ∷ evening_span ∷ []) hours_world).1.store
    ≡ elsewhere 5 (some 7) hours_world.store
replace_hours-elsewhere_example =
    replace_hours-elsewhere 5 (some 7) (morning_span ∷ evening_span ∷ []) hours_world refl
      hours_world-IsQuiet

half_past_nine : valid 570 ≡ true
unfolding valid
half_past_nine = refl

parse_time_of_day-time_text_example : parse_time_of_day (time_text 570) ≡ ok 570
parse_time_of_day-time_text_example = parse_time_of_day-time_text 570 half_past_nine

read_time : parse_time_of_day " 09:30:15" ≡ ok 570
unfolding parse_time_of_day
read_time = refl

parse_time_of_day-valid_example : valid 570 ≡ true
parse_time_of_day-valid_example = parse_time_of_day-valid " 09:30:15" 570 read_time
