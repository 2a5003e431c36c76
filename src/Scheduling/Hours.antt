-- ===== src/Scheduling/Hours.antt =====
-- The checks on weekly opening spans (internal/scheduling/service.go, and `Valid` of timeofday.go).
pub mod Apart
use nearby_backend.Prelude.{
  ℕ, Bool, true, false, ◌&&◌, ◌||◌, not, Option, none, some, List, [], ◌∷◌, ◌++◌, ltb, leb, ◌==◌,
  if◌then◌else◌, exists,
}
use nearby_backend.Prelude.Int.{ℤ, pos, pos_part, neg_part, ltb_ℤ}
use nearby_backend.Prelude.Sort.{sort_by, by_key}
use nearby_backend.Platform.Errors.{validation}
use nearby_backend.Platform.Database.{Outcome, ok}
use nearby_backend.Platform.Result.{◌>>=◌, ◌>>◌, refuse_if}
use nearby_backend.Scheduling.Models.{Uuid, TimeOfDay}

pub record HoursInput : Type 0 where
  pub resource_id : Option Uuid
  pub weekday : ℤ
  pub opens : TimeOfDay
  pub closes : TimeOfDay

abbrev pub minutes_per_day : ℕ
minutes_per_day = 1440

-- `Valid`.
unfoldable pub valid : TimeOfDay → Bool
valid t = leb t minutes_per_day

-- The three refusals that `CreateHours` and `ReplaceHours` share.
unfoldable pub check_span : HoursInput → Outcome (Unit {0})
unfolding valid
check_span span = do
  refuse_if (ltb_ℤ span.weekday (pos 0) || ltb_ℤ (pos 6) span.weekday)
      (validation "weekday must be between 0 (Sunday) and 6")
  refuse_if (not (valid span.opens) || not (valid span.closes))
      (validation "opensAt and closesAt must be times of day")
  refuse_if (leb span.closes span.opens) (validation "closesAt must be after opensAt")
  ok tt

unfoldable pub check_spans : List HoursInput → Outcome (Unit {0})
unfolding check_span
check_spans [] = ok tt
check_spans (span ∷ rest) = check_span span >> check_spans rest

-- `byDay`, in the order of the first writes.
abbrev pub Days : Type 0
Days = List (ℤ × List HoursInput)

abbrev pub same_day : ℤ → ℤ → Bool
same_day a b = pos_part a == pos_part b && neg_part a == neg_part b

-- `byDay[span.Weekday] = append(byDay[span.Weekday], span)`.
unfoldable pub add_span : HoursInput → Days → Days
add_span span [] = (span.weekday, span ∷ []) ∷ []
add_span span ((day, spans) ∷ rest) =
    let later = add_span span rest in
    if same_day day span.weekday then (day, spans ++ span ∷ []) ∷ rest else (day, spans) ∷ later

unfoldable pub by_day : List HoursInput → Days → Days
unfolding add_span
by_day [] days = days
by_day (span ∷ rest) days = by_day rest (add_span span days)

-- A span of the sorted day opens before the one before it closes.
unfoldable pub clashes : List HoursInput → Bool
clashes [] = false
clashes (a ∷ []) = false
clashes (a ∷ b ∷ rest) =
    let later = clashes (b ∷ rest) in if ltb b.opens a.closes then true else later

unfoldable pub day_clashes : ℤ × List HoursInput → Bool
unfolding clashes sort_by
day_clashes day = clashes (sort_by (by_key (λ span. span.opens)) day.1)

unfoldable pub assert_no_overlap : List HoursInput → Outcome (Unit {0})
unfolding by_day day_clashes exists
assert_no_overlap spans = do
  refuse_if (exists day_clashes (by_day spans []))
      (validation "two opening times on the same day overlap")
  ok tt
