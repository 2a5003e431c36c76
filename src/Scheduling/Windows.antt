-- ===== src/Scheduling/Windows.antt =====
-- Which spans each resource is open for on a date (`ResolveWindows`, internal/scheduling/slots.go).
pub mod Precedence
use nearby_backend.Prelude.{
  ℕ, ◌≡◌, Bool, true, false, ◌||◌, not, Option, none, some, List, [], ◌∷◌, ◌++◌, map, ◌==◌,
  if◌then◌else◌, is_some, is_empty, select,
}
use nearby_backend.Scheduling.Models.{Uuid, DayWindow, HoursRule, ExceptionRule}

-- The scope of a rule: `*rule.ResourceID == id`, and `rule.ResourceID == nil`.
abbrev pub is_for : Uuid → Option Uuid → Bool
is_for id none = false
is_for id (some r) = r == id

abbrev pub is_provider_wide : Option Uuid → Bool
is_provider_wide none = true
is_provider_wide (some r) = false

-- What the loop over the exceptions leaves in `resourceExceptions[id]` or in `providerException`:
-- each match overwrites the one before.
unfoldable pub keep_last :
    (Option Uuid → Bool) → Option ExceptionRule → List ExceptionRule → Option ExceptionRule
keep_last scope kept [] = kept
keep_last scope kept (e ∷ es) = keep_last scope (if scope e.resource_id then some e else kept) es

-- `resourceExceptions[id]`, and `providerException` where there is none.
abbrev pub or_else {ℓ} : {A : Type ℓ} → Option A → Option A → Option A
or_else none y = y
or_else (some x) y = some x

unfoldable pub exception_for : Uuid → List ExceptionRule → Option ExceptionRule
unfolding keep_last
exception_for id exceptions =
    or_else (keep_last (is_for id) none exceptions) (keep_last is_provider_wide none exceptions)

-- The tests of the loop over the hours: the weekday, then the scope.
unfoldable pub is_for_day : (Option Uuid → Bool) → ℕ → HoursRule → Bool
is_for_day scope weekday rule = if rule.weekday == weekday then scope rule.resource_id else false

-- `resourceHours[id]` and `providerHours`: the rules of the weekday, in their order.
unfoldable pub hours_in : (Option Uuid → Bool) → ℕ → List HoursRule → List HoursRule
unfolding select
hours_in scope weekday hours = select (is_for_day scope weekday) hours

unfoldable pub rules_for : Uuid → ℕ → List HoursRule → List HoursRule
unfolding hours_in
rules_for id weekday hours =
    if is_empty (hours_in (is_for id) weekday hours)
    then hours_in is_provider_wide weekday hours
    else hours_in (is_for id) weekday hours

-- An exception opens the resource for its span, if it has one.
abbrev pub open_span : Uuid → Bool → Option ℕ → Option ℕ → List DayWindow
open_span id false (some opens) (some closes) =
    record { resource_id = id; opens = opens; closes = closes } ∷ []
open_span id _ _ _ = []

abbrev pub window_of_rule : Uuid → HoursRule → DayWindow
window_of_rule id rule = record { resource_id = id; opens = rule.opens; closes = rule.closes }

-- The body of the loop over the resources.
abbrev pub day_of_resource : Uuid → Option ExceptionRule → List HoursRule → List DayWindow
day_of_resource id (some e) rules = open_span id e.is_closed e.opens e.closes
day_of_resource id none rules = map (window_of_rule id) rules

unfoldable pub resolve_windows :
    List Uuid → List HoursRule → List ExceptionRule → ℕ → List DayWindow
unfolding exception_for rules_for
resolve_windows [] hours exceptions weekday = []
resolve_windows (id ∷ ids) hours exceptions weekday =
    day_of_resource id (exception_for id exceptions) (rules_for id weekday hours)
    ++ resolve_windows ids hours exceptions weekday
