-- ===== src/Scheduling/Availability/Busy.antt =====
-- How the busy intervals and the windows of a day relate to the bookings and the resources.
use nearby_backend.Prelude.{
  ℕ, ◌≤◌, ◌<◌, ◌≡◌, refl, sym, subst, ◌⊎◌, inl, inr, Bool, true, false, Option, none, some, List,
  [], ◌∷◌, map, select, contains, arith, All, Any, All-mono, All-append, All-self, All-Any,
}
use nearby_backend.Prelude.Sort.{sort_by, Any-sort_by}
use nearby_backend.Booking.State.{is_active}
use nearby_backend.Scheduling.Models.{Uuid, Instant, HoursRule, ExceptionRule}
use nearby_backend.Scheduling.Windows.{
  exception_for, rules_for, open_span, window_of_rule, day_of_resource, resolve_windows,
}
use nearby_backend.Scheduling.Slots.Sound.{Apart}
use nearby_backend.Scheduling.Cache.Freshness.{Any-select}
use nearby_backend.Scheduling.Availability.Queries.{
  Occupation, DayStore, is_busy, interval, is_sooner, busy_intervals,
}

-- While the service runs from `start`, an active booking of the resource that reaches into the day
-- has ended or has not begun.
abbrev pub IsClearOf : Instant → Instant → Instant → Instant → Uuid → Occupation → Type 0
IsClearOf from to start end id o =
    o.resource_id ≡ id
    → is_active o.status ≡ true
    → o.starts_at < to
    → from < o.ends_at
    → (end ≤ o.starts_at) ⊎ (o.ends_at ≤ start)

Any-map :
    (o : Occupation) (os : List Occupation)
    → Any (λ x. x ≡ o) os
    → Any (λ b. b ≡ interval o) (map interval os)
Any-map o [] h = elim h [ ]
Any-map o (x ∷ xs) (inl h) = inl (cc)
Any-map o (x ∷ xs) (inr h) = inr (Any-map o xs h)

is_busy-set :
    (ids : List Uuid) (from to : Instant) (o : Occupation)
    → contains ids o.resource_id ≡ true
    → is_active o.status ≡ true
    → o.starts_at < to
    → from < o.ends_at
    → is_busy ids from to o ≡ true
is_busy-set ids from to o c a s e = ground arith

-- A booking that is in the way is among the busy intervals.
busy_intervals-lists :
    (ids : List Uuid) (from to : Instant) (s : DayStore) (o : Occupation)
    → is_busy ids from to o ≡ true
    → Any (λ x. x ≡ o) s.occupied
    → Any (λ b. b ≡ interval o) (busy_intervals ids from to s)
unfolding busy_intervals
busy_intervals-lists ids from to s o h m =
    Any-map o (sort_by is_sooner (select (is_busy ids from to) s.occupied)) (
      Any-sort_by is_sooner (λ x. x ≡ o) (select (is_busy ids from to) s.occupied)
        (Any-select (is_busy ids from to) s.occupied
          (λ x e. subst (λ y. is_busy ids from to y ≡ true) (sym e) h) m))

-- What is apart from the busy intervals is clear of the bookings.
pub IsClearOf-busy_intervals :
    (ids : List Uuid) (from to start end : Instant) (id : Uuid) (s : DayStore)
    → contains ids id ≡ true
    → All (λ b. b.resource_id ≡ id → Apart start end b) (busy_intervals ids from to s)
    → All (IsClearOf from to start end id) s.occupied
IsClearOf-busy_intervals ids from to start end id s c h =
    All-mono s.occupied
      (λ o m same a begins ends.
        let (b, apart, e) = All-Any (busy_intervals ids from to s) h (
          busy_intervals-lists ids from to s o
            (is_busy-set ids from to o (subst (λ r. contains ids r ≡ true) (sym same) c) a begins
              ends)
            m) in
        subst (λ v. v.resource_id ≡ id → Apart start end v) e apart same)
      (All-self s.occupied)

windows_of_rules :
    (id : Uuid) (rules : List HoursRule)
    → All (λ w. w.resource_id ≡ id) (map (window_of_rule id) rules)
windows_of_rules id [] = tt
windows_of_rules id (r ∷ rs) = (refl, windows_of_rules id rs)

open_span-own :
    (id : Uuid) (closed : Bool) (opens closes : Option ℕ)
    → All (λ w. w.resource_id ≡ id) (open_span id closed opens closes)
open_span-own id false (some opens) (some closes) = (refl, tt)
open_span-own id true opens closes = tt
open_span-own id false none closes = tt
open_span-own id false (some opens) none = tt

day_of_resource-own :
    (id : Uuid) (e : Option ExceptionRule) (rules : List HoursRule)
    → All (λ w. w.resource_id ≡ id) (day_of_resource id e rules)
day_of_resource-own id (some e) rules = open_span-own id e.is_closed e.opens e.closes
day_of_resource-own id none rules = windows_of_rules id rules

-- Every window belongs to a resource that was asked for.
pub resolve_windows-own :
    (ids : List Uuid) (hours : List HoursRule) (exceptions : List ExceptionRule) (weekday : ℕ)
    → All (λ w. contains ids w.resource_id ≡ true) (resolve_windows ids hours exceptions weekday)
unfolding resolve_windows contains
resolve_windows-own [] hours exceptions weekday = tt
resolve_windows-own (id ∷ ids) hours exceptions weekday =
    let own = day_of_resource id (exception_for id exceptions) (rules_for id weekday hours) in
    All-append (λ w. contains (id ∷ ids) w.resource_id ≡ true) own
      (resolve_windows ids hours exceptions weekday)
      (All-mono own (λ w e. ground arith)
        (day_of_resource-own id (exception_for id exceptions) (rules_for id weekday hours)))
      (All-mono (resolve_windows ids hours exceptions weekday) (λ w e. ground arith)
        (resolve_windows-own ids hours exceptions weekday))
