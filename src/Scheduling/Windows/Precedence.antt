-- ===== src/Scheduling/Windows/Precedence.antt =====
-- The precedence of `ResolveWindows`: an exception of the resource, else one of the provider, else
-- hours of the resource, else hours of the provider.
use nearby_backend.Prelude.{
  ℕ, ap, ◌∙◌, ◌≡◌, refl, sym, subst, ◌⊎◌, inl, inr, Bool, true, false, Option, none, some, List, [],
  ◌∷◌, map, arith, Bool-cases, Option-cases, All, Any, All-mono, Any-mono, All-append, is_empty,
}
use nearby_backend.Scheduling.Models.{Uuid, DayWindow, HoursRule, ExceptionRule}
use nearby_backend.Scheduling.Windows.{
  is_for, is_provider_wide, keep_last, exception_for, is_for_day, hours_in, rules_for, open_span,
  window_of_rule, day_of_resource, resolve_windows,
}

-- No exception of the scope is on the list.
abbrev pub NoException : (Option Uuid → Bool) → List ExceptionRule → Type 0
NoException scope = All (λ e. scope e.resource_id ≡ false)

-- No rule of the scope is for the weekday.
abbrev pub NoHours : (Option Uuid → Bool) → ℕ → List HoursRule → Type 0
NoHours scope weekday = All (λ r. r.weekday ≡ weekday → scope r.resource_id ≡ false)

-- The window is the span of an open exception of the scope.
abbrev pub FromException : (Option Uuid → Bool) → DayWindow → List ExceptionRule → Type 0
FromException scope w = Any (λ e.
    (scope e.resource_id ≡ true)
    × (e.is_closed ≡ false)
    × (e.opens ≡ some w.opens)
    × (e.closes ≡ some w.closes))

-- The window is the span of a rule of the scope for the weekday.
abbrev pub FromHours : (Option Uuid → Bool) → ℕ → DayWindow → List HoursRule → Type 0
FromHours scope weekday w = Any (λ r.
    (scope r.resource_id ≡ true)
    × (r.weekday ≡ weekday)
    × (r.opens ≡ w.opens)
    × (r.closes ≡ w.closes))

-- The four ranks, narrowest first.
pub data IsDue (hours : List HoursRule) (exceptions : List ExceptionRule) (weekday : ℕ)
    (w : DayWindow) : Type 0 where
  resource_exception :
      FromException (is_for w.resource_id) w exceptions → IsDue hours exceptions weekday w
  provider_exception :
      NoException (is_for w.resource_id) exceptions
      → FromException is_provider_wide w exceptions
      → IsDue hours exceptions weekday w
  resource_hours :
      NoException (is_for w.resource_id) exceptions
      → NoException is_provider_wide exceptions
      → FromHours (is_for w.resource_id) weekday w hours
      → IsDue hours exceptions weekday w
  provider_hours :
      NoException (is_for w.resource_id) exceptions
      → NoException is_provider_wide exceptions
      → NoHours (is_for w.resource_id) weekday hours
      → FromHours is_provider_wide weekday w hours
      → IsDue hours exceptions weekday w

-- What `keep_last` keeps was kept before or is on the list.
keep_last-some :
    (scope : Option Uuid → Bool) (kept : Option ExceptionRule) (es : List ExceptionRule)
    (e : ExceptionRule)
    → keep_last scope kept es ≡ some e
    → (kept ≡ some e) ⊎ Any (λ f. (f ≡ e) × (scope f.resource_id ≡ true)) es
unfolding keep_last
keep_last-some scope kept [] e h = inl h
keep_last-some scope kept (f ∷ es) e h = elim (Bool-cases (scope f.resource_id)) [
  | inl mine ↦ elim (keep_last-some scope (some f) es e (rw mine at h)) [
    | inl same ↦ inr (inl (ground arith, mine))
    | inr later ↦ inr (inr later)
  ]
  | inr foreign ↦ elim (keep_last-some scope kept es e (rw foreign at h)) [
    | inl same ↦ inl same
    | inr later ↦ inr (inr later)
  ]
]

keep_last-none :
    (scope : Option Uuid → Bool) (kept : Option ExceptionRule) (es : List ExceptionRule)
    → keep_last scope kept es ≡ none
    → (kept ≡ none) × NoException scope es
unfolding keep_last
keep_last-none scope kept [] h = (h, tt)
keep_last-none scope kept (f ∷ es) h = elim (Bool-cases (scope f.resource_id)) [
  | inl mine ↦
      let (none_kept, rest) = keep_last-none scope (some f) es (rw mine at h) in absurd (cc)
  | inr foreign ↦
      let (none_kept, rest) = keep_last-none scope kept es (rw foreign at h) in
      (none_kept, (foreign, rest))
]

picked :
    (scope : Option Uuid → Bool) (weekday : ℕ) (r : HoursRule)
    → is_for_day scope weekday r ≡ true
    → (scope r.resource_id ≡ true) × (r.weekday ≡ weekday)
unfolding is_for_day
picked scope weekday r h = ground arith

passed_over :
    (scope : Option Uuid → Bool) (weekday : ℕ) (r : HoursRule)
    → is_for_day scope weekday r ≡ false
    → r.weekday ≡ weekday
    → scope r.resource_id ≡ false
unfolding is_for_day
passed_over scope weekday r h e = ground arith

-- The windows of a resource that come from rules.
abbrev RuleWindow : (Option Uuid → Bool) → ℕ → Uuid → List HoursRule → DayWindow → Type 0
RuleWindow scope weekday id hours w = (w.resource_id ≡ id) × FromHours scope weekday w hours

hours_in-FromHours :
    (scope : Option Uuid → Bool) (weekday : ℕ) (id : Uuid) (hours : List HoursRule)
    → All
        (RuleWindow scope weekday id hours)
        (map (window_of_rule id) (hours_in scope weekday hours))
unfolding hours_in
hours_in-FromHours scope weekday id [] = tt
hours_in-FromHours scope weekday id (r ∷ rs) =
    let rest =
      All-mono (map (window_of_rule id) (hours_in scope weekday rs))
        (λ (w : DayWindow) (h : RuleWindow scope weekday id rs w).
          let both : RuleWindow scope weekday id (r ∷ rs) w = (h.0, inr h.1) in both)
        (hours_in-FromHours scope weekday id rs) in
    elim (Bool-cases (is_for_day scope weekday r)) [
      | inl mine ↦
          let p = picked scope weekday r mine in rw mine ((refl, inl (p.0, p.1, refl, refl)), rest)
      | inr foreign ↦ rw foreign rest
    ]

hours_in-none :
    (scope : Option Uuid → Bool) (weekday : ℕ) (hours : List HoursRule)
    → is_empty (hours_in scope weekday hours) ≡ true
    → NoHours scope weekday hours
unfolding hours_in
hours_in-none scope weekday [] h = tt
hours_in-none scope weekday (r ∷ rs) h = elim (Bool-cases (is_for_day scope weekday r)) [
  | inl mine ↦ absurd (ground arith)
  | inr foreign ↦
      (passed_over scope weekday r foreign, hours_in-none scope weekday rs (rw foreign at h))
]

-- The window of an exception.
open_span-FromException :
    (scope : Option Uuid → Bool) (id : Uuid) (e : ExceptionRule) (exceptions : List ExceptionRule)
    (closed : Bool) (opens closes : Option ℕ)
    → Any (λ f. (f ≡ e) × (scope f.resource_id ≡ true)) exceptions
    → e.is_closed ≡ closed
    → e.opens ≡ opens
    → e.closes ≡ closes
    → All
        (λ w. (w.resource_id ≡ id) × FromException scope w exceptions)
        (open_span id closed opens closes)
open_span-FromException scope id e exceptions false (some o) (some c) m p q r = (
  (
    refl,
    Any-mono exceptions
        (λ f h. (h.1, ground (arith, h.0), ground (arith, h.0), ground (arith, h.0))) m,
  ),
  tt,
)
open_span-FromException scope id e exceptions false none _ m p q r = tt
open_span-FromException scope id e exceptions false (some o) none m p q r = tt
open_span-FromException scope id e exceptions true _ _ m p q r = tt

module _ (hours : List HoursRule) (exceptions : List ExceptionRule) (weekday : ℕ) where
  -- A window of the resource that is due.
  abbrev DueFor : Uuid → DayWindow → Type 0
  DueFor id w = (w.resource_id ≡ id) × IsDue hours exceptions weekday w

  exception-DueFor :
      (id : Uuid) (e : ExceptionRule)
      → exception_for id exceptions ≡ some e
      → All (DueFor id) (open_span id e.is_closed e.opens e.closes)
  unfolding exception_for
  exception-DueFor id e h = elim (Option-cases (keep_last (is_for id) none exceptions)) [
    | inl no_own ↦
        let (_, absent) = keep_last-none (is_for id) none exceptions no_own in
        let m = keep_last-some is_provider_wide none exceptions e (rw no_own at h) in
        elim m [
          | inl impossible ↦ absurd (cc)
          | inr wide ↦
              All-mono (open_span id e.is_closed e.opens e.closes)
                (λ w p. (
                  p.0,
                  provider_exception
                      (subst (λ i. NoException (is_for i) exceptions) (sym p.0) absent) p.1,
                ))
                (open_span-FromException is_provider_wide id e exceptions e.is_closed e.opens
                  e.closes wide refl refl refl)
        ]
    | inr (f, own) ↦
        let same : f ≡ e = ground (arith, own) in
        elim (keep_last-some (is_for id) none exceptions e (own ∙ ap some same)) [
          | inl impossible ↦ absurd (cc)
          | inr mine ↦
              All-mono (open_span id e.is_closed e.opens e.closes)
                (λ w p. (
                  p.0,
                  resource_exception
                      (subst (λ i. FromException (is_for i) w exceptions) (sym p.0) p.1),
                ))
                (open_span-FromException (is_for id) id e exceptions e.is_closed e.opens e.closes
                  mine refl refl refl)
        ]
  ]

  -- Without an exception for the resource or the provider the rules decide.
  no_exception :
      (id : Uuid)
      → exception_for id exceptions ≡ none
      → NoException (is_for id) exceptions × NoException is_provider_wide exceptions
  unfolding exception_for
  no_exception id h = elim (Option-cases (keep_last (is_for id) none exceptions)) [
    | inl no_own ↦ (
      (keep_last-none (is_for id) none exceptions no_own).1,
      (keep_last-none is_provider_wide none exceptions (rw no_own at h)).1,
    )
    | inr (f, own) ↦ absurd (ground (arith, own))
  ]

  rules-DueFor :
      (id : Uuid)
      → exception_for id exceptions ≡ none
      → All (DueFor id) (map (window_of_rule id) (rules_for id weekday hours))
  unfolding rules_for
  rules-DueFor id h =
      let (own, wide) = no_exception id h in
      elim (Bool-cases (is_empty (hours_in (is_for id) weekday hours))) [
        | inl empty ↦ rw empty (
            All-mono (map (window_of_rule id) (hours_in is_provider_wide weekday hours))
              (λ w p. (
                p.0,
                provider_hours (subst (λ i. NoException (is_for i) exceptions) (sym p.0) own) wide
                    (subst (λ i. NoHours (is_for i) weekday hours) (sym p.0)
                      (hours_in-none (is_for id) weekday hours empty))
                    p.1,
              ))
              (hours_in-FromHours is_provider_wide weekday id hours))
        | inr filled ↦ rw filled (
            All-mono (map (window_of_rule id) (hours_in (is_for id) weekday hours))
              (λ w p. (
                p.0,
                resource_hours (subst (λ i. NoException (is_for i) exceptions) (sym p.0) own) wide
                    (subst (λ i. FromHours (is_for i) weekday w hours) (sym p.0) p.1),
              ))
              (hours_in-FromHours (is_for id) weekday id hours))
      ]

  day_of_resource-DueFor :
      (id : Uuid)
      → All
          (DueFor id)
          (day_of_resource id (exception_for id exceptions) (rules_for id weekday hours))
  day_of_resource-DueFor id = elim (Option-cases (exception_for id exceptions)) [
    | inl absent ↦ rw absent (rules-DueFor id absent)
    | inr (e, found) ↦ rw found (exception-DueFor id e found)
  ]

  -- Every window belongs to one of the resources asked for, and comes from the narrowest of the four
  -- ranks that says anything of the resource on the day: an exception of the resource, an exception
  -- of the provider where the resource has none, hours of the resource where neither has an
  -- exception, hours of the provider where the resource also has no hours on the weekday.
  pub resolve_windows-IsDue :
      (ids : List Uuid)
      → All
          (λ w. Any (λ id. id ≡ w.resource_id) ids × IsDue hours exceptions weekday w)
          (resolve_windows ids hours exceptions weekday)
  unfolding resolve_windows
  resolve_windows-IsDue [] = tt
  resolve_windows-IsDue (id ∷ ids) =
      All-append _ (day_of_resource id (exception_for id exceptions) (rules_for id weekday hours))
        (resolve_windows ids hours exceptions weekday)
        (All-mono (day_of_resource id (exception_for id exceptions) (rules_for id weekday hours))
          (λ w p. (inl (sym p.0), p.1)) (day_of_resource-DueFor id))
        (All-mono (resolve_windows ids hours exceptions weekday) (λ w p. (inr p.0, p.1))
          (resolve_windows-IsDue ids))
