-- ===== src/Booking/State/Lifecycle.antt =====
-- What the state machine of internal/booking/state.go allows, over single events and over lives.
use nearby_backend.Prelude.{
  ℕ, ◌+◌, ◌≤◌, ◌<◌, ◌≡◌, refl, ap, subst, sym, ◌↔◌, ◌⊎◌, inl, inr, true, not, Option, none, some,
  List, [], ◌∷◌, arith, length,
}
use nearby_backend.Platform.Errors.{Error, invalid_transition}
use nearby_backend.Booking.State.{
  Status, pending, confirmed, in_progress, completed, cancelled_by_customer, cancelled_by_provider,
  no_show, Event, confirm, start, complete, mark_no_show, cancel_by_customer, cancel_by_provider,
  status_text, event_text, NextResult, moved, refused, next, is_terminal, is_active,
}

-- The diagram of spec §5.5, arrow by arrow.
infix 40 ◌─◌⟶◌
pub data ◌─◌⟶◌ : Status → Event → Status → Type 0 where
  agree : pending ─ confirm ⟶ confirmed
  withdraw_pending : pending ─ cancel_by_customer ⟶ cancelled_by_customer
  decline_pending : pending ─ cancel_by_provider ⟶ cancelled_by_provider
  begin : confirmed ─ start ⟶ in_progress
  stay_away : confirmed ─ mark_no_show ⟶ no_show
  withdraw_confirmed : confirmed ─ cancel_by_customer ⟶ cancelled_by_customer
  decline_confirmed : confirmed ─ cancel_by_provider ⟶ cancelled_by_provider
  finish : in_progress ─ complete ⟶ completed
  abort : in_progress ─ cancel_by_provider ⟶ cancelled_by_provider

ruleset arrows = (
  agree, withdraw_pending, decline_pending, begin, stay_away, withdraw_confirmed, decline_confirmed,
  finish, abort,
)

arrow_of_next : (s : Status) (e : Event) (t : Status) → next s e ≡ moved t → s ─ e ⟶ t
unfolding next
arrow_of_next s e t h = grind (arith, arrows)

next_of_arrow : {s : Status} {e : Event} {t : Status} → s ─ e ⟶ t → next s e ≡ moved t
unfolding next
next_of_arrow agree = refl
next_of_arrow _ = refl

-- `Next` moves a booking exactly along the arrows of the diagram.
pub next-arrow_iff : (s : Status) (e : Event) (t : Status) → (next s e ≡ moved t) ↔ (s ─ e ⟶ t)
next-arrow_iff s e t = (arrow_of_next s e t, next_of_arrow)

-- A refusal names the status and the event.
pub next-refused :
    (s : Status) (e : Event) (x : Error)
    → next s e ≡ refused x
    → x ≡ invalid_transition (status_text s) (event_text e)
unfolding next
next-refused s e x h = ground arith

-- A status is terminal exactly when every event is refused.
pub is_terminal_iff :
    (s : Status)
    → (is_terminal s ≡ true)
      ↔ ((e : Event) → next s e ≡ refused (invalid_transition (status_text s) (event_text e)))
unfolding next is_terminal
is_terminal_iff pending = (λ h. cc, λ h. cc (h confirm))
is_terminal_iff confirmed = (λ h. cc, λ h. cc (h start))
is_terminal_iff in_progress = (λ h. cc, λ h. cc (h complete))
is_terminal_iff completed = (λ h e. refl, λ h. refl)
is_terminal_iff cancelled_by_customer = (λ h e. refl, λ h. refl)
is_terminal_iff cancelled_by_provider = (λ h e. refl, λ h. refl)
is_terminal_iff no_show = (λ h e. refl, λ h. refl)

-- The statuses that occupy a resource are those that an event can still change.
pub is_active-not-is_terminal : (s : Status) → is_active s ≡ not (is_terminal s)
unfolding is_active is_terminal
is_active-not-is_terminal s = ground arith

-- No event brings a booking back that has let its resource go.
pub next-never_reactivates :
    (s : Status) (e : Event) {t : Status} → next s e ≡ moved t → is_active s ≡ true
unfolding next is_active
next-never_reactivates s e h = ground arith

-- The lives of a booking: the events in order, none of them refused.
unfoldable pub run : Status → List Event → Option Status
run s [] = some s
run s (e ∷ es) = elim (next s e) [ moved t ↦ run t es | refused x ↦ none ]

abbrev rank : Status → ℕ
rank pending = 3
rank confirmed = 2
rank in_progress = 1
rank _ = 0

next-rank : (s : Status) (e : Event) {t : Status} → next s e ≡ moved t → rank t < rank s
unfolding next
next-rank s e h = ground arith

NextResult-cases :
    (r : NextResult) → ((t : Status) × (r ≡ moved t)) ⊎ ((x : Error) × (r ≡ refused x))
NextResult-cases (moved t) = inl (t, refl)
NextResult-cases (refused x) = inr (x, refl)

-- The first event of a life is allowed, and the rest is a life of the status that it leads to.
pub run-cons :
    (s : Status) (e : Event) (es : List Event) (u : Status)
    → run s (e ∷ es) ≡ some u
    → (t : Status) × (next s e ≡ moved t) × (run t es ≡ some u)
unfolding run
run-cons s e es u h = elim (NextResult-cases (next s e)) [
  | inl (t, p) ↦ (t, p, ground arith)
  | inr (x, p) ↦ absurd (ground arith)
]

run-rank :
    (s : Status) (es : List Event) (u : Status) → run s es ≡ some u → length es + rank u ≤ rank s
unfolding run
run-rank s [] u h = ground arith
run-rank s (e ∷ es) u h =
    let (t, p, q) = run-cons s e es u h in omega (arith, run-rank t es u q, next-rank s e p)

-- Every life ends: a booking takes at most three events after it was made.
pub run-pending_bounded : (es : List Event) (u : Status) → run pending es ≡ some u → length es ≤ 3
run-pending_bounded es u h = omega (arith, run-rank pending es u h)

-- A terminal status has the empty life only.
run_ended :
    (s : Status) (es : List Event) (u : Status)
    → rank s ≡ 0
    → run s es ≡ some u
    → (es ≡ []) × (u ≡ s)
unfolding run
run_ended s [] u z h = (refl, ground arith)
run_ended s (e ∷ es) u z h = absurd (omega (arith, run-rank s (e ∷ es) u h))

run_from_in_progress : (es : List Event) → run in_progress es ≡ some completed → es ≡ complete ∷ []
unfolding run next
run_from_in_progress [] h = absurd (cc)
run_from_in_progress (complete ∷ es) h =
    ap (◌∷◌ complete) (run_ended completed es completed refl h).0
run_from_in_progress (e ∷ es) h = ground (arith, run_ended cancelled_by_provider es completed refl)

run_from_confirmed :
    (es : List Event) → run confirmed es ≡ some completed → es ≡ start ∷ complete ∷ []
unfolding run next
run_from_confirmed [] h = absurd (cc)
run_from_confirmed (start ∷ es) h = ap (◌∷◌ start) (run_from_in_progress es h)
run_from_confirmed (e ∷ es) h = ground (
  arith,
  run_ended no_show es completed refl,
  run_ended cancelled_by_customer es completed refl,
  run_ended cancelled_by_provider es completed refl,
)

pending_completed :
    (es : List Event) → (run pending es ≡ some completed) ↔ (es ≡ confirm ∷ start ∷ complete ∷ [])
unfolding run next
pending_completed [] = (λ h. absurd (cc), λ h. absurd (cc))
pending_completed (confirm ∷ es) = (
  λ h. ap (◌∷◌ confirm) (run_from_confirmed es h),
  λ h. subst (λ l. run pending l ≡ some completed) (sym h) refl,
)
pending_completed (e ∷ es) = (
  λ h. ground (
    arith,
    run_ended cancelled_by_customer es completed refl,
    run_ended cancelled_by_provider es completed refl,
  ),
  λ h. absurd (cc),
)

-- A pending booking is completed by one life only, to be confirmed, started and completed; a booking
-- that is confirmed from the beginning, as `Create` makes it in instant mode, by one life only too, to
-- be started and completed.
pub run-completed_iff :
    (es : List Event)
    → ((run pending es ≡ some completed) ↔ (es ≡ confirm ∷ start ∷ complete ∷ []))
      × ((run confirmed es ≡ some completed) ↔ (es ≡ start ∷ complete ∷ []))
unfolding run next
run-completed_iff es = (
  pending_completed es,
  (run_from_confirmed es, λ h. subst (λ l. run confirmed l ≡ some completed) (sym h) refl),
)
