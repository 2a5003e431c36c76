-- ===== src/Booking/State.antt =====
-- The state machine of a booking (internal/booking/state.go). The status strings are constructors,
-- as the CHECK of migrations/00007_bookings.sql allows no others; `status_text` spells them.
pub mod Lifecycle
use nearby_backend.Prelude.{
  ℕ, ◌≡◌, refl, String, Bool, true, false, not, Option, none, some, List, [], ◌∷◌, arith, ◌==◌,
  if◌then◌else◌,
}
use nearby_backend.Platform.Errors.{Error, invalid_transition}

pub data Status : Type 0 where
  pending confirmed in_progress completed cancelled_by_customer cancelled_by_provider : Status
  no_show : Status

pub data Event : Type 0 where
  confirm start complete mark_no_show cancel_by_customer cancel_by_provider : Event

-- Go compares the strings; these numbers tell the constants apart.
abbrev pub status_number : Status → ℕ
status_number pending = 0
status_number confirmed = 1
status_number in_progress = 2
status_number completed = 3
status_number cancelled_by_customer = 4
status_number cancelled_by_provider = 5
status_number no_show = 6

abbrev pub event_number : Event → ℕ
event_number confirm = 0
event_number start = 1
event_number complete = 2
event_number mark_no_show = 3
event_number cancel_by_customer = 4
event_number cancel_by_provider = 5

unfoldable pub status_text : Status → String
status_text pending = "pending"
status_text confirmed = "confirmed"
status_text in_progress = "in_progress"
status_text completed = "completed"
status_text cancelled_by_customer = "cancelled_by_customer"
status_text cancelled_by_provider = "cancelled_by_provider"
status_text no_show = "no_show"

unfoldable pub event_text : Event → String
event_text confirm = "confirm"
event_text start = "start"
event_text complete = "complete"
event_text mark_no_show = "no_show"
event_text cancel_by_customer = "cancel_by_customer"
event_text cancel_by_provider = "cancel_by_provider"

-- A Go map as an association list.
abbrev pub Edges : Type 0
Edges = List (Event × Status)

unfoldable pub transitions : List (Status × Edges)
transitions =
    (
      pending,
      (confirm, confirmed)
          ∷ (cancel_by_customer, cancelled_by_customer)
          ∷ (cancel_by_provider, cancelled_by_provider)
          ∷ [],
    )
    ∷ (
      confirmed,
      (start, in_progress)
          ∷ (mark_no_show, no_show)
          ∷ (cancel_by_customer, cancelled_by_customer)
          ∷ (cancel_by_provider, cancelled_by_provider)
          ∷ [],
    )
    ∷ (in_progress, (complete, completed) ∷ (cancel_by_provider, cancelled_by_provider) ∷ [])
    ∷ []

edges_of : Status → List (Status × Edges) → Option Edges
edges_of s [] = none
edges_of s ((t, edges) ∷ rest) =
    let later = edges_of s rest in if status_number s == status_number t then some edges else later

target_of : Event → Edges → Option Status
target_of e [] = none
target_of e ((f, to) ∷ rest) =
    let later = target_of e rest in if event_number e == event_number f then some to else later

pub data NextResult : Type 0 where
  moved : Status → NextResult
  refused : Error → NextResult

-- `Next`: the two lookups, and the refusal that either of them ends in.
follow : Status → Event → Option Edges → NextResult
unfolding target_of
follow from event none = refused (invalid_transition (status_text from) (event_text event))
follow from event (some edges) = elim (target_of event edges) [
  | none ↦ refused (invalid_transition (status_text from) (event_text event))
  | some to ↦ moved to
]

unfoldable pub next : Status → Event → NextResult
unfolding follow edges_of transitions
next from event = follow from event (edges_of from transitions)

unfoldable pub is_terminal : Status → Bool
unfolding edges_of transitions
is_terminal status = elim (edges_of status transitions) [ none ↦ true | some edges ↦ false ]

unfoldable pub active_statuses : List Status
active_statuses = pending ∷ confirmed ∷ in_progress ∷ []

listed : Status → List Status → Bool
listed s [] = false
listed s (t ∷ rest) =
    let later = listed s rest in if status_number s == status_number t then true else later

unfoldable pub is_active : Status → Bool
unfolding listed active_statuses
is_active status = listed status active_statuses

pub data Actor : Type 0 where
  customer provider : Actor

unfoldable pub cancel_event_for : Actor → Event
cancel_event_for provider = cancel_by_provider
cancel_event_for customer = cancel_by_customer
