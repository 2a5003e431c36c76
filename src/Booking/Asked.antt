-- ===== src/Booking/Asked.antt =====
-- What `Create` (internal/booking/service.go) is asked for, and what the single steps of it give.
use text.Mathlib.Text.{◌==◌ as text_eq}
use nearby_backend.Prelude.{
  ℕ, ◌+◌, ◌-◌, ◌*◌, ◌/◌, ◌≤◌, ◌<◌, ◌≡◌, refl, ap, sym, subst, String, true, false, Option, none,
  some, List, [], ◌∷◌, map, ◌==◌, ==_iff, is_empty, contains, Any, ◌⊎◌, inl, inr, Bool-cases, arith,
}
use nearby_backend.Prelude.Int.{ℤ, pos_part, neg_part, ◌+ℤ◌, wrap32}
use nearby_backend.Platform.Database.{ok}
use nearby_backend.Catalog.Models.{SelectedOption, ServiceWithProvider, Quote}
use nearby_backend.Scheduling.Models.{Location, minute, Slot}
use nearby_backend.Booking.State.{pending, confirmed}
use nearby_backend.Booking.Models.{Uuid, BookingCode, BookingRow, BookedOption, Booking}
use nearby_backend.Booking.Insert.{booked_option, booking_params}
use nearby_backend.Booking.Create.{
  Ports, CreateInput, resources_at, narrow, add_minutes, starting_status, insert_params,
  truncate_second,
}

abbrev second : ℕ
second = 1_000_000_000

-- The snapshot has the options of the quote, in their order.
abbrev pub IsSnapshot : List SelectedOption → List BookedOption → Type 0
IsSnapshot [] [] = Unit {0}
IsSnapshot [] (b ∷ bs) = ⊥
IsSnapshot (o ∷ os) [] = ⊥
IsSnapshot (o ∷ os) (b ∷ bs) =
    (b.option_id ≡ some o.option_id)
    × (b.name ≡ o.name)
    × (b.price_delta_cents ≡ o.price_delta_cents)
    × (b.duration_delta_minutes ≡ o.duration_delta_minutes)
    × IsSnapshot os bs

-- The minutes that the booking occupies its resource, in `int32`.
abbrev pub occupied_minutes : ServiceWithProvider → Quote → ℤ
occupied_minutes service quote = wrap32 (quote.duration_minutes +ℤ service.buffer_minutes)

-- The row carries what the request, the service and the quote say. It starts at the whole second of
-- the request, and ends when the quoted duration and the buffer have passed.
pub record IsCharged (customer_id : Option Uuid) (input : CreateInput)
    (service : ServiceWithProvider) (attributes : String) (quote : Quote) (row : BookingRow)
    : Type 0 where
  pub provider : row.provider_id ≡ service.provider_id
  pub same_service : row.service_id ≡ some service.id
  pub customer : row.customer_id ≡ customer_id
  pub whole_second : (k : ℕ) × (row.starts_at ≡ k * second)
  pub begins : row.starts_at ≤ input.starts_at
  pub in_second : input.starts_at < row.starts_at + second
  pub ends :
      row.ends_at
      ≡ row.starts_at
        + pos_part (occupied_minutes service quote) * minute
        - neg_part (occupied_minutes service quote) * minute
  pub mode :
      ((text_eq service.booking_mode "instant" ≡ true) × (row.status ≡ confirmed))
      ⊎ ((text_eq service.booking_mode "instant" ≡ false) × (row.status ≡ pending))
  pub name : row.service_name ≡ service.name
  pub price : row.price_cents ≡ quote.price_cents
  pub currency : row.currency ≡ quote.currency
  pub duration : row.duration_minutes ≡ quote.duration_minutes
  pub checked : row.attributes ≡ attributes

-- The booking answers the request: the service and its provider are active, the price and the length
-- are those of its quote for the chosen options, the booking starts at a slot of the list that was
-- made for it in the provider's zone, and stands on a resource that the slot has free, the one that
-- was asked for if one was.
pub record IsAnswer (ports : Ports) (customer_id : Option Uuid) (input : CreateInput) (b : Booking)
    : Type 0 where
  pub service : ServiceWithProvider
  pub location : Location
  pub attributes : String
  pub quote : Quote
  pub slots : List Slot
  pub slot : Slot
  pub found : ports.get_service_with_provider input.service_id ≡ ok service
  pub active : service.is_active ≡ true
  pub open_provider : text_eq service.provider_status "active" ≡ true
  pub located : ports.load_location service.timezone ≡ ok location
  pub checked :
      ports.validate_booking_attributes service.category_id input.attributes ≡ ok attributes
  pub quoted : ports.quote_for service.service input.option_ids ≡ ok quote
  pub fresh :
      ports.slots_for_booking input.service_id b.row.starts_at location input.option_ids ≡ ok slots
  pub listed : Any (λ s. s ≡ slot) slots
  pub at_start : slot.starts_at ≡ b.row.starts_at
  pub free : Any (λ i. i ≡ b.row.resource_id) slot.resource_ids
  pub requested : (input.resource_id ≡ none) ⊎ (input.resource_id ≡ some b.row.resource_id)
  pub charged : IsCharged customer_id input service attributes quote b.row
  pub options : IsSnapshot quote.options b.options

-- --- the parts ---

pub booked-IsSnapshot : (os : List SelectedOption) → IsSnapshot os (map booked_option os)
booked-IsSnapshot [] = tt
booked-IsSnapshot (o ∷ os) = (refl, refl, refl, refl, booked-IsSnapshot os)

mode_of :
    (mode : String)
    → ((text_eq mode "instant" ≡ true) × (starting_status mode ≡ confirmed))
      ⊎ ((text_eq mode "instant" ≡ false) × (starting_status mode ≡ pending))
unfolding starting_status
mode_of mode = elim (Bool-cases (text_eq mode "instant")) [
  | inl e ↦ inl (e, rw e refl)
  | inr e ↦ inr (e, rw e refl)
]

truncated :
    (t : ℕ)
    → ((k : ℕ) × (truncate_second t ≡ k * second))
      × (truncate_second t ≤ t)
      × (t < truncate_second t + second)
unfolding truncate_second
truncated t = ((t / second, omega arith), omega arith, omega arith)

pub IsCharged-row :
    (customer_id : Option Uuid) (input : CreateInput) (service : ServiceWithProvider)
    (attributes : String) (quote : Quote) (candidates : List Uuid) (id rid : Uuid)
    (code : BookingCode)
    → IsCharged customer_id input service attributes quote
        (record (booking_params
          (insert_params customer_id input service attributes quote candidates)
          code
          rid) { id = id })
unfolding booking_params add_minutes
IsCharged-row customer_id input service attributes quote candidates id rid code =
    let (whole, before, after) = truncated input.starts_at in
    record {
      provider = refl;
      same_service = refl;
      customer = refl;
      whole_second = whole;
      begins = before;
      in_second = after;
      ends = refl;
      mode = mode_of service.booking_mode;
      name = refl;
      price = refl;
      currency = refl;
      duration = refl;
      checked = refl;
    }

-- A slot of the list starts then, with these resources.
pub resources_at-slot :
    (start : ℕ) (slots : List Slot) (ids : List Uuid)
    → resources_at start slots ≡ ok ids
    → (slot : Slot) × Any (λ s. s ≡ slot) slots
      × (slot.starts_at ≡ start)
      × (slot.resource_ids ≡ ids)
unfolding resources_at
resources_at-slot start [] ids h = absurd (cc)
resources_at-slot start (s ∷ ss) ids h = elim (Bool-cases (s.starts_at == start)) [
  | inl here ↦ elim (Bool-cases (is_empty s.resource_ids)) [
    | inl empty ↦ absurd (ground arith)
    | inr some_free ↦ (s, inl refl, ground arith, ground arith)
  ]
  | inr other ↦
      let (slot, listed, at_start, free) = resources_at-slot start ss ids (ground arith) in
      (slot, inr listed, at_start, free)
]

contains-Any : (ids : List Uuid) (id : Uuid) → contains ids id ≡ true → Any (λ i. i ≡ id) ids
unfolding contains
contains-Any [] id h = absurd (cc)
contains-Any (x ∷ xs) id h = elim (Bool-cases (x == id)) [
  | inl e ↦ inl ((==_iff x id).0 e)
  | inr e ↦ inr (contains-Any xs id (ground arith))
]

-- A candidate is a resource that was free, the requested one if one was.
pub narrow-candidate :
    (asked : Option Uuid) (ids candidates : List Uuid) (id : Uuid)
    → narrow asked ids ≡ ok candidates
    → Any (λ i. i ≡ id) candidates
    → Any (λ i. i ≡ id) ids × ((asked ≡ none) ⊎ (asked ≡ some id))
unfolding narrow
narrow-candidate none ids candidates id h m = (subst (Any (λ i. i ≡ id)) (sym (cc)) m, inl refl)
narrow-candidate (some want) ids candidates id h m = elim (Bool-cases (contains ids want)) [
  | inl e ↦
      let same : candidates ≡ want ∷ [] = ground arith in
      only (contains-Any ids want e) (subst (Any (λ i. i ≡ id)) same m)
  | inr e ↦ absurd (ground arith)
]
  where
    only :
        Any (λ i. i ≡ want) ids
        → Any (λ i. i ≡ id) (want ∷ [])
        → Any (λ i. i ≡ id) ids × ((some want ≡ none) ⊎ (some want ≡ some id))
    only a (inl e) = (subst (λ x. Any (λ i. i ≡ x) ids) e a, inr (ap some e))
    only a (inr e) = elim e [ ]
