-- ===== src/Booking/History.antt =====
-- What becomes of stored bookings (internal/booking): none is lost, none changes its place, time or
-- price, and each lives a life of the state machine.
use nearby_backend.Prelude.{
  ◌≡◌, refl, sym, ap, subst, inl, inr, Bool, true, false, Option, none, some, List, [], ◌∷◌, ◌++◌,
  ◌∙◌, map, if◌then◌else◌, find, arith, Bool-cases,
}
use nearby_backend.Platform.Database.{Failure, World}
use nearby_backend.Platform.Keeps.{IsQuiet, start-IsSafe}
use nearby_backend.Booking.State.{Status, Event, moved, next}
use nearby_backend.Booking.State.Lifecycle.{run, run-cons}
use nearby_backend.Booking.Models.{BookingRow, BookingOptionRow, Store}
use nearby_backend.Booking.Queries.{
  insert_violation, inserted, create_booking, added, add_booking_option, Transitioning, is_due,
  moved_row, update_row, updated, transition_booking,
}
use nearby_backend.Booking.Transition.{transition_params}
use nearby_backend.Booking.Overlap.{is_due-same_status}
use nearby_backend.Booking.Operations.{IsStable, Call, serve_all, serve_all-IsSafe}

-- The later row is the earlier one after some events.
pub record Outlives (old new : BookingRow) : Type 0 where
  pub id : new.id ≡ old.id
  pub code : new.code ≡ old.code
  pub resource : new.resource_id ≡ old.resource_id
  pub customer : new.customer_id ≡ old.customer_id
  pub starts : new.starts_at ≡ old.starts_at
  pub ends : new.ends_at ≡ old.ends_at
  pub price : new.price_cents ≡ old.price_cents
  pub events : List Event
  pub life : run old.status events ≡ some new.status

abbrev pub Pairwise : List BookingRow → List BookingRow → Type 0
Pairwise [] [] = Unit
Pairwise (r ∷ rs) (s ∷ ss) = Outlives r s × Pairwise rs ss
Pairwise [] (s ∷ ss) = ⊥
Pairwise (r ∷ rs) [] = ⊥

-- The later table is the earlier one, its rows grown older, with new rows before them.
pub record Grown (old new : List BookingRow) : Type 0 where
  pub fresh : List BookingRow
  pub kept : List BookingRow
  pub split : new ≡ fresh ++ kept
  pub older : Pairwise old kept

run-snoc :
    (s : Status) (es : List Event) (t : Status) (e : Event) (u : Status)
    → run s es ≡ some t
    → next t e ≡ moved u
    → run s (es ++ e ∷ []) ≡ some u
unfolding run
run-snoc s [] t e u h k = ground arith
run-snoc s (f ∷ es) t e u h k =
    let (v, p, q) = run-cons s f es t h in ground (arith, run-snoc v es t e u q k)

-- One event: the guarded UPDATE of a transition that the state machine allows.
Outlives-updated :
    (t : Transitioning) (e : Event) (old r : BookingRow)
    → next t.from_status e ≡ moved t.to_status
    → Outlives old r
    → Outlives old (update_row t r)
unfolding update_row moved_row
Outlives-updated t e old r arrow h = elim (Bool-cases (is_due t r)) [
  | inl due ↦ subst (λ b. Outlives old (if b then moved_row t r else r)) (sym due) (older due)
  | inr skipped ↦ subst (λ b. Outlives old (if b then moved_row t r else r)) (sym skipped) h
]
  where
    older : is_due t r ≡ true → Outlives old (moved_row t r)
    older due = record {
      id = h.id;
      code = h.code;
      resource = h.resource;
      customer = h.customer;
      starts = h.starts;
      ends = h.ends;
      price = h.price;
      events = h.events ++ e ∷ [];
      life =
          run-snoc old.status h.events r.status e t.to_status h.life
            (subst (λ s. next s e ≡ moved t.to_status) (sym (is_due-same_status t r due)) arrow);
    }

Pairwise-updated :
    (t : Transitioning) (e : Event) (old rows : List BookingRow)
    → next t.from_status e ≡ moved t.to_status
    → Pairwise old rows
    → Pairwise old (map (update_row t) rows)
Pairwise-updated t e [] [] arrow h = tt
Pairwise-updated t e (o ∷ old) (r ∷ rows) arrow h =
    (Outlives-updated t e o r arrow h.0, Pairwise-updated t e old rows arrow h.1)
Pairwise-updated t e [] (r ∷ rows) arrow h = h
Pairwise-updated t e (o ∷ old) [] arrow h = h

map-append :
    (f : BookingRow → BookingRow) (xs ys : List BookingRow)
    → map f (xs ++ ys) ≡ map f xs ++ map f ys
map-append f [] ys = refl
map-append f (x ∷ xs) ys = ap (◌∷◌ (f x)) (map-append f xs ys)

module _ (old : List BookingRow) where
  abbrev pub IsGrown : Store → Type 0
  IsGrown s = Grown old s.bookings

  inserted-IsGrown :
      (row : BookingRow) (s : Store) (v : Option Failure) → IsGrown s → IsGrown (inserted row s v).1
  inserted-IsGrown row s (some e) h = h
  inserted-IsGrown row s none h = record {
    fresh = row ∷ h.fresh;
    kept = h.kept;
    split = ap (◌∷◌ row) h.split;
    older = h.older;
  }

  updated-IsGrown :
      (t : Transitioning) (e : Event) (s : Store) (r : Option BookingRow)
      → next t.from_status e ≡ moved t.to_status
      → IsGrown s
      → IsGrown (updated t s r).1
  updated-IsGrown t e s none arrow h = h
  updated-IsGrown t e s (some r) arrow h = record {
    fresh = map (update_row t) h.fresh;
    kept = map (update_row t) h.kept;
    split = ap (map (update_row t)) h.split ∙ map-append (update_row t) h.fresh h.kept;
    older = Pairwise-updated t e old h.kept arrow h.older;
  }

  added-IsGrown :
      (o : BookingOptionRow) (s : Store) (b : Bool) → IsGrown s → IsGrown (added o s b).1
  added-IsGrown o s true h = h
  added-IsGrown o s false h = h

  pub IsGrown-IsStable : IsStable IsGrown
  unfolding create_booking add_booking_option transition_booking transition_params
  IsGrown-IsStable = record {
    create_keeps = λ params s.
        let row : BookingRow = record params { id = s.next_id } in
        inserted-IsGrown row s (insert_violation row s.bookings);
    add_keeps = λ o s. added-IsGrown o s _;
    update_keeps = λ id from to e reason arrow s.
        let t = transition_params id from to reason in
        updated-IsGrown t e s (find (is_due t) s.bookings) arrow;
    invalidate_keeps = λ id s h. h;
  }

Outlives-self : (r : BookingRow) → Outlives r r
unfolding run
Outlives-self r = record {
  id = refl;
  code = refl;
  resource = refl;
  customer = refl;
  starts = refl;
  ends = refl;
  price = refl;
  events = [];
  life = refl;
}

Pairwise-self : (rs : List BookingRow) → Pairwise rs rs
Pairwise-self [] = tt
Pairwise-self (r ∷ rs) = (Outlives-self r, Pairwise-self rs)

-- Every stored booking lives by the state machine. If what other sessions write in between loses no
-- booking of the store and moves each by events of the state machine only, then after any calls of
-- the service, made when no transaction of this session is open, whatever these answer and whichever of their queries fail, every booking is still in
-- the table, in the same order, for the same place, time and price, and its status is one that
-- events of the state machine lead to from the status that it had.
pub serve_all-IsGrown :
    (cs : List Call) (w : World Store)
    → w.committed ≡ none
    → IsQuiet (IsGrown w.store.bookings) w.turns
    → Grown w.store.bookings (serve_all cs w).store.bookings
serve_all-IsGrown cs w e q =
    let rows = w.store.bookings in
    let same : Grown rows rows = record {
      fresh = [];
      kept = rows;
      split = refl;
      older = Pairwise-self rows;
    } in
    (serve_all-IsSafe (IsGrown rows) (IsGrown-IsStable rows) cs w (start-IsSafe _ w e same q)).holds
