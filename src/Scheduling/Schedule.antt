-- ===== src/Scheduling/Schedule.antt =====
-- Edits of the weekly pattern (internal/scheduling/service.go), on the tables `resources` and
-- `business_hours` of migrations/00006_scheduling.sql. `make_interval(mins => m)::time` keeps the part
-- of the interval that is less than a day. A foreign key that is violated shows as a fault of the
-- statement's turn.
pub mod Filed
pub mod Scopes
use nearby_backend.Prelude.{
  ℕ, suc, ◌%◌, Bool, true, false, ◌&&◌, not, Option, none, some, List, [], ◌∷◌, ltb, leb, ◌==◌,
  if◌then◌else◌, select, find, exists,
}
use nearby_backend.Prelude.Int.{ℤ, pos, pos_part, leb_ℤ, wrap32}
use nearby_backend.Platform.Errors.{Error, not_found}
use nearby_backend.Platform.Database.{
  Failure, no_rows, pg, check_violation, Outcome, ok, err, M, ◌>>=◌, ◌>>◌, return, guard,
  or_internal, on_error, missing, lift, query, in_tx,
}
use nearby_backend.Scheduling.Models.{Uuid, HoursRule}
use nearby_backend.Scheduling.Hours.{HoursInput, check_span, check_spans, assert_no_overlap}

-- The tables, the next uuid that the database hands out, and the providers whose cached availability
-- was dropped, newest first. A resource is its id and its provider's.
pub record HoursStore : Type 0 where
  pub hours : List HoursRule
  pub resources : List (Uuid × Uuid)
  pub next_id : Uuid
  pub invalidated : List Uuid

abbrev pub hours_inserted : HoursRule → HoursStore → Bool → Outcome HoursRule × HoursStore
hours_inserted row s false = (err (pg check_violation "business_hours_opens_before_closes"), s)
hours_inserted row s true = (ok row, record s { hours = row ∷ s.hours; next_id = suc s.next_id })

-- `CreateBusinessHoursParams`.
pub record HoursParams : Type 0 where
  pub provider_id : Uuid
  pub resource_id : Option Uuid
  pub weekday : ℤ
  pub opens : ℕ
  pub closes : ℕ

-- The row that `CreateBusinessHours` writes: the times are times of a day, and the weekday has passed
-- the CHECK.
abbrev pub stored_row : HoursParams → HoursStore → HoursRule
stored_row params s = record {
  id = s.next_id;
  provider_id = params.provider_id;
  resource_id = params.resource_id;
  weekday = pos_part params.weekday;
  opens = params.opens % 1440;
  closes = params.closes % 1440;
}

-- `CHECK (weekday BETWEEN 0 AND 6)`.
unfoldable pub is_weekday : ℤ → Bool
is_weekday weekday = leb_ℤ (pos 0) weekday && leb_ℤ weekday (pos 6)

-- `CreateBusinessHours`, with the CHECKs of the table.
unfoldable pub create_business_hours : HoursParams → HoursStore → Outcome HoursRule × HoursStore
unfolding is_weekday
create_business_hours params s =
    let row = stored_row params s in
    hours_inserted row s (is_weekday params.weekday && ltb row.opens row.closes)

-- `IS NOT DISTINCT FROM`.
abbrev pub same_scope : Option Uuid → Option Uuid → Bool
same_scope none none = true
same_scope (some a) (some b) = a == b
same_scope _ _ = false

abbrev pub in_scope : Uuid → Option Uuid → HoursRule → Bool
in_scope provider_id resource_id rule =
    rule.provider_id == provider_id && same_scope rule.resource_id resource_id

-- `DeleteBusinessHoursForScope`.
unfoldable pub delete_for_scope : Uuid → Option Uuid → HoursStore → Outcome (Unit {0}) × HoursStore
unfolding select
delete_for_scope provider_id resource_id s = (
  ok tt,
  record s { hours = select (λ rule. not (in_scope provider_id resource_id rule)) s.hours },
)

abbrev pub deleted : HoursStore → List HoursRule → Bool → Outcome Bool × HoursStore
deleted s left found = (ok found, record s { hours = left })

-- `DeleteBusinessHours`: whether a row was deleted.
unfoldable pub delete_business_hours : Uuid → Uuid → HoursStore → Outcome Bool × HoursStore
unfolding select exists
delete_business_hours provider_id id s =
    deleted s (select (λ rule. not (rule.id == id && rule.provider_id == provider_id)) s.hours)
      (exists (λ rule. rule.id == id && rule.provider_id == provider_id) s.hours)

abbrev pub owner_of : Option (Uuid × Uuid) → Outcome Uuid
owner_of none = err no_rows
owner_of (some (id, provider_id)) = ok provider_id

-- `GetResource`, as far as its provider.
unfoldable pub get_resource : Uuid → HoursStore → Outcome Uuid × HoursStore
unfolding find
get_resource id s = (owner_of (find (λ r. r.0 == id) s.resources), s)

abbrev pub resource_not_found : Error
unfolding not_found
resource_not_found = not_found "Resource"

-- `if in.ResourceID != nil { assertResourceOwned }`.
unfoldable pub assert_resource_owned : Uuid → Option Uuid → M HoursStore (Unit {0})
unfolding get_resource
assert_resource_owned provider_id none = return tt
assert_resource_owned provider_id (some id) = do
  owner ← on_error (missing resource_not_found) (query (get_resource id))
  guard (owner == provider_id) resource_not_found

-- The weekday is stored in an `int32`.
abbrev pub hours_params : Uuid → Option Uuid → HoursInput → HoursParams
hours_params provider_id resource_id span = record {
  provider_id = provider_id;
  resource_id = resource_id;
  weekday = wrap32 span.weekday;
  opens = span.opens;
  closes = span.closes;
}

unfoldable pub drop_cached : Uuid → M HoursStore (Unit {0})
drop_cached id w =
    (ok tt, record w { store = record (w.store) { invalidated = id ∷ w.store.invalidated } })

unfoldable pub create_hours : Uuid → HoursInput → M HoursStore HoursRule
unfolding check_span assert_resource_owned create_business_hours drop_cached
create_hours provider_id input = do
  lift (check_span input)
  assert_resource_owned provider_id input.resource_id
  row ←
      or_internal (query (create_business_hours (hours_params provider_id input.resource_id input)))
  drop_cached provider_id
  return row

-- The inserts of `ReplaceHours`, in order.
unfoldable pub insert_spans : Uuid → Option Uuid → List HoursInput → M HoursStore (List HoursRule)
unfolding create_business_hours
insert_spans provider_id resource_id [] = return []
insert_spans provider_id resource_id (span ∷ spans) = do
  row ← or_internal (query (create_business_hours (hours_params provider_id resource_id span)))
  rest ← insert_spans provider_id resource_id spans
  return (row ∷ rest)

-- The body of the transaction.
unfoldable pub rewrite_scope : Uuid → Option Uuid → List HoursInput → M HoursStore (List HoursRule)
unfolding delete_for_scope insert_spans
rewrite_scope provider_id resource_id spans = do
  or_internal (query (delete_for_scope provider_id resource_id))
  insert_spans provider_id resource_id spans

unfoldable pub replace_hours : Uuid → Option Uuid → List HoursInput → M HoursStore (List HoursRule)
unfolding check_spans assert_no_overlap assert_resource_owned rewrite_scope drop_cached
replace_hours provider_id resource_id spans = do
  lift (check_spans spans)
  lift (assert_no_overlap spans)
  assert_resource_owned provider_id resource_id
  rules ← in_tx (rewrite_scope provider_id resource_id spans)
  drop_cached provider_id
  return rules

abbrev pub hours_not_found : Error
unfolding not_found
hours_not_found = not_found "Business hours"

unfoldable pub delete_hours : Uuid → Uuid → M HoursStore (Unit {0})
unfolding delete_business_hours drop_cached
delete_hours provider_id id = do
  affected ← or_internal (query (delete_business_hours provider_id id))
  guard affected hours_not_found
  drop_cached provider_id
