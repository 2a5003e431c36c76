-- ===== src/Scheduling/Schedule/Scopes.antt =====
-- `ReplaceHours` (internal/scheduling/service.go) rewrites one scope and leaves the others alone.
use nearby_backend.Prelude.{
  ◌≡◌, refl, ◌∙◌, Bool, true, false, not, Option, none, some, List, [], ◌∷◌, select, arith,
  Bool-cases, inl, inr,
}
use nearby_backend.Platform.Errors.{Error}
use nearby_backend.Platform.Database.{
  Failure, Outcome, World, M, ◌>>=◌, ◌>>◌, return, guard, on_error, lift, query,
}
use nearby_backend.Platform.Keeps.{
  IsQuiet, start-IsSafe, store-IsSafe, Keeps, >>=-Keeps, >>-Keeps, guard-Keeps, on_error-Keeps,
  query-Keeps, in_tx-Keeps,
}
use nearby_backend.Scheduling.Models.{Uuid, HoursRule}
use nearby_backend.Scheduling.Hours.{HoursInput}
use nearby_backend.Scheduling.Schedule.{
  HoursStore, hours_inserted, stored_row, create_business_hours, in_scope, same_scope,
  delete_for_scope, get_resource, assert_resource_owned, hours_params, drop_cached, insert_spans,
  rewrite_scope, replace_hours,
}

select_twice : (p : HoursRule → Bool) (xs : List HoursRule) → select p (select p xs) ≡ select p xs
unfolding select
select_twice p [] = refl
select_twice p (x ∷ xs) = elim (Bool-cases (p x)) [
  | inl e ↦ rw (e, e, select_twice p xs)
  | inr e ↦ rw e (select_twice p xs)
]

same_scope_self : (r : Option Uuid) → same_scope r r ≡ true
same_scope_self none = refl
same_scope_self (some a) = ground arith

module _ (provider_id : Uuid) (resource_id : Option Uuid) where
  abbrev outside : HoursRule → Bool
  outside rule = not (in_scope provider_id resource_id rule)

  -- The rules of the other scopes.
  abbrev pub elsewhere : HoursStore → List HoursRule
  elsewhere s = select outside s.hours

  module _ (old : List HoursRule) where
    abbrev pub IsElsewhere : HoursStore → Type 0
    IsElsewhere s = elsewhere s ≡ old

    abbrev Kept : {A : Type 0} → M HoursStore A → Type 0
    Kept = Keeps IsElsewhere

    in_own_scope :
        (row : HoursRule) (rows : List HoursRule)
        → in_scope provider_id resource_id row ≡ true
        → select outside (row ∷ rows) ≡ select outside rows
    unfolding select
    in_own_scope row rows h = rw h

    own :
        (input : HoursInput) (s : HoursStore)
        → in_scope provider_id resource_id
            (stored_row (hours_params provider_id resource_id input) s)
          ≡ true
    own input s = rw (same_scope_self resource_id) (ground arith)

    inserted-IsElsewhere :
        (input : HoursInput) (s : HoursStore) (fits : Bool)
        → IsElsewhere s
        → IsElsewhere
            (hours_inserted (stored_row (hours_params provider_id resource_id input) s) s fits).1
    inserted-IsElsewhere input s false h = h
    inserted-IsElsewhere input s true h =
        in_own_scope (stored_row (hours_params provider_id resource_id input) s) s.hours
          (own input s)
        ∙ h

    insert-Keeps :
        (input : HoursInput)
        → Kept (query (create_business_hours (hours_params provider_id resource_id input)))
    unfolding create_business_hours
    insert-Keeps input =
        query-Keeps IsElsewhere (create_business_hours (hours_params provider_id resource_id input))
          (λ s h. inserted-IsElsewhere input s _ h)

    delete-Keeps : Kept (query (delete_for_scope provider_id resource_id))
    unfolding delete_for_scope
    delete-Keeps =
        query-Keeps IsElsewhere (delete_for_scope provider_id resource_id)
          (λ s h. select_twice outside s.hours ∙ h)

    get-Keeps : (id : Uuid) → Kept (query (get_resource id))
    unfolding get_resource
    get-Keeps id = query-Keeps IsElsewhere (get_resource id) (λ s h. h)

    bind :
        {A B : Type 0} (m : M HoursStore A) (f : A → M HoursStore B)
        → Kept m
        → ((a : A) → Kept (f a))
        → Kept (m >>= f)
    bind = >>=-Keeps IsElsewhere

    seq :
        {B : Type 0} (m : M HoursStore (Unit {0})) (k : M HoursStore B)
        → Kept m
        → Kept k
        → Kept (m >> k)
    seq = >>-Keeps IsElsewhere

    on : {A : Type 0} (f : Failure → Failure) (m : M HoursStore A) → Kept m → Kept (on_error f m)
    on = on_error-Keeps IsElsewhere

    check : (t : Bool) (e : Error) → Kept (guard t e)
    check = guard-Keeps IsElsewhere

    give : {A : Type 0} (a : A) → Kept (return a)
    give a w h = h

    lift-Keeps : {A : Type 0} (r : Outcome A) → Kept (lift r)
    lift-Keeps r w h = h

    drop_cached-Keeps : (id : Uuid) → Kept (drop_cached id)
    unfolding drop_cached
    drop_cached-Keeps id w h = store-IsSafe IsElsewhere w _ h.holds h

    insert_spans-Keeps :
        (spans : List HoursInput) → Kept (insert_spans provider_id resource_id spans)
    unfolding insert_spans
    insert_spans-Keeps [] = give {A = List HoursRule} []
    insert_spans-Keeps (span ∷ spans) =
        search (bind, on, insert-Keeps, give, insert_spans-Keeps spans)

    rewrite_scope-Keeps :
        (spans : List HoursInput) → Kept (rewrite_scope provider_id resource_id spans)
    unfolding rewrite_scope
    rewrite_scope-Keeps spans = search (seq, on, delete-Keeps, insert_spans-Keeps)

    owned-Keeps : (r : Option Uuid) → Kept (assert_resource_owned provider_id r)
    unfolding assert_resource_owned
    owned-Keeps none = give tt
    owned-Keeps (some id) = search (bind, on, check, get-Keeps)

    replace_hours-Keeps :
        (spans : List HoursInput) → Kept (replace_hours provider_id resource_id spans)
    unfolding replace_hours
    replace_hours-Keeps spans =
        let body = rewrite_scope provider_id resource_id spans in
        let inside = in_tx-Keeps IsElsewhere body (rewrite_scope-Keeps spans) in
        search (bind, seq, give, lift-Keeps, owned-Keeps, drop_cached-Keeps, inside) fits 5000 depth
          7

-- `ReplaceHours` leaves the rules of every other provider, and of the provider's other scopes, as they
-- were and in their order, whatever it answers and whichever of its queries fail, if what the other
-- sessions write in between leaves them so and no transaction of this session is open.
pub replace_hours-elsewhere :
    (provider_id : Uuid) (resource_id : Option Uuid) (spans : List HoursInput)
    (w : World HoursStore)
    → w.committed ≡ none
    → IsQuiet
        (IsElsewhere provider_id resource_id (elsewhere provider_id resource_id w.store))
        w.turns
    → elsewhere provider_id resource_id (replace_hours provider_id resource_id spans w).1.store
      ≡ elsewhere provider_id resource_id w.store
replace_hours-elsewhere provider_id resource_id spans w e q =
    (replace_hours-Keeps provider_id resource_id (elsewhere provider_id resource_id w.store) spans w
      (start-IsSafe _ w e refl q)).holds
