-- ===== src/Scheduling/Schedule/Filed.antt =====
-- What the edits of the weekly pattern (internal/scheduling/service.go) file, and what they leave
-- alone.
use nearby_backend.Prelude.{
  ℕ, ◌%◌, ◌≤◌, ◌<◌, ◌≡◌, refl, Bool, true, false, ◌&&◌, ◌||◌, not, ltb, leb, arith,
}
use nearby_backend.Prelude.Int.{ℤ, pos, negsuc, pos_part, ltb_ℤ, wrap32}
use nearby_backend.Platform.Errors.{Error, validation}
use nearby_backend.Platform.Database.{
  caused, Outcome, ok, err, M, ◌>>=◌, ◌>>◌, return, or_internal, lift, query,
}
use nearby_backend.Platform.Result.{◌>>◌ as ◌>>ₒ◌, refuse_if, refuse_if-ok}
use nearby_backend.Platform.Ensures.{
  Yields, Ensures, query-Ensures, on_error-Ensures, >>=-Ensures, >>-Ensures, anything,
}
use nearby_backend.Scheduling.Models.{Uuid, HoursRule}
use nearby_backend.Scheduling.Hours.{HoursInput, valid, check_span}
use nearby_backend.Scheduling.Schedule.{
  HoursStore, hours_inserted, is_weekday, stored_row, create_business_hours, assert_resource_owned,
  hours_params, drop_cached, create_hours,
}

three_passed :
    (a b c : Bool) (e f g : Error)
    → (refuse_if a e >>ₒ (refuse_if b f >>ₒ (refuse_if c g >>ₒ ok (tt {0})))) ≡ ok (tt {0})
    → (a ≡ false) × (b ≡ false) × (c ≡ false)
three_passed a b c e f g h =
    let first = refuse_if-ok a e (refuse_if b f >>ₒ (refuse_if c g >>ₒ ok (tt {0}))) h in
    let second = refuse_if-ok b f (refuse_if c g >>ₒ ok (tt {0})) first.1 in
    (first.0, second.0, (refuse_if-ok c g (ok (tt {0})) second.1).0)

-- A weekday that passes the check is the one that the column holds.
weekday_kept :
    (a : ℤ) → (ltb_ℤ a (pos 0) || ltb_ℤ (pos 6) a) ≡ false → pos (pos_part (wrap32 a)) ≡ a
unfolding wrap32
weekday_kept (pos n) h = ground arith
weekday_kept (negsuc n) h = absurd (ground arith)

-- What `CreateHours` refuses before it asks the database.
check_span-ok :
    (span : HoursInput)
    → check_span span ≡ ok tt
    → (pos (pos_part (wrap32 span.weekday)) ≡ span.weekday)
      × (span.opens < span.closes)
      × (span.closes ≤ 1440)
unfolding check_span valid
check_span-ok span h =
    let passed =
      three_passed (ltb_ℤ span.weekday (pos 0) || ltb_ℤ (pos 6) span.weekday)
        (not (valid span.opens) || not (valid span.closes)) (leb span.closes span.opens)
        (validation "weekday must be between 0 (Sunday) and 6")
        (validation "opensAt and closesAt must be times of day")
        (validation "closesAt must be after opensAt") h in
    let in_day : (not (leb span.opens 1440) || not (leb span.closes 1440)) ≡ false = passed.1 in
    let ordered : leb span.closes span.opens ≡ false = passed.2 in
    (weekday_kept span.weekday passed.0, ground arith, ground arith)

-- The rule is the one that was asked for, for the same times.
abbrev pub IsFiledRule : Uuid → HoursInput → HoursRule → Type 0
IsFiledRule provider_id input rule =
    (rule.provider_id ≡ provider_id)
    × (rule.resource_id ≡ input.resource_id)
    × (pos rule.weekday ≡ input.weekday)
    × (rule.opens ≡ input.opens)
    × (rule.closes ≡ input.closes)

same_time : (m : ℕ) → m < 1440 → m % 1440 ≡ m
same_time m h = omega arith

before_midnight : (opens closes : ℕ) → closes ≤ 1440 → opens % 1440 < closes % 1440 → closes < 1440
before_midnight opens closes h k = omega arith

create_business_hours-IsFiledRule :
    (provider_id : Uuid) (input : HoursInput)
    → check_span input ≡ ok tt
    → Ensures
        (IsFiledRule provider_id input)
        (query (create_business_hours (hours_params provider_id input.resource_id input)))
unfolding create_business_hours
create_business_hours-IsFiledRule provider_id input h =
    let params = hours_params provider_id input.resource_id input in
    let (same_day, opened, shut) = check_span-ok input h in
    query-Ensures (IsFiledRule provider_id input) (create_business_hours params) (λ s.
      filed s same_day (opened, shut)
        (is_weekday params.weekday && ltb (params.opens % 1440) (params.closes % 1440)) refl)
  where
    filed :
        (s : HoursStore)
        → (pos (pos_part (wrap32 input.weekday)) ≡ input.weekday)
        → (input.opens < input.closes) × (input.closes ≤ 1440)
        → (fits : Bool)
        → (is_weekday (wrap32 input.weekday) && ltb (input.opens % 1440) (input.closes % 1440))
          ≡ fits
        → Yields
            (IsFiledRule provider_id input)
            (hours_inserted
              (stored_row (hours_params provider_id input.resource_id input) s)
              s
              fits).0
    filed s d (a, b) false e = tt
    filed s d (a, b) true e =
        let order : input.opens % 1440 < input.closes % 1440 = ground arith in
        let late = before_midnight input.opens input.closes b order in
        (refl, refl, d, same_time input.opens (omega arith), same_time input.closes late)

-- A rule that `CreateHours` returns is the one that was asked for: the provider's, for the same
-- resource, on the same weekday, and for the same times.
pub create_hours-IsFiledRule :
    (provider_id : Uuid) (input : HoursInput)
    → Ensures (IsFiledRule provider_id input) (create_hours provider_id input)
unfolding create_hours
create_hours-IsFiledRule provider_id input =
    let Q = IsFiledRule provider_id input in
    let insert = query (create_business_hours (hours_params provider_id input.resource_id input)) in
    let done : HoursRule → M HoursStore HoursRule = λ row. drop_cached provider_id >> return row in
    let owned = assert_resource_owned provider_id input.resource_id in
    >>-Ensures (check_span input ≡ ok tt) Q (lift (check_span input))
      (owned >> (or_internal insert >>= done)) (accepted (check_span input) refl)
      (λ h. >>-Ensures Unit Q owned (or_internal insert >>= done) (anything owned) (λ _.
        >>=-Ensures Q Q (or_internal insert) done
          (on_error-Ensures Q caused insert (create_business_hours-IsFiledRule provider_id input h))
          (λ row q.
            >>-Ensures Unit Q (drop_cached provider_id) (return row)
              (anything (drop_cached provider_id)) (λ _ w. q))))
  where
    accepted :
        (r : Outcome (Unit {0}))
        → check_span input ≡ r
        → Ensures (λ _. check_span input ≡ ok tt) (lift {S = HoursStore} r)
    accepted (ok u) e w = e
    accepted (err x) e w = tt

-- A span that closes at 24:00, the last time of day that `Valid` accepts, is never filed: the database
-- reads it as 00:00.
pub create_hours_midnight :
    (provider_id : Uuid) (input : HoursInput)
    → input.closes ≡ 1440
    → Ensures (λ _. ⊥) (create_hours provider_id input)
unfolding create_hours create_business_hours
create_hours_midnight provider_id input late =
    let Q : HoursRule → Type 0 = λ _. ⊥ in
    let params = hours_params provider_id input.resource_id input in
    let insert = query (create_business_hours params) in
    let done : HoursRule → M HoursStore HoursRule = λ row. drop_cached provider_id >> return row in
    let owned = assert_resource_owned provider_id input.resource_id in
    >>-Ensures Unit Q (lift (check_span input)) (owned >> (or_internal insert >>= done))
      (anything (lift (check_span input)))
      (λ _. >>-Ensures Unit Q owned (or_internal insert >>= done) (anything owned) (λ _.
        >>=-Ensures Q Q (or_internal insert) done
          (on_error-Ensures Q caused insert (
            query-Ensures Q (create_business_hours params) (λ s.
              shut s (is_weekday params.weekday && ltb (params.opens % 1440) (params.closes % 1440))
                refl)))
          (λ row q. elim q [ ])))
  where
    shut :
        (s : HoursStore) (fits : Bool)
        → (is_weekday (wrap32 input.weekday) && ltb (input.opens % 1440) (input.closes % 1440))
          ≡ fits
        → Yields {A = HoursRule}
            (λ _. ⊥)
            (hours_inserted
              (stored_row (hours_params provider_id input.resource_id input) s)
              s
              fits).0
    shut s false e = tt
    shut s true e =
        let order : input.opens % 1440 < input.closes % 1440 = ground arith in
        let zero_hour : input.closes % 1440 ≡ 0 = omega arith in omega arith
