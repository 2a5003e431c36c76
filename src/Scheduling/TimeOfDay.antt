-- ===== src/Scheduling/TimeOfDay.antt =====
-- Times of a local day as texts (internal/scheduling/timeofday.go).
pub mod RoundTrip
use nearby_backend.Prelude.{
  ℕ, zero, suc, ◌+◌, ◌-◌, ◌*◌, ◌/◌, ◌%◌, ◌≤◌, ◌≡◌, refl, String, Bool, true, false, ◌&&◌, ◌||◌, not,
  Option, none, some, List, [], ◌∷◌, ltb, leb, leb→le, ◌==◌, if◌then◌else◌, option_map, arith,
}
use nearby_backend.Prelude.Int.{ℤ, pos, negsuc, ltb_ℤ}
use nearby_backend.Prelude.Text.{trim_space, padded, decimal}
use Prim.Native.String
use Prim.Native.String.{◌++◌}
use Prim.Native.Char.{code}
use nearby_backend.Platform.Database.{other, Outcome, ok, err}
use nearby_backend.Scheduling.Hours.{minutes_per_day}

-- A part before those that are already split off.
abbrev onto_first : String → List String → List String
onto_first c [] = c ∷ []
onto_first c (part ∷ parts) = (c ++ part) ∷ parts

-- `strings.Split(s, ":")`.
unfoldable pub split_colons : String → List String
split_colons String.[] = "" ∷ []
split_colons (String.◌∷◌ c s) =
    let parts = split_colons s in
    if code c == 58 then "" ∷ parts else onto_first (String.◌∷◌ c "") parts

-- The value of the digits of a text, after those that were read.
digits_from : ℕ → String → Option ℕ
digits_from n String.[] = some n
digits_from n (String.◌∷◌ c s) =
    let rest = digits_from (n * 10 + (code c - 48)) s in
    if leb 48 (code c) && leb (code c) 57 then rest else none

-- One digit or more.
digits : String → Option ℕ
unfolding digits_from
digits String.[] = none
digits (String.◌∷◌ c s) = digits_from 0 (String.◌∷◌ c s)

-- A number of 64 bits.
in_range : Option ℕ → ℕ → Option ℕ
in_range none limit = none
in_range (some n) limit = if leb n limit then some n else none

abbrev negated : ℕ → ℤ
negated zero = pos zero
negated (suc n) = negsuc n

-- `strconv.Atoi`.
unfoldable pub atoi : String → Option ℤ
unfolding digits in_range
atoi String.[] = none
atoi (String.◌∷◌ c s) =
    if code c == 45
    then option_map negated (in_range (digits s) 9_223_372_036_854_775_808)
    else if code c == 43
    then option_map pos (in_range (digits s) 9_223_372_036_854_775_807)
    else option_map pos (in_range (digits (String.◌∷◌ c s)) 9_223_372_036_854_775_807)

-- A number from zero to the limit.
unfoldable pub bounded : ℕ → Option ℤ → Option ℕ
bounded limit none = none
bounded limit (some (negsuc n)) = none
bounded limit (some (pos n)) = if leb n limit then some n else none

unfoldable pub total : Option ℕ → Option ℕ → Outcome ℕ
total (some hours) (some minutes) =
    let t = hours * 60 + minutes in if leb t minutes_per_day then ok t else err other
total _ _ = err other

unfoldable pub time_of : List String → Outcome ℕ
unfolding bounded total atoi
time_of (hours ∷ minutes ∷ []) = total (bounded 24 (atoi hours)) (bounded 59 (atoi minutes))
time_of (hours ∷ minutes ∷ seconds ∷ []) =
    total (bounded 24 (atoi hours)) (bounded 59 (atoi minutes))
time_of _ = err other

-- `ParseTimeOfDay`.
unfoldable pub parse_time_of_day : String → Outcome ℕ
unfolding trim_space split_colons time_of
parse_time_of_day raw = time_of (split_colons (trim_space raw))

-- `String`, for a time that is not negative.
unfoldable pub time_text : ℕ → String
unfolding padded decimal
time_text t = two (t / 60) ++ (":" ++ two (t % 60))
  where
    two : ℕ → String
    two n = if ltb n 100 then padded 2 n else decimal (pos n)
