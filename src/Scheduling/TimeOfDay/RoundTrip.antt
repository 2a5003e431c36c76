-- ===== src/Scheduling/TimeOfDay/RoundTrip.antt =====
-- Times of a day survive being written and read (internal/scheduling/timeofday.go).
use nearby_backend.Prelude.{
  ℕ, zero, suc, ◌+◌, ◌*◌, ◌≤◌, ◌<◌, ◌≡◌, refl, subst, sym, ap, inl, inr, String, Bool, true, false,
  ◌&&◌, Option, none, some, List, [], ◌∷◌, leb, leb→le, ◌==◌, ==_iff, and-split, if◌then◌else◌,
  arith, Bool-cases,
}
use nearby_backend.Prelude.Text.{trim_space}
use nearby_backend.Platform.Database.{other, Outcome, ok, err}
use nearby_backend.Scheduling.Hours.{minutes_per_day, valid}
use nearby_backend.Scheduling.TimeOfDay.{
  split_colons, atoi, bounded, total, time_of, parse_time_of_day, time_text,
}

-- Whether a time is read back from its text.
abbrev is_back : ℕ → Outcome ℕ → Bool
is_back t (ok u) = u == t
is_back t (err e) = false

is_read_back : ℕ → Bool
unfolding parse_time_of_day time_text
is_read_back t = is_back t (parse_time_of_day (time_text t))

all_below : ℕ → Bool
unfolding is_read_back
all_below zero = true
all_below (suc t) = is_read_back t && all_below t

all_day : all_below 1441 ≡ true
unfolding all_below
all_day = refl

below : (n t : ℕ) → all_below n ≡ true → t < n → is_read_back t ≡ true
unfolding all_below
below zero t h l = absurd (omega arith)
below (suc n) t h l =
    let (here, rest) = and-split (is_read_back n) (all_below n) h in
    elim (Bool-cases (t == n)) [
      | inl e ↦ subst (λ k. is_read_back k ≡ true) (sym ((==_iff t n).0 e)) here
      | inr e ↦ below n t rest (ground arith)
    ]

back-ok : (t : ℕ) (r : Outcome ℕ) → is_back t r ≡ true → r ≡ ok t
back-ok t (ok u) h = ap ok ((==_iff u t).0 h)
back-ok t (err e) h = absurd (cc)

-- The text that `String` gives for a valid time of day, midnight at either end included, is read back
-- by `ParseTimeOfDay` as that time.
pub parse_time_of_day-time_text : (t : ℕ) → valid t ≡ true → parse_time_of_day (time_text t) ≡ ok t
unfolding valid is_read_back
parse_time_of_day-time_text t h =
    let day : t ≤ minutes_per_day = leb→le t minutes_per_day h in
    back-ok t (parse_time_of_day (time_text t)) (below 1441 t all_day (omega arith))

total-valid : (a b : Option ℕ) (t : ℕ) → total a b ≡ ok t → leb t minutes_per_day ≡ true
unfolding total
total-valid none b t h = absurd (cc)
total-valid (some m) none t h = absurd (cc)
total-valid (some m) (some n) t h = checked (leb (m * 60 + n) minutes_per_day) refl h
  where
    checked :
        (b : Bool)
        → leb (m * 60 + n) minutes_per_day ≡ b
        → (if b then ok (m * 60 + n) else err other) ≡ ok t
        → leb t minutes_per_day ≡ true
    checked true e g =
        let same : (m * 60 + n) ≡ t = cc in subst (λ k. leb k minutes_per_day ≡ true) same e
    checked false e g = absurd (cc)

time_of-valid : (parts : List String) (t : ℕ) → time_of parts ≡ ok t → leb t minutes_per_day ≡ true
unfolding time_of
time_of-valid [] t h = absurd (cc)
time_of-valid (a ∷ []) t h = absurd (cc)
time_of-valid (a ∷ b ∷ []) t h = total-valid (bounded 24 (atoi a)) (bounded 59 (atoi b)) t h
time_of-valid (a ∷ b ∷ c ∷ []) t h = total-valid (bounded 24 (atoi a)) (bounded 59 (atoi b)) t h
time_of-valid (a ∷ b ∷ c ∷ d ∷ rest) t h = absurd (cc)

-- Whatever text `ParseTimeOfDay` accepts, the time that it gives is valid.
pub parse_time_of_day-valid : (raw : String) (t : ℕ) → parse_time_of_day raw ≡ ok t → valid t ≡ true
unfolding parse_time_of_day valid
parse_time_of_day-valid raw t h = time_of-valid (split_colons (trim_space raw)) t h
