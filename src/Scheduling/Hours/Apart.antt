-- ===== src/Scheduling/Hours/Apart.antt =====
-- What `assertNoOverlap` of internal/scheduling/service.go guards: no two spans of a weekday share a
-- minute.
use nearby_backend.Prelude.{
  ◌≤◌, ◌<◌, ◌≡◌, subst, ◌⊎◌, inl, inr, Bool, true, false, List, [], ◌∷◌, ◌++◌, if◌then◌else◌,
  exists, arith, Bool-cases, All, All-mono, All-append, All-append_left,
}
use nearby_backend.Prelude.Int.{ℤ}
use nearby_backend.Prelude.Sort.{insert_by, sort_by, by_key, All-sort_by}
use nearby_backend.Platform.Database.{ok}
use nearby_backend.Platform.Result.{refuse_if-ok}
use nearby_backend.Scheduling.Hours.{
  HoursInput, Days, same_day, add_span, by_day, clashes, day_clashes, assert_no_overlap,
}

-- The spans share no minute.
abbrev pub AreApart : HoursInput → HoursInput → Type 0
AreApart a b = (a.closes ≤ b.opens) ⊎ (b.closes ≤ a.opens)

-- If they are on one weekday, they share no minute.
abbrev pub AreCompatible : HoursInput → HoursInput → Type 0
AreCompatible a b = same_day a.weekday b.weekday ≡ true → AreApart a b

abbrev pub Pairs : (HoursInput → HoursInput → Type 0) → List HoursInput → Type 0
Pairs R [] = Unit
Pairs R (a ∷ rest) = All (R a) rest × Pairs R rest

abbrev pub Lasts : HoursInput → Type 0
Lasts a = a.opens < a.closes

AreApart-sym : (a b : HoursInput) → AreApart a b → AreApart b a
AreApart-sym a b (inl h) = inr h
AreApart-sym a b (inr h) = inl h

abbrev by_opening : HoursInput → HoursInput → Bool
by_opening = by_key (λ span. span.opens)

-- Undoing an insertion, for a symmetric relation.
All-uninsert :
    (P : HoursInput → Type 0) (x : HoursInput) (xs : List HoursInput)
    → All P (insert_by by_opening x xs)
    → P x × All P xs
unfolding insert_by
All-uninsert P x [] h = h
All-uninsert P x (y ∷ ys) h = elim (Bool-cases (by_opening x y)) [
  | inl e ↦ rw e at h
  | inr e ↦
      let k : P y × All P (insert_by by_opening x ys) = rw e at h in
      let rest = All-uninsert P x ys k.1 in (rest.0, (k.0, rest.1))
]

Pairs-uninsert :
    (x : HoursInput) (xs : List HoursInput)
    → Pairs AreApart (insert_by by_opening x xs)
    → Pairs AreApart (x ∷ xs)
unfolding insert_by
Pairs-uninsert x [] h = h
Pairs-uninsert x (y ∷ ys) h = elim (Bool-cases (by_opening x y)) [
  | inl e ↦ rw e at h
  | inr e ↦
      let k : All (AreApart y) (insert_by by_opening x ys)
          × Pairs AreApart (insert_by by_opening x ys) =
        rw e at h in
      let first = All-uninsert (AreApart y) x ys k.0 in
      let rest = Pairs-uninsert x ys k.1 in ((AreApart-sym y x first.0, rest.0), (first.1, rest.1))
]

All-unsort :
    (P : HoursInput → Type 0) (xs : List HoursInput) → All P (sort_by by_opening xs) → All P xs
unfolding sort_by
All-unsort P [] h = tt
All-unsort P (x ∷ xs) h =
    let k = All-uninsert P x (sort_by by_opening xs) h in (k.0, All-unsort P xs k.1)

Pairs-unsort : (xs : List HoursInput) → Pairs AreApart (sort_by by_opening xs) → Pairs AreApart xs
unfolding sort_by
Pairs-unsort [] h = tt
Pairs-unsort (x ∷ xs) h =
    let k = Pairs-uninsert x (sort_by by_opening xs) h in
    (All-unsort (AreApart x) xs k.0, Pairs-unsort xs k.1)

-- A day without a clash between neighbours: each span closes before all later ones open.
clashes-After :
    (a : HoursInput) (rest : List HoursInput)
    → All Lasts (a ∷ rest)
    → clashes (a ∷ rest) ≡ false
    → All (λ b. a.closes ≤ b.opens) rest × Pairs AreApart rest
unfolding clashes
clashes-After a [] l h = (tt, tt)
clashes-After a (b ∷ rest) l h =
    let later : clashes (b ∷ rest) ≡ false = ground arith in
    let touch : a.closes ≤ b.opens = ground arith in
    let k = clashes-After b rest l.1 later in
    (
      (touch, All-mono rest (λ c m. chain c touch l.1.0 m) k.0),
      (All-mono rest (λ c m. inl m) k.0, k.1),
    )
  where
    chain :
        (c : HoursInput)
        → a.closes ≤ b.opens
        → b.opens < b.closes
        → b.closes ≤ c.opens
        → a.closes ≤ c.opens
    chain c p q m = omega arith

clashes-Pairs : (xs : List HoursInput) → All Lasts xs → clashes xs ≡ false → Pairs AreApart xs
clashes-Pairs [] l h = tt
clashes-Pairs (a ∷ rest) l h =
    let k = clashes-After a rest l h in (All-mono rest (λ b m. inl m) k.0, k.1)

-- The spans that a weekday has in the map.
group_of : ℤ → Days → List HoursInput
group_of k [] = []
group_of k ((day, spans) ∷ rest) =
    let later = group_of k rest in if same_day day k then spans else later

same_day_trans : (a b c : ℤ) → same_day a b ≡ true → same_day b c ≡ true → same_day a c ≡ true
same_day_trans a b c h k = ground arith

same_day_other : (a b c : ℤ) → same_day a b ≡ false → same_day b c ≡ true → same_day a c ≡ false
same_day_other a b c h k = ground arith

same_day_apart : (a b c : ℤ) → same_day a b ≡ true → same_day b c ≡ false → same_day a c ≡ false
same_day_apart a b c h k = ground arith

group_of-add_span :
    (k : ℤ) (span : HoursInput) (days : Days)
    → same_day span.weekday k ≡ true
    → group_of k (add_span span days) ≡ group_of k days ++ span ∷ []
unfolding group_of add_span
group_of-add_span k span [] h = rw h
group_of-add_span k span ((day, spans) ∷ rest) h = elim (Bool-cases (same_day day span.weekday)) [
  | inl e ↦ rw (e, same_day_trans day span.weekday k e h)
  | inr e ↦ rw (e, same_day_other day span.weekday k e h) (group_of-add_span k span rest h)
]

group_of-add_other :
    (k : ℤ) (span : HoursInput) (days : Days)
    → same_day span.weekday k ≡ false
    → group_of k (add_span span days) ≡ group_of k days
unfolding group_of add_span
group_of-add_other k span [] h = rw h
group_of-add_other k span ((day, spans) ∷ rest) h = elim (Bool-cases (same_day day span.weekday)) [
  | inl e ↦ rw (e, same_day_apart day span.weekday k e h)
  | inr e ↦ elim (Bool-cases (same_day day k)) [
    | inl f ↦ rw (e, f)
    | inr f ↦ rw (e, f) (group_of-add_other k span rest h)
  ]
]

-- The spans of each day are apart.
abbrev AreGood : Days → Type 0
AreGood = All (λ day. Pairs AreApart day.1)

Pairs-append :
    (xs : List HoursInput) (x : HoursInput)
    → Pairs AreApart (xs ++ x ∷ [])
    → Pairs AreApart xs × All (λ a. AreApart a x) xs
Pairs-append [] x h = (tt, tt)
Pairs-append (y ∷ ys) x h =
    let k = Pairs-append ys x h.1 in
    ((All-append_left (AreApart y) ys (x ∷ []) h.0, k.0), (last ys h.0, k.1))
  where
    last : (zs : List HoursInput) → All (AreApart y) (zs ++ x ∷ []) → AreApart y x
    last [] a = a.0
    last (z ∷ zs) a = last zs a.1

AreGood-group_of : (k : ℤ) (days : Days) → AreGood days → Pairs AreApart (group_of k days)
unfolding group_of
AreGood-group_of k [] h = tt
AreGood-group_of k ((day, spans) ∷ rest) h = elim (Bool-cases (same_day day k)) [
  | inl e ↦ rw e h.0
  | inr e ↦ rw e (AreGood-group_of k rest h.1)
]

All-last :
    (P : HoursInput → Type 0) (xs : List HoursInput) (x : HoursInput) → All P (xs ++ x ∷ []) → P x
All-last P [] x h = h.0
All-last P (y ∷ ys) x h = All-last P ys x h.1

same_day_self : (k : ℤ) → same_day k k ≡ true
same_day_self k = ground arith

-- What is known of the spans when the days that they are sorted into are good.
abbrev Sorted : List HoursInput → Days → Type 0
Sorted spans days =
    All (λ x. All (λ a. AreApart a x) (group_of x.weekday days)) spans × Pairs AreCompatible spans

by_day-Sorted :
    (spans : List HoursInput) (days : Days)
    → AreGood (by_day spans days)
    → Sorted spans days × ((k : ℤ) → Pairs AreApart (group_of k days))
unfolding by_day
by_day-Sorted [] days h = ((tt, tt), λ k. AreGood-group_of k days h)
by_day-Sorted (x ∷ rest) days h =
    let ih = by_day-Sorted rest (add_span x days) h in
    let whole =
      subst (Pairs AreApart) (group_of-add_span x.weekday x days (same_day_self x.weekday))
        (ih.1 x.weekday) in
    (
      (
        ((Pairs-append (group_of x.weekday days) x whole).1, All-mono rest (λ y p. old y p) ih.0.0),
        (All-mono rest (λ y p. new y p) ih.0.0, ih.0.1),
      ),
      λ k. group k (ih.1 k),
    )
  where
    old :
        (y : HoursInput)
        → All (λ a. AreApart a y) (group_of y.weekday (add_span x days))
        → All (λ a. AreApart a y) (group_of y.weekday days)
    old y p = elim (Bool-cases (same_day x.weekday y.weekday)) [
      | inl e ↦
          All-append_left (λ a. AreApart a y) (group_of y.weekday days) (x ∷ [])
            (subst (All (λ a. AreApart a y)) (group_of-add_span y.weekday x days e) p)
      | inr e ↦ subst (All (λ a. AreApart a y)) (group_of-add_other y.weekday x days e) p
    ]

    new :
        (y : HoursInput)
        → All (λ a. AreApart a y) (group_of y.weekday (add_span x days))
        → AreCompatible x y
    new y p e =
        All-last (λ a. AreApart a y) (group_of y.weekday days) x
          (subst (All (λ a. AreApart a y)) (group_of-add_span y.weekday x days e) p)

    group :
        (k : ℤ) → Pairs AreApart (group_of k (add_span x days)) → Pairs AreApart (group_of k days)
    group k p = elim (Bool-cases (same_day x.weekday k)) [
      | inl e ↦
          (Pairs-append (group_of k days) x
            (subst (Pairs AreApart) (group_of-add_span k x days e) p)).0
      | inr e ↦ subst (Pairs AreApart) (group_of-add_other k x days e) p
    ]

-- Every span of the map lasts.
add_span-Lasts :
    (span : HoursInput) (days : Days)
    → Lasts span
    → All (λ day. All Lasts day.1) days
    → All (λ day. All Lasts day.1) (add_span span days)
unfolding add_span
add_span-Lasts span [] l h = ((l, tt), tt)
add_span-Lasts span ((day, spans) ∷ rest) l h = elim (Bool-cases (same_day day span.weekday)) [
  | inl e ↦ rw e (All-append Lasts spans (span ∷ []) h.0 (l, tt), h.1)
  | inr e ↦ rw e (h.0, add_span-Lasts span rest l h.1)
]

by_day-Lasts :
    (spans : List HoursInput) (days : Days)
    → All Lasts spans
    → All (λ day. All Lasts day.1) days
    → All (λ day. All Lasts day.1) (by_day spans days)
unfolding by_day
by_day-Lasts [] days l h = h
by_day-Lasts (x ∷ rest) days l h =
    by_day-Lasts rest (add_span x days) l.1 (add_span-Lasts x days l.0 h)

no_clash-AreGood :
    (days : Days)
    → All (λ day. All Lasts day.1) days
    → exists day_clashes days ≡ false
    → AreGood days
unfolding exists day_clashes
no_clash-AreGood [] l h = tt
no_clash-AreGood (day ∷ rest) l h = elim (Bool-cases (day_clashes day)) [
  | inl e ↦ absurd (ground arith)
  | inr e ↦ (
    Pairs-unsort day.1
        (clashes-Pairs (sort_by by_opening day.1) (All-sort_by by_opening Lasts day.1 l.0) e),
    no_clash-AreGood rest l.1 (ground arith),
  )
]

-- If every span closes after it opens and `assertNoOverlap` accepts them, then no two spans of one
-- weekday share a minute.
pub assert_no_overlap-Pairs :
    (spans : List HoursInput)
    → All Lasts spans
    → assert_no_overlap spans ≡ ok tt
    → Pairs AreCompatible spans
unfolding assert_no_overlap
assert_no_overlap-Pairs spans l h =
    let (quiet, _) = refuse_if-ok (exists day_clashes (by_day spans [])) _ _ h in
    (by_day-Sorted spans []
      (no_clash-AreGood (by_day spans []) (by_day-Lasts spans [] l tt) quiet)).0.1
