-- ===== src/Scheduling/Slots/Booked.antt =====
-- What `IncludeFullyBooked` changes: without it every slot can be taken; with it every position of
-- the grid is returned, free or not, so a start that is missing lies outside the opening hours.
use nearby_backend.Prelude.{
  ℕ, ◌+◌, ◌≤◌, ◌<◌, ◌≡◌, refl, sym, subst, inl, inr, Bool, true, false, some, List, [], ◌∷◌, map,
  arith, ltb, leb, ◌==◌, ==_iff, Bool-cases, All, Any, Any-append_left, Any-append_right, contains,
  is_empty,
}
use nearby_backend.Prelude.Int.{pos_part}
use nearby_backend.Prelude.Sort.{sort_by, insert_by, by_key, All-sort_by, Any-sort_by}
use nearby_backend.Scheduling.Models.{Instant, DayWindow, Slot, SlotRequest}
use nearby_backend.Scheduling.Slots.{
  Scan, Found, overlaps_any, offer, scan_of, scan_window, finish, entries, add_empties,
  nothing_found, generate_slots, to_slot,
}
use nearby_backend.Scheduling.Slots.Keys.{Candidates, ids_at, add_empty, add_start}
use nearby_backend.Scheduling.Slots.Loop.{position, offer_rule, scan_from_rule}
use nearby_backend.Scheduling.Slots.Sound.{IsOnGrid, generate_slots_cases}
use nearby_backend.Scheduling.Slots.Order.{IsShaped, IdsSome, found-IsShaped}
use nearby_backend.Scheduling.Slots.Complete.{
  FitsBefore, scan_from_reaches, scan_windows_reach, generate_slots_live, contains-Any,
}

insert_by-some : (le : ℕ → ℕ → Bool) (x : ℕ) (xs : List ℕ) → is_empty (insert_by le x xs) ≡ false
unfolding insert_by
insert_by-some le x [] = refl
insert_by-some le x (y ∷ ys) = ground arith

sort_by-some :
    (le : ℕ → ℕ → Bool) (xs : List ℕ) → is_empty xs ≡ false → is_empty (sort_by le xs) ≡ false
unfolding sort_by
sort_by-some le [] h = h
sort_by-some le (x ∷ xs) h = insert_by-some le x (sort_by le xs)

abbrev pub CanBeTaken : Slot → Type 0
CanBeTaken slot = is_empty slot.resource_ids ≡ false

map-to_slot-CanBeTaken : (c : Candidates) → IdsSome c → All CanBeTaken (map to_slot c)
map-to_slot-CanBeTaken [] h = tt
map-to_slot-CanBeTaken ((k, ids) ∷ rest) h =
    (sort_by-some (by_key (λ id. id)) ids h.0, map-to_slot-CanBeTaken rest h.1)

finish-CanBeTaken :
    (req : SlotRequest) (found : Found)
    → IsShaped found
    → req.include_fully_booked ≡ false
    → All CanBeTaken (finish req found)
unfolding finish
finish-CanBeTaken req found h browse = All-sort_by (by_key (λ slot. slot.starts_at)) CanBeTaken _ (
    subst (λ b. All CanBeTaken (map to_slot (entries b found))) (sym browse)
      (unfold entries in map-to_slot-CanBeTaken found.candidates h.some_ids))

-- A request that does not ask for fully booked positions gets slots with a resource each.
pub generate_slots-CanBeTaken :
    (fuel : ℕ) (req : SlotRequest) (slots : List Slot)
    → req.include_fully_booked ≡ false
    → generate_slots fuel req ≡ some slots
    → All CanBeTaken slots
generate_slots-CanBeTaken fuel req slots browse h = elim (generate_slots_cases fuel req slots h) [
  | inl none_left ↦ subst (All CanBeTaken) (sym none_left) tt
  | inr (found, e, same) ↦
      subst (All CanBeTaken) (sym same)
        (finish-CanBeTaken req found (found-IsShaped fuel req found e) browse)
]

-- The start is among those of the grid that the loops have seen.
abbrev Seen : Instant → Found → Type 0
Seen start found = Any (λ b. b ≡ start) found.bookable

add_start-keeps :
    (start key : ℕ) (starts : List ℕ)
    → Any (λ b. b ≡ start) starts
    → Any (λ b. b ≡ start) (add_start key starts)
unfolding add_start
add_start-keeps start key starts h = elim (Bool-cases (contains starts key)) [
  | inl old ↦ rw old h
  | inr new ↦ rw new (Any-append_left (λ b. b ≡ start) starts (key ∷ []) h)
]

add_start-adds : (key : ℕ) (starts : List ℕ) → Any (λ b. b ≡ key) (add_start key starts)
unfolding add_start
add_start-adds key starts = elim (Bool-cases (contains starts key)) [
  | inl old ↦ rw old (contains-Any starts key old)
  | inr new ↦ rw new (Any-append_right (λ b. b ≡ key) starts (key ∷ []) (inl refl))
]

offer-keeps_Seen :
    (start : Instant) (s : Scan) (at : Instant) (found : Found)
    → Seen start found
    → Seen start (offer s at found)
offer-keeps_Seen start s at found h =
    offer_rule (Seen start) s at found h (λ _ _. add_start-keeps start at found.bookable h)
      (λ _ _ _ _. add_start-keeps start at found.bookable h)

offer-sees :
    (s : Scan) (start : Instant) (found : Found)
    → s.window_start ≤ start
    → s.earliest_start ≤ start
    → Seen start (offer s start found)
unfolding offer
offer-sees s start found begins in_time =
    let inside : ltb start s.window_start ≡ false = ground arith in
    let late : ltb start s.earliest_start ≡ false = ground arith in
    rw (inside, late)
      (elim (Bool-cases (overlaps_any start (start + s.total) s.busy)) [
        | inl busy ↦ rw busy (add_start-adds start found.bookable)
        | inr free ↦
            rw free (elim (Bool-cases (contains (ids_at start found.candidates) s.resource_id)) [
              | inl old ↦ rw old (add_start-adds start found.bookable)
              | inr new ↦ rw new (add_start-adds start found.bookable)
            ])
      ])

scan_window-sees :
    (fuel : ℕ) (req : SlotRequest) (w : DayWindow) (start : Instant) (g : IsOnGrid req w start)
    → FitsBefore req w g.index
    → (f f' : Found) → scan_window fuel req w f ≡ some f'
    → Seen start f'
unfolding scan_window scan_of
scan_window-sees fuel req w start g fit f f' h =
    scan_from_reaches (Seen start) (scan_of req w) g.index fit
      (λ x.
        subst (λ at. Seen start (offer (scan_of req w) at x)) g.at
          (offer-sees (scan_of req w) start x g.begins g.in_time))
      (λ at x. offer-keeps_Seen start (scan_of req w) at x) fuel 0 0 f f' (omega arith)
      (omega arith) (ground (arith, g.opened))

scan_window-keeps_Seen :
    (fuel : ℕ) (req : SlotRequest) (start : Instant) (v : DayWindow) (f f' : Found)
    → scan_window fuel req v f ≡ some f'
    → Seen start f
    → Seen start f'
unfolding scan_window
scan_window-keeps_Seen fuel req start v f f' h i = elim (Bool-cases (leb v.closes v.opens)) [
  | inl shut ↦ let same : f ≡ f' = ground arith in subst (Seen start) same i
  | inr opened ↦
      scan_from_rule (Seen start) (scan_of req v)
        (λ k x _. offer-keeps_Seen start (scan_of req v) (position (scan_of req v) k) x) fuel 0 0 f
        f' (omega arith) (ground arith) i
]

abbrev HasKey : Instant → Candidates → Type 0
HasKey start = Any (λ entry. entry.0 ≡ start)

add_empty-adds : (key : ℕ) (c : Candidates) → HasKey key (add_empty key c)
unfolding add_empty
add_empty-adds key [] = inl refl
add_empty-adds key ((k, ids) ∷ rest) = elim (Bool-cases (k == key)) [
  | inl e ↦ rw e (inl ((==_iff k key).0 e))
  | inr e ↦ rw e (inr (add_empty-adds key rest))
]

add_empty-keeps_key :
    (start key : ℕ) (c : Candidates) → HasKey start c → HasKey start (add_empty key c)
unfolding add_empty
add_empty-keeps_key start key [] h = elim h [ ]
add_empty-keeps_key start key ((k, ids) ∷ rest) h = elim (Bool-cases (k == key)) [
  | inl e ↦ rw e h
  | inr e ↦ rw e (elim h [ inl p ↦ inl p | inr q ↦ inr (add_empty-keeps_key start key rest q) ])
]

add_empties-keep_key :
    (start : ℕ) (keys : List ℕ) (c : Candidates)
    → HasKey start c
    → HasKey start (add_empties keys c)
unfolding add_empties
add_empties-keep_key start [] c h = h
add_empties-keep_key start (k ∷ ks) c h =
    add_empties-keep_key start ks (add_empty k c) (add_empty-keeps_key start k c h)

add_empties-add :
    (start : ℕ) (keys : List ℕ) (c : Candidates)
    → Any (λ b. b ≡ start) keys
    → HasKey start (add_empties keys c)
unfolding add_empties
add_empties-add start [] c h = elim h [ ]
add_empties-add start (k ∷ ks) c (inl e) =
    add_empties-keep_key start ks (add_empty k c)
      (subst (λ n. HasKey n (add_empty k c)) e (add_empty-adds k c))
add_empties-add start (k ∷ ks) c (inr later) = add_empties-add start ks (add_empty k c) later

map-to_slot-starts :
    (start : ℕ) (c : Candidates)
    → HasKey start c
    → Any (λ slot. slot.starts_at ≡ start) (map to_slot c)
map-to_slot-starts start [] h = elim h [ ]
map-to_slot-starts start ((k, ids) ∷ rest) (inl p) = inl p
map-to_slot-starts start ((k, ids) ∷ rest) (inr q) = inr (map-to_slot-starts start rest q)

finish-starts :
    (req : SlotRequest) (start : Instant) (found : Found)
    → req.include_fully_booked ≡ true
    → Seen start found
    → Any (λ slot. slot.starts_at ≡ start) (finish req found)
unfolding finish
finish-starts req start found full h =
    Any-sort_by (by_key (λ slot. slot.starts_at)) (λ slot. slot.starts_at ≡ start) _
      (subst (λ b. Any (λ slot. slot.starts_at ≡ start) (map to_slot (entries b found))) (sym full)
        (unfold entries in
          map-to_slot-starts start (add_empties found.bookable found.candidates)
            (add_empties-add start found.bookable found.candidates h)))

-- For a request with a positive duration and step that includes fully booked positions: every position of a window's grid up to which every position
-- fits is the start of a slot, whether or not a resource is free then.
pub generate_slots-covers_grid :
    (fuel : ℕ) (req : SlotRequest) (w : DayWindow) (start : Instant) (slots : List Slot)
    → Any (λ v. v ≡ w) req.windows
    → (g : IsOnGrid req w start) → FitsBefore req w g.index
    → req.include_fully_booked ≡ true
    → 0 < pos_part req.total_duration
    → 0 < pos_part req.step
    → generate_slots fuel req ≡ some slots
    → Any (λ slot. slot.starts_at ≡ start) slots
generate_slots-covers_grid fuel req w start slots m g fit full some_time some_step h =
    let (found, e, same) = generate_slots_live fuel req w slots m some_time some_step h in
    subst (Any (λ slot. slot.starts_at ≡ start)) (sym same) (
      finish-starts req start found full (
        scan_windows_reach (Seen start) req fuel w
          (λ f f'. scan_window-sees fuel req w start g fit f f')
          (λ v f f'. scan_window-keeps_Seen fuel req start v f f') req.windows nothing_found found m
          e))
