-- ===== src/Scheduling/Slots/Order.antt =====
-- The shape of the list that `GenerateSlots` returns: strictly rising starts, each with strictly
-- rising resource ids, and what the flag `IncludeFullyBooked` adds.
use nearby_backend.Prelude.{
  ℕ, ◌≡◌, refl, sym, subst, ◌≢◌, inl, inr, Bool, true, false, some, List, [], ◌∷◌, ◌++◌, map, arith,
  ◌==◌, Bool-cases, All, All-append, contains, leb, is_empty, All-of_each,
}
use nearby_backend.Prelude.Sort.{by_key, Distinct, Ascending, sort_by-Ascending, All-sort_by}
use nearby_backend.Scheduling.Models.{Instant, DayWindow, Slot, SlotRequest}
use nearby_backend.Scheduling.Slots.{
  Scan, Found, offer, scan_of, scan_window, scan_windows, finish, entries, add_empties,
  nothing_found, generate_slots, to_slot,
}
use nearby_backend.Scheduling.Slots.Keys.{Candidates, ids_at, add_id, add_empty}
use nearby_backend.Scheduling.Slots.Loop.{position, offer_rule, scan_from_rule, scan_windows_rule}
use nearby_backend.Scheduling.Slots.Sound.{generate_slots_cases}

abbrev pub KeysDistinct : Candidates → Type 0
KeysDistinct = Distinct (λ entry. entry.0)

abbrev pub IdsDistinct : Candidates → Type 0
IdsDistinct = All (λ entry. Distinct (λ id. id) entry.1)

fresh_key :
    (key id n : ℕ) (c : Candidates)
    → key ≢ n
    → All (λ entry. entry.0 ≢ n) c
    → All (λ entry. entry.0 ≢ n) (add_id key id c)
unfolding add_id
fresh_key key id n [] d h = (d, tt)
fresh_key key id n ((k, ids) ∷ rest) d h = ground (arith, fresh_key key id n rest d h.1)

add_id-Distinct : (key id : ℕ) (c : Candidates) → KeysDistinct c → KeysDistinct (add_id key id c)
unfolding add_id
add_id-Distinct key id [] h = (tt, tt)
add_id-Distinct key id ((k, ids) ∷ rest) h = elim (Bool-cases (k == key)) [
  | inl e ↦ rw e h
  | inr e ↦ rw e (fresh_key key id k rest (ground arith) h.0, add_id-Distinct key id rest h.1)
]

append-Distinct :
    (ids : List ℕ) (id : ℕ)
    → contains ids id ≡ false
    → Distinct (λ i. i) ids
    → Distinct (λ i. i) (ids ++ id ∷ [])
unfolding contains
append-Distinct [] id h d = (tt, tt)
append-Distinct (i ∷ ids) id h d = elim (Bool-cases (i == id)) [
  | inl e ↦ absurd (ground arith)
  | inr e ↦ (
    All-append (λ j. j ≢ i) ids (id ∷ []) d.0 (ground arith, tt),
    append-Distinct ids id (rw e at h) d.1,
  )
]

add_id-IdsDistinct :
    (key id : ℕ) (c : Candidates)
    → contains (ids_at key c) id ≡ false
    → IdsDistinct c
    → IdsDistinct (add_id key id c)
unfolding add_id ids_at
add_id-IdsDistinct key id [] h d = ((tt, tt), tt)
add_id-IdsDistinct key id ((k, ids) ∷ rest) h d = elim (Bool-cases (k == key)) [
  | inl e ↦ rw e (append-Distinct ids id (rw e at h) d.0, d.1)
  | inr e ↦ rw e (d.0, add_id-IdsDistinct key id rest (rw e at h) d.1)
]

abbrev pub IdsSome : Candidates → Type 0
IdsSome = All (λ entry. is_empty entry.1 ≡ false)

append_some : (ids : List ℕ) (id : ℕ) → is_empty (ids ++ id ∷ []) ≡ false
append_some [] id = refl
append_some (i ∷ ids) id = refl

add_id-IdsSome : (key id : ℕ) (c : Candidates) → IdsSome c → IdsSome (add_id key id c)
unfolding add_id
add_id-IdsSome key id [] h = (refl, tt)
add_id-IdsSome key id ((k, ids) ∷ rest) h =
    ground (arith, append_some ids id, add_id-IdsSome key id rest h.1)

-- The shape of the map of candidates.
pub record IsShaped (found : Found) : Type 0 where
  pub keys : KeysDistinct found.candidates
  pub ids : IdsDistinct found.candidates
  pub some_ids : IdsSome found.candidates

offer-IsShaped :
    (s : Scan) (start : Instant) (found : Found) → IsShaped found → IsShaped (offer s start found)
offer-IsShaped s start found h =
    offer_rule IsShaped s start found h
      (λ _ _. record { keys = h.keys; ids = h.ids; some_ids = h.some_ids })
      (λ _ _ _ new. record {
        keys = add_id-Distinct start s.resource_id found.candidates h.keys;
        ids = add_id-IdsDistinct start s.resource_id found.candidates new h.ids;
        some_ids = add_id-IdsSome start s.resource_id found.candidates h.some_ids;
      })

scan_window-IsShaped :
    (fuel : ℕ) (req : SlotRequest) (w : DayWindow) (f f' : Found)
    → scan_window fuel req w f ≡ some f'
    → IsShaped f
    → IsShaped f'
unfolding scan_window
scan_window-IsShaped fuel req w f f' h i = elim (Bool-cases (leb w.closes w.opens)) [
  | inl shut ↦ let same : f ≡ f' = ground arith in subst IsShaped same i
  | inr opened ↦
      scan_from_rule IsShaped (scan_of req w)
        (λ k x _. offer-IsShaped (scan_of req w) (position (scan_of req w) k) x) fuel 0 0 f f'
        (omega arith) (ground arith) i
]

pub found-IsShaped :
    (fuel : ℕ) (req : SlotRequest) (found : Found)
    → scan_windows fuel req req.windows nothing_found ≡ some found
    → IsShaped found
found-IsShaped fuel req found h =
    scan_windows_rule IsShaped req req.windows fuel nothing_found found
      (All-of_each req.windows (λ w. scan_window-IsShaped fuel req w)) h
      (record { keys = tt; ids = tt; some_ids = tt })

fresh_empty :
    (key n : ℕ) (c : Candidates)
    → key ≢ n
    → All (λ entry. entry.0 ≢ n) c
    → All (λ entry. entry.0 ≢ n) (add_empty key c)
unfolding add_empty
fresh_empty key n [] d h = (d, tt)
fresh_empty key n ((k, ids) ∷ rest) d h = ground (arith, fresh_empty key n rest d h.1)

add_empty-Distinct : (key : ℕ) (c : Candidates) → KeysDistinct c → KeysDistinct (add_empty key c)
unfolding add_empty
add_empty-Distinct key [] h = (tt, tt)
add_empty-Distinct key ((k, ids) ∷ rest) h = elim (Bool-cases (k == key)) [
  | inl e ↦ rw e h
  | inr e ↦ rw e (fresh_empty key k rest (ground arith) h.0, add_empty-Distinct key rest h.1)
]

add_empty-IdsDistinct : (key : ℕ) (c : Candidates) → IdsDistinct c → IdsDistinct (add_empty key c)
unfolding add_empty
add_empty-IdsDistinct key [] h = (tt, tt)
add_empty-IdsDistinct key ((k, ids) ∷ rest) h = elim (Bool-cases (k == key)) [
  | inl e ↦ rw e h
  | inr e ↦ rw e (h.0, add_empty-IdsDistinct key rest h.1)
]

add_empties-Distinct :
    (keys : List ℕ) (c : Candidates)
    → KeysDistinct c
    → IdsDistinct c
    → KeysDistinct (add_empties keys c) × IdsDistinct (add_empties keys c)
unfolding add_empties
add_empties-Distinct [] c h d = (h, d)
add_empties-Distinct (k ∷ ks) c h d =
    add_empties-Distinct ks (add_empty k c) (add_empty-Distinct k c h) (add_empty-IdsDistinct k c d)

entries-Distinct :
    (full : Bool) (found : Found)
    → IsShaped found
    → KeysDistinct (entries full found) × IdsDistinct (entries full found)
unfolding entries
entries-Distinct true found h = add_empties-Distinct found.bookable found.candidates h.keys h.ids
entries-Distinct false found h = (h.keys, h.ids)

other_starts :
    (n : ℕ) (c : Candidates)
    → All (λ entry. entry.0 ≢ n) c
    → All (λ slot. slot.starts_at ≢ n) (map to_slot c)
other_starts n [] h = tt
other_starts n ((k, ids) ∷ rest) h = (h.0, other_starts n rest h.1)

map-to_slot-Distinct :
    (c : Candidates) → KeysDistinct c → Distinct (λ slot. slot.starts_at) (map to_slot c)
map-to_slot-Distinct [] h = tt
map-to_slot-Distinct ((k, ids) ∷ rest) h = (other_starts k rest h.0, map-to_slot-Distinct rest h.1)

abbrev pub IdsAscend : Slot → Type 0
IdsAscend slot = Ascending (λ id. id) slot.resource_ids

map-to_slot-IdsAscend : (c : Candidates) → IdsDistinct c → All IdsAscend (map to_slot c)
map-to_slot-IdsAscend [] h = tt
map-to_slot-IdsAscend ((k, ids) ∷ rest) h =
    (sort_by-Ascending (λ id. id) ids h.0, map-to_slot-IdsAscend rest h.1)

finish-Ascending :
    (req : SlotRequest) (found : Found)
    → IsShaped found
    → Ascending (λ slot. slot.starts_at) (finish req found) × All IdsAscend (finish req found)
unfolding finish
finish-Ascending req found h =
    let all = entries req.include_fully_booked found in
    let d = entries-Distinct req.include_fully_booked found h in
    (
      sort_by-Ascending (λ slot. slot.starts_at) (map to_slot all) (map-to_slot-Distinct all d.0),
      All-sort_by (by_key (λ slot. slot.starts_at)) IdsAscend (map to_slot all)
          (map-to_slot-IdsAscend all d.1),
    )

-- The slots are in strict order of their starts, so no start is returned twice, and the resource ids
-- of each slot are in strict order, so no resource is listed twice.
pub generate_slots-Ascending :
    (fuel : ℕ) (req : SlotRequest) (slots : List Slot)
    → generate_slots fuel req ≡ some slots
    → Ascending (λ slot. slot.starts_at) slots × All IdsAscend slots
generate_slots-Ascending fuel req slots h = elim (generate_slots_cases fuel req slots h) [
  | inl none_left ↦
      subst (λ l. Ascending (λ slot. slot.starts_at) l × All IdsAscend l) (sym none_left) (tt, tt)
  | inr (found, e, same) ↦
      subst (λ l. Ascending (λ slot. slot.starts_at) l × All IdsAscend l) (sym same)
        (finish-Ascending req found (found-IsShaped fuel req found e))
]
