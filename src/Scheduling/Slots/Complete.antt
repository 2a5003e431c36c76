-- ===== src/Scheduling/Slots/Complete.antt =====
-- `GenerateSlots` leaves out nothing that can be taken: every free position of a window's grid is
-- offered with the window's resource.
use nearby_backend.Prelude.{
  ℕ, zero, suc, ◌+◌, ◌*◌, ◌/◌, ◌≤◌, ◌<◌, ◌≡◌, refl, sym, subst, ap, ◌∙◌, inl, inr, Bool, true,
  false, some, List, [], ◌∷◌, map, arith, ltb, leb, ◌==◌, ==_iff, Bool-cases, Option-cases, Any,
  All-of_each, Any-append_left, Any-append_right, contains, is_empty,
}
use native.Mathlib.Decide.{ℕ_discrete}
use nearby_backend.Prelude.Int.{pos_part}
use nearby_backend.Prelude.Sort.{by_key, Any-sort_by}
use nearby_backend.Scheduling.Models.{Uuid, Instant, minute, DayWindow, Slot, SlotRequest}
use nearby_backend.Scheduling.Slots.{
  Scan, Found, offer, scan_from, zone, local_day, overlaps_any, scan_of, scan_window, scan_windows,
  finish, entries, add_empties, nothing_found, generate_slots, is_void, to_slot,
}
use nearby_backend.Scheduling.Slots.Keys.{Candidates, ids_at, add_id, add_empty}
use nearby_backend.Scheduling.Slots.Loop.{
  position, offer_rule, scan_from_rule, scan_from_cases, scan_windows_rule,
}
use nearby_backend.Scheduling.Slots.Sound.{IsFree, IsOnGrid, overlaps_any_of_free}

-- The map offers the resource at the start.
abbrev Offers : Instant → Uuid → Candidates → Type 0
Offers start id = Any (λ entry. (entry.0 ≡ start) × Any (λ i. i ≡ id) entry.1)

add_id-keeps :
    (start : Instant) (id : Uuid) (key : ℕ) (new : Uuid) (c : Candidates)
    → Offers start id c
    → Offers start id (add_id key new c)
unfolding add_id
add_id-keeps start id key new [] h = elim h [ ]
add_id-keeps start id key new ((k, ids) ∷ rest) h = elim (Bool-cases (k == key)) [
  | inl e ↦ rw e (elim h [
    | inl p ↦ inl (p.0, Any-append_left (λ i. i ≡ id) ids (new ∷ []) p.1)
    | inr q ↦ inr q
  ])
  | inr e ↦ rw e (elim h [ inl p ↦ inl p | inr q ↦ inr (add_id-keeps start id key new rest q) ])
]

add_id-Offers : (key : ℕ) (id : Uuid) (c : Candidates) → Offers key id (add_id key id c)
unfolding add_id
add_id-Offers key id [] = inl (refl, inl refl)
add_id-Offers key id ((k, ids) ∷ rest) = elim (Bool-cases (k == key)) [
  | inl e ↦ rw e (inl ((==_iff k key).0 e, Any-append_right (λ i. i ≡ id) ids (id ∷ []) (inl refl)))
  | inr e ↦ rw e (inr (add_id-Offers key id rest))
]

add_empty-keeps :
    (start : Instant) (id : Uuid) (key : ℕ) (c : Candidates)
    → Offers start id c
    → Offers start id (add_empty key c)
unfolding add_empty
add_empty-keeps start id key [] h = elim h [ ]
add_empty-keeps start id key ((k, ids) ∷ rest) h = elim (Bool-cases (k == key)) [
  | inl e ↦ rw e h
  | inr e ↦ rw e (elim h [ inl p ↦ inl p | inr q ↦ inr (add_empty-keeps start id key rest q) ])
]

add_empties-keep :
    (start : Instant) (id : Uuid) (keys : List ℕ) (c : Candidates)
    → Offers start id c
    → Offers start id (add_empties keys c)
unfolding add_empties
add_empties-keep start id [] c h = h
add_empties-keep start id (k ∷ ks) c h =
    add_empties-keep start id ks (add_empty k c) (add_empty-keeps start id k c h)

pub contains-Any : (ids : List ℕ) (id : ℕ) → contains ids id ≡ true → Any (λ i. i ≡ id) ids
unfolding contains
contains-Any [] id h = absurd (cc)
contains-Any (i ∷ ids) id h = elim (Bool-cases (i == id)) [
  | inl e ↦ inl ((==_iff i id).0 e)
  | inr e ↦ inr (contains-Any ids id (ground arith))
]

Offers-of_contains :
    (key : ℕ) (id : Uuid) (c : Candidates) → contains (ids_at key c) id ≡ true → Offers key id c
unfolding ids_at
Offers-of_contains key id [] h = absurd (unfold contains in cc)
Offers-of_contains key id ((k, ids) ∷ rest) h = elim (Bool-cases (k == key)) [
  | inl e ↦ inl ((==_iff k key).0 e, contains-Any ids id (rw e at h))
  | inr e ↦ inr (Offers-of_contains key id rest (rw e at h))
]

-- Once offered, always offered.
offer-keeps :
    (start : Instant) (id : Uuid) (s : Scan) (at : Instant) (found : Found)
    → Offers start id found.candidates
    → Offers start id (offer s at found).candidates
offer-keeps start id s at found h =
    offer_rule (λ f. Offers start id f.candidates) s at found h (λ _ _. h)
      (λ _ _ _ _. add_id-keeps start id at s.resource_id found.candidates h)

offer-Offers :
    (s : Scan) (start : Instant) (found : Found)
    → s.window_start ≤ start
    → s.earliest_start ≤ start
    → overlaps_any start (start + s.total) s.busy ≡ false
    → Offers start s.resource_id (offer s start found).candidates
unfolding offer
offer-Offers s start found begins in_time free =
    let inside : ltb start s.window_start ≡ false = ground arith in
    let late : ltb start s.earliest_start ≡ false = ground arith in
    rw (inside, late, free)
      (elim (Bool-cases (contains (ids_at start found.candidates) s.resource_id)) [
        | inl old ↦ rw old (Offers-of_contains start s.resource_id found.candidates old)
        | inr new ↦ rw new (add_id-Offers start s.resource_id found.candidates)
      ])

-- The loop comes to a position when all before it fit, and what it does there stays.
pub scan_from_reaches :
    (I : Found → Type 0) (s : Scan) (k : ℕ)
    → ((j : ℕ) → j ≤ k → position s j + s.total ≤ s.window_end)
    → ((found : Found) → I (offer s (position s k) found))
    → ((at : Instant) (found : Found) → I found → I (offer s at found))
    → (fuel j offset : ℕ) (found found' : Found) → offset ≡ j * s.step_minutes
    → j ≤ k
    → scan_from fuel s offset found ≡ some found'
    → I found'
scan_from_reaches I s k fit here keep zero j offset found found' e le h =
    absurd (unfold scan_from in cc)
scan_from_reaches I s k fit here keep (suc fuel) j offset found found' e le h =
    elim (scan_from_cases fuel s offset found found' h) [
      | inl (late, same) ↦ absurd (omega (arith, fit j le, ap (λ o. s.start_at o) e))
      | inr (fits, rest) ↦ elim (ℕ_discrete j k) [
        | yes same ↦
            scan_from_rule I s (λ i f _. keep (position s i) f) fuel (suc k)
              (offset + s.step_minutes) (offer s (s.start_at offset) found) found' (grind arith)
              rest
              (subst (λ o. I (offer s (s.start_at o) found))
                (sym (e ∙ ap (λ i. i * s.step_minutes) same)) (here found))
        | no differ ↦
            scan_from_reaches I s k fit here keep fuel (suc j) (offset + s.step_minutes)
              (offer s (s.start_at offset) found) found' (grind arith) (omega arith) rest
      ]
    ]

pub scan_windows_reach :
    (I : Found → Type 0) (req : SlotRequest) (fuel : ℕ) (w : DayWindow)
    → ((f f' : Found) → scan_window fuel req w f ≡ some f' → I f')
    → ((v : DayWindow) (f f' : Found) → scan_window fuel req v f ≡ some f' → I f → I f')
    → (windows : List DayWindow) (found found' : Found) → Any (λ v. v ≡ w) windows
    → scan_windows fuel req windows found ≡ some found'
    → I found'
unfolding scan_windows
scan_windows_reach I req fuel w here keep [] found found' m h = elim m [ ]
scan_windows_reach I req fuel w here keep (v ∷ vs) found found' m h =
    elim (Option-cases (scan_window fuel req v found)) [
      | inl stuck ↦ absurd (ground arith)
      | inr (f, e) ↦ elim m [
        | inl same ↦
            scan_windows_rule I req vs fuel f found' (All-of_each vs (λ u. keep u)) (ground arith)
              (here found f (subst (λ u. scan_window fuel req u found ≡ some f) same e))
        | inr later ↦ scan_windows_reach I req fuel w here keep vs f found' later (ground arith)
      ]
    ]

-- The positions before one fit into the window too. In a zone that does not change its offset on
-- the day this follows from the position itself.
abbrev pub FitsBefore : SlotRequest → DayWindow → ℕ → Type 0
FitsBefore req w index =
    (j : ℕ)
    → j ≤ index
    → (zone req).at_minute (local_day req) (w.opens + j * (pos_part req.step / minute))
        + pos_part req.total_duration
      ≤ (zone req).at_minute (local_day req) w.closes

offer_window :
    (req : SlotRequest) (w : DayWindow) (start : Instant)
    → (g : IsOnGrid req w start) → IsFree req w.resource_id start
    → (f : Found)
    → Offers start w.resource_id
        (offer (scan_of req w) (position (scan_of req w) g.index) f).candidates
unfolding scan_of
offer_window req w start g free f =
    subst (λ at. Offers start w.resource_id (offer (scan_of req w) at f).candidates) g.at
      (offer-Offers (scan_of req w) start f g.begins g.in_time (
        overlaps_any_of_free start (start + pos_part req.total_duration) w.resource_id req.busy
          free))

scan_window-Offers :
    (fuel : ℕ) (req : SlotRequest) (w : DayWindow) (start : Instant) (g : IsOnGrid req w start)
    → FitsBefore req w g.index
    → IsFree req w.resource_id start
    → (f f' : Found) → scan_window fuel req w f ≡ some f'
    → Offers start w.resource_id f'.candidates
unfolding scan_window
scan_window-Offers fuel req w start g fit free f f' h =
    scan_from_reaches (λ x. Offers start w.resource_id x.candidates) (scan_of req w) g.index
      (unfold scan_of in fit) (offer_window req w start g free)
      (λ at x. offer-keeps start w.resource_id (scan_of req w) at x) fuel 0 0 f f' (omega arith)
      (omega arith) (ground (arith, g.opened))

scan_window-keeps :
    (fuel : ℕ) (req : SlotRequest) (start : Instant) (id : Uuid) (v : DayWindow) (f f' : Found)
    → scan_window fuel req v f ≡ some f'
    → Offers start id f.candidates
    → Offers start id f'.candidates
unfolding scan_window
scan_window-keeps fuel req start id v f f' h i = elim (Bool-cases (leb v.closes v.opens)) [
  | inl shut ↦ let same : f ≡ f' = ground arith in subst (λ x. Offers start id x.candidates) same i
  | inr opened ↦
      scan_from_rule (λ x. Offers start id x.candidates) (scan_of req v)
        (λ k x _. offer-keeps start id (scan_of req v) (position (scan_of req v) k) x) fuel 0 0 f f'
        (omega arith) (ground arith) i
]

-- A slot that lets the resource be taken at the start.
abbrev pub Lists : Instant → Uuid → Slot → Type 0
Lists start id slot = (slot.starts_at ≡ start) × Any (λ i. i ≡ id) slot.resource_ids

map-to_slot-Lists :
    (start : Instant) (id : Uuid) (c : Candidates)
    → Offers start id c
    → Any (Lists start id) (map to_slot c)
map-to_slot-Lists start id [] h = elim h [ ]
map-to_slot-Lists start id ((k, ids) ∷ rest) (inl p) =
    inl (p.0, Any-sort_by (by_key (λ i. i)) (λ i. i ≡ id) ids p.1)
map-to_slot-Lists start id ((k, ids) ∷ rest) (inr q) = inr (map-to_slot-Lists start id rest q)

entries-keep :
    (start : Instant) (id : Uuid) (full : Bool) (found : Found)
    → Offers start id found.candidates
    → Offers start id (entries full found)
unfolding entries
entries-keep start id true found h = add_empties-keep start id found.bookable found.candidates h
entries-keep start id false found h = h

finish-Lists :
    (req : SlotRequest) (start : Instant) (id : Uuid) (found : Found)
    → Offers start id found.candidates
    → Any (Lists start id) (finish req found)
unfolding finish
finish-Lists req start id found h =
    Any-sort_by (by_key (λ slot. slot.starts_at)) (Lists start id)
      (map to_slot (entries req.include_fully_booked found))
      (map-to_slot-Lists start id (entries req.include_fully_booked found)
        (entries-keep start id req.include_fully_booked found h))

some_window : (w : DayWindow) (ws : List DayWindow) → Any (λ v. v ≡ w) ws → is_empty ws ≡ false
some_window w [] h = elim h [ ]
some_window w (v ∷ vs) h = refl

-- A request that is not void gets its list from the maps of the loops.
pub generate_slots_live :
    (fuel : ℕ) (req : SlotRequest) (w : DayWindow) (slots : List Slot)
    → Any (λ v. v ≡ w) req.windows
    → 0 < pos_part req.total_duration
    → 0 < pos_part req.step
    → generate_slots fuel req ≡ some slots
    → (found : Found) × (scan_windows fuel req req.windows nothing_found ≡ some found)
      × (slots ≡ finish req found)
unfolding generate_slots
generate_slots_live fuel req w slots m some_time some_step h =
    let live : is_void req ≡ false =
      unfold is_void in ground (arith, some_window w req.windows m) in
    elim (Option-cases (scan_windows fuel req req.windows nothing_found)) [
      | inl stuck ↦ absurd (ground (arith, live))
      | inr (found, e) ↦ (found, e, ground (arith, live))
    ]

-- For a request with a positive duration and step: a position of the grid of one of its windows, up to which every position fits, at which
-- the window's resource is free, is returned in a slot that lists the resource.
pub generate_slots_complete :
    (fuel : ℕ) (req : SlotRequest) (w : DayWindow) (start : Instant) (slots : List Slot)
    → Any (λ v. v ≡ w) req.windows
    → (g : IsOnGrid req w start) → FitsBefore req w g.index
    → IsFree req w.resource_id start
    → 0 < pos_part req.total_duration
    → 0 < pos_part req.step
    → generate_slots fuel req ≡ some slots
    → Any (Lists start w.resource_id) slots
generate_slots_complete fuel req w start slots m g fit free some_time some_step h =
    let (found, e, same) = generate_slots_live fuel req w slots m some_time some_step h in
    subst (Any (Lists start w.resource_id)) (sym same) (
      finish-Lists req start w.resource_id found (
        scan_windows_reach (λ (f : Found). Offers start w.resource_id f.candidates) req fuel w
          (λ f f'. scan_window-Offers fuel req w start g fit free f f')
          (λ v f f'. scan_window-keeps fuel req start w.resource_id v f f') req.windows
          nothing_found found m e))
