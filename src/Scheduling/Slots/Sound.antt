-- ===== src/Scheduling/Slots/Sound.antt =====
-- What the slots of `GenerateSlots` promise: every offer is honourable, and every free position of
-- the grid is offered.
use nearby_backend.Prelude.{
  ℕ, ◌+◌, ◌*◌, ◌/◌, ◌≤◌, ◌<◌, ◌≡◌, refl, sym, subst, ◌⊎◌, inl, inr, Bool, true, false, some, List,
  [], ◌∷◌, map, arith, leb, Bool-cases, Option-cases, All, Any, All-mono, Any-mono, All-self,
}
use nearby_backend.Prelude.Int.{pos_part}
use nearby_backend.Prelude.Sort.{by_key, All-sort_by}
use nearby_backend.Scheduling.Models.{
  Uuid, Instant, minute, DayWindow, BusyInterval, Slot, SlotRequest,
}
use nearby_backend.Scheduling.Slots.{
  Found, offer, zone, local_day, busy_of, overlaps_any, scan_of, scan_window, scan_windows, finish,
  entries, add_empties, nothing_found, generate_slots, is_void, to_slot,
}
use nearby_backend.Scheduling.Slots.Keys.{
  Candidates, AllIds, add_id-AllIds, add_empty-AllIds, add_start-All, add_start, add_empty, AllKeys,
  add_id-AllKeys, add_empty-AllKeys,
}
use nearby_backend.Scheduling.Slots.Loop.{position, offer_rule, scan_from_rule, scan_windows_rule}

-- Two half-open ranges have no instant in common.
abbrev pub Apart : Instant → Instant → BusyInterval → Type 0
Apart start end b = (end ≤ b.start) ⊎ (b.end ≤ start)

-- A resource has nothing else to do while the service runs.
abbrev pub IsFree : SlotRequest → Uuid → Instant → Type 0
IsFree req id start =
    All (λ b. b.resource_id ≡ id → Apart start (start + pos_part req.total_duration) b) req.busy

-- A position of a window's grid: inside the window from start to finish, and not too soon.
pub record IsOnGrid (req : SlotRequest) (w : DayWindow) (start : Instant) : Type 0 where
  pub index : ℕ
  pub at :
      start ≡ (zone req).at_minute (local_day req) (w.opens + index * (pos_part req.step / minute))
  pub opened : w.opens < w.closes
  pub begins : (zone req).at_minute (local_day req) w.opens ≤ start
  pub in_time : req.earliest_start ≤ start
  pub ends : start + pos_part req.total_duration ≤ (zone req).at_minute (local_day req) w.closes

-- Some window of the resource has the start on its grid.
abbrev pub IsOpen : SlotRequest → Uuid → Instant → Type 0
IsOpen req id start = Any (λ w. (w.resource_id ≡ id) × IsOnGrid req w start) req.windows

-- Some window has the start on its grid.
abbrev pub IsStart : SlotRequest → Instant → Type 0
IsStart req start = Any (λ w. IsOnGrid req w start) req.windows

overlaps_any-false :
    (start end : Instant) (id : Uuid) (busy : List BusyInterval)
    → overlaps_any start end (busy_of id busy) ≡ false
    → All (λ b. b.resource_id ≡ id → Apart start end b) busy
unfolding overlaps_any busy_of
overlaps_any-false start end id [] h = tt
overlaps_any-false start end id (b ∷ bs) h =
    (λ e. ground arith, overlaps_any-false start end id bs (ground arith))

pub overlaps_any_of_free :
    (start end : Instant) (id : Uuid) (busy : List BusyInterval)
    → All (λ b. b.resource_id ≡ id → Apart start end b) busy
    → overlaps_any start end (busy_of id busy) ≡ false
unfolding overlaps_any busy_of
overlaps_any_of_free start end id [] h = refl
overlaps_any_of_free start end id (b ∷ bs) h =
    ground (arith, h.0, overlaps_any_of_free start end id bs h.1)

-- The invariant of the two maps.
record IsSound (req : SlotRequest) (found : Found) : Type 0 where
  offers : AllIds (λ start id. IsOpen req id start × IsFree req id start) found.candidates
  keys : AllKeys (IsStart req) found.candidates
  starts : All (IsStart req) found.bookable

-- One position of one window's grid.
offer-IsSound :
    (req : SlotRequest) (w : DayWindow) (k : ℕ) (found : Found)
    → Any (λ v. v ≡ w) req.windows
    → w.opens < w.closes
    → position (scan_of req w) k + (scan_of req w).total ≤ (scan_of req w).window_end
    → IsSound req found
    → IsSound req (offer (scan_of req w) (position (scan_of req w) k) found)
unfolding scan_of
offer-IsSound req w k found mine opened fits sound =
    offer_rule (IsSound req) (scan_of req w) start found sound
      (λ begins in_time. record {
        offers = sound.offers;
        keys = sound.keys;
        starts = see (grid begins in_time);
      })
      (λ begins in_time free _. record {
        offers =
            add_id-AllIds (λ s id. IsOpen req id s × IsFree req id s) start w.resource_id
              found.candidates
              (
                Any-mono req.windows
                    (λ v e.
                      subst (λ u. (u.resource_id ≡ w.resource_id) × IsOnGrid req u start) (sym e)
                        (refl, grid begins in_time))
                    mine,
                overlaps_any-false start (start + pos_part req.total_duration) w.resource_id
                    req.busy free,
              )
              sound.offers;
        keys =
            add_id-AllKeys (IsStart req) start w.resource_id found.candidates
              (here (grid begins in_time)) sound.keys;
        starts = see (grid begins in_time);
      })
  where
    start : Instant
    start = position (scan_of req w) k

    grid :
        (zone req).at_minute (local_day req) w.opens ≤ start
        → req.earliest_start ≤ start
        → IsOnGrid req w start
    grid begins in_time = record {
      index = k;
      at = refl;
      opened = opened;
      begins = begins;
      in_time = in_time;
      ends = fits;
    }

    here : IsOnGrid req w start → IsStart req start
    here g = Any-mono req.windows (λ v e. subst (λ u. IsOnGrid req u start) (sym e) g) mine

    see : IsOnGrid req w start → All (IsStart req) (add_start start found.bookable)
    see g = add_start-All (IsStart req) start found.bookable (here g) sound.starts

scan_window-IsSound :
    (fuel : ℕ) (req : SlotRequest) (w : DayWindow) (found found' : Found)
    → Any (λ v. v ≡ w) req.windows
    → scan_window fuel req w found ≡ some found'
    → IsSound req found
    → IsSound req found'
unfolding scan_window
scan_window-IsSound fuel req w found found' mine h sound =
    elim (Bool-cases (leb w.closes w.opens)) [
      | inl shut ↦ subst (IsSound req) (ground arith) sound
      | inr opened ↦
          scan_from_rule (IsSound req) (scan_of req w)
            (λ k f fits. offer-IsSound req w k f mine (ground arith) fits) fuel 0 0 found found'
            (omega arith) (ground arith) sound
    ]

scan_windows-IsSound :
    (fuel : ℕ) (req : SlotRequest) (found : Found)
    → scan_windows fuel req req.windows nothing_found ≡ some found
    → IsSound req found
scan_windows-IsSound fuel req found h =
    scan_windows_rule (IsSound req) req req.windows fuel nothing_found found
      (All-mono req.windows (λ w mine f f' e. scan_window-IsSound fuel req w f f' mine e)
        (All-self req.windows))
      h (record { offers = tt; keys = tt; starts = tt })

-- A slot that keeps its promise.
abbrev pub IsHonest : SlotRequest → Slot → Type 0
IsHonest req slot =
    All (λ id. IsOpen req id slot.starts_at × IsFree req id slot.starts_at) slot.resource_ids
    × IsStart req slot.starts_at

map-to_slot-IsHonest :
    (req : SlotRequest) (c : Candidates)
    → AllIds (λ start id. IsOpen req id start × IsFree req id start) c
    → AllKeys (IsStart req) c
    → All (IsHonest req) (map to_slot c)
map-to_slot-IsHonest req [] h k = tt
map-to_slot-IsHonest req ((start, ids) ∷ rest) h k = (
  (All-sort_by (by_key (λ id. id)) (λ id. IsOpen req id start × IsFree req id start) ids h.0, k.0),
  map-to_slot-IsHonest req rest h.1 k.1,
)

add_empties-IsSound :
    (req : SlotRequest) (starts : List Instant) (c : Candidates)
    → All (IsStart req) starts
    → AllIds (λ start id. IsOpen req id start × IsFree req id start) c
    → AllKeys (IsStart req) c
    → AllIds (λ start id. IsOpen req id start × IsFree req id start) (add_empties starts c)
      × AllKeys (IsStart req) (add_empties starts c)
unfolding add_empties
add_empties-IsSound req [] c q h k = (h, k)
add_empties-IsSound req (start ∷ rest) c q h k =
    add_empties-IsSound req rest (add_empty start c) q.1
      (add_empty-AllIds (λ s id. IsOpen req id s × IsFree req id s) start c h)
      (add_empty-AllKeys (IsStart req) start c q.0 k)

entries-IsHonest :
    (req : SlotRequest) (full : Bool) (found : Found)
    → IsSound req found
    → All (IsHonest req) (map to_slot (entries full found))
unfolding entries
entries-IsHonest req true found sound =
    let both =
      add_empties-IsSound req found.bookable found.candidates sound.starts sound.offers
        sound.keys in
    map-to_slot-IsHonest req (add_empties found.bookable found.candidates) both.0 both.1
entries-IsHonest req false found sound =
    map-to_slot-IsHonest req found.candidates sound.offers sound.keys

finish-IsHonest :
    (req : SlotRequest) (found : Found) → IsSound req found → All (IsHonest req) (finish req found)
unfolding finish
finish-IsHonest req found sound =
    All-sort_by (by_key (λ slot. slot.starts_at)) (IsHonest req)
      (map to_slot (entries req.include_fully_booked found))
      (entries-IsHonest req req.include_fully_booked found sound)

-- Either the request is void and the list empty, or the list comes from the maps of the loops.
pub generate_slots_cases :
    (fuel : ℕ) (req : SlotRequest) (slots : List Slot)
    → generate_slots fuel req ≡ some slots
    → (slots ≡ [])
      ⊎ ((found : Found) × (scan_windows fuel req req.windows nothing_found ≡ some found)
          × (slots ≡ finish req found))
unfolding generate_slots
generate_slots_cases fuel req slots h = elim (Bool-cases (is_void req)) [
  | inl void ↦ inl (ground arith)
  | inr live ↦ elim (Option-cases (scan_windows fuel req req.windows nothing_found)) [
    | inl stuck ↦ absurd (ground arith)
    | inr (found, e) ↦ inr (found, e, ground arith)
  ]
]

-- Every slot that is returned starts on the grid of a window, so the service begins and ends within
-- opening hours and not before the earliest start; and each resource that it lists is open then by a
-- window of its own, and has nothing else to do while the service runs.
pub generate_slots-IsHonest :
    (fuel : ℕ) (req : SlotRequest) (slots : List Slot)
    → generate_slots fuel req ≡ some slots
    → All (IsHonest req) slots
generate_slots-IsHonest fuel req slots h = elim (generate_slots_cases fuel req slots h) [
  | inl none_left ↦ subst (All (IsHonest req)) (sym none_left) tt
  | inr (found, e, same) ↦
      subst (All (IsHonest req)) (sym same)
        (finish-IsHonest req found (scan_windows-IsSound fuel req found e))
]
