-- ===== src/Scheduling/Slots/Loop.antt =====
-- Rules for the loops of `GenerateSlots`: what every grid position keeps holds at the end, and the
-- loops end when the grid steps by whole minutes and the zone's offset is bounded.
use nearby_backend.Prelude.{
  ◌⊎◌, subst, ℕ, zero, suc, ◌+◌, ◌*◌, ◌≤◌, ◌<◌, ◌≡◌, refl, sym, false, none, some, List, [], ◌∷◌,
  inl, inr, arith, ltb, leb, Bool-cases, Option-cases, All, contains,
}
use nearby_backend.Prelude.Int.{pos_part}
use nearby_backend.Scheduling.Models.{Instant, IsBounded, minute, DayWindow, SlotRequest, Slot}
use nearby_backend.Scheduling.Slots.{
  Scan, Found, overlaps_any, nothing_found, is_void, finish, generate_slots, offer, scan_from, zone,
  local_day, scan_of, scan_window, scan_windows,
}
use nearby_backend.Scheduling.Slots.Keys.{add_start, add_id, ids_at}

-- The k-th position of the grid.
abbrev pub position : Scan → ℕ → Instant
position s k = s.start_at (k * s.step_minutes)

next_offset : (k step offset : ℕ) → offset ≡ k * step → offset + step ≡ suc k * step
next_offset k step offset e = grind arith

abbrev pub seen : Instant → Found → Found
seen start found = record found { bookable = add_start start found.bookable }

abbrev pub taken : Scan → Instant → Found → Found
taken s start found = record (seen start found) {
  candidates = add_id start s.resource_id found.candidates;
}

-- What a position can do to the maps: nothing, when it lies outside the window or comes too soon;
-- it is seen; or it is seen and offered, when nothing else occupies the resource and the resource
-- is not there yet.
pub offer_rule :
    (I : Found → Type 0) (s : Scan) (start : Instant) (found : Found)
    → I found
    → (s.window_start ≤ start → s.earliest_start ≤ start → I (seen start found))
    → (s.window_start ≤ start
        → s.earliest_start ≤ start
        → overlaps_any start (start + s.total) s.busy ≡ false
        → contains (ids_at start found.candidates) s.resource_id ≡ false
        → I (taken s start found))
    → I (offer s start found)
unfolding offer
offer_rule I s start found skip see take = elim (Bool-cases (ltb start s.window_start)) [
  | inl out ↦ rw out skip
  | inr inside ↦ rw inside (elim (Bool-cases (ltb start s.earliest_start)) [
    | inl soon ↦ rw soon skip
    | inr late ↦ rw late (elim (Bool-cases (overlaps_any start (start + s.total) s.busy)) [
      | inl busy ↦ rw busy (see (ground arith) (ground arith))
      | inr free ↦
          rw free (elim (Bool-cases (contains (ids_at start found.candidates) s.resource_id)) [
            | inl old ↦ rw old (see (ground arith) (ground arith))
            | inr new ↦ rw new (take (ground arith) (ground arith) free new)
          ])
    ])
  ])
]

-- One round: the loop breaks, or the position is offered and the loop goes on.
pub scan_from_cases :
    (fuel : ℕ) (s : Scan) (offset : ℕ) (found found' : Found)
    → scan_from (suc fuel) s offset found ≡ some found'
    → ((s.window_end < s.start_at offset + s.total) × (found' ≡ found))
      ⊎ ((s.start_at offset + s.total ≤ s.window_end)
          × (scan_from fuel s (offset + s.step_minutes) (offer s (s.start_at offset) found)
              ≡ some found'))
unfolding scan_from
scan_from_cases fuel s offset found found' h = ground arith

module _ (I : Found → Type 0) (s : Scan) where
  -- What each offered position keeps holds when the loop has ended.
  pub scan_from_rule :
      ((k : ℕ) (found : Found)
        → position s k + s.total ≤ s.window_end
        → I found
        → I (offer s (position s k) found))
      → (fuel k offset : ℕ) (found found' : Found) → offset ≡ k * s.step_minutes
      → scan_from fuel s offset found ≡ some found'
      → I found
      → I found'
  unfolding scan_from
  scan_from_rule keep zero k offset found found' e h i = absurd (cc)
  scan_from_rule keep (suc fuel) k offset found found' e h i =
      elim (scan_from_cases fuel s offset found found' h) [
        | inl (late, same) ↦ subst I (sym same) i
        | inr (fits, rest) ↦
            scan_from_rule keep fuel (suc k) (offset + s.step_minutes)
              (offer s (s.start_at offset) found) found' (next_offset k s.step_minutes offset e)
              rest
              (subst (λ o. I (offer s (s.start_at o) found)) (sym e)
                (keep k found (subst (λ o. s.start_at o + s.total ≤ s.window_end) e fits) i))
      ]

module _ (I : Found → Type 0) (req : SlotRequest) where
  pub scan_windows_rule :
      (windows : List DayWindow) (fuel : ℕ) (found found' : Found)
      → All (λ w. (f f' : Found) → scan_window fuel req w f ≡ some f' → I f → I f') windows
      → scan_windows fuel req windows found ≡ some found'
      → I found
      → I found'
  unfolding scan_windows
  scan_windows_rule [] fuel found found' keep h i = subst I (ground arith) i
  scan_windows_rule (w ∷ ws) fuel found found' keep h i =
      elim (Option-cases (scan_window fuel req w found)) [
        | inl stuck ↦ absurd (ground arith)
        | inr (f, e) ↦ scan_windows_rule ws fuel f found' keep.1 (ground arith) (keep.0 found f e i)
      ]

-- The grid reaches the end of the window: past `limit` minutes no position fits.
scan_from_ends :
    (limit fuel : ℕ) (s : Scan) (offset : ℕ) (found : Found)
    → ((m : ℕ) → limit ≤ m → s.window_end < s.start_at m + s.total)
    → 1 ≤ s.step_minutes
    → 1 ≤ fuel
    → limit < offset + fuel
    → (found' : Found) × (scan_from fuel s offset found ≡ some found')
unfolding scan_from
scan_from_ends limit zero s offset found far whole some_fuel h = absurd (omega arith)
scan_from_ends limit (suc fuel) s offset found far whole some_fuel h =
    elim (Bool-cases (ltb s.window_end (s.start_at offset + s.total))) [
      | inl done ↦ (found, rw done)
      | inr more ↦
          let early : offset < limit = ground (arith, far offset) in
          rw more (
            scan_from_ends limit fuel s (offset + s.step_minutes)
              (offer s (s.start_at offset) found) far whole (omega arith) (omega arith))
    ]

-- Minutes past which no start of the window fits, in any zone.
abbrev pub grid_limit : DayWindow → ℕ
grid_limit w = w.closes + 2881

grid_ends :
    (req : SlotRequest) (w : DayWindow)
    → IsBounded (zone req)
    → (m : ℕ) → grid_limit w ≤ m
    → (scan_of req w).window_end < (scan_of req w).start_at m + (scan_of req w).total
unfolding scan_of
grid_ends req w bounded m h =
    omega
      (arith, bounded.late (local_day req) w.closes, bounded.early (local_day req) (w.opens + m))

scan_window_ends :
    (fuel : ℕ) (req : SlotRequest) (w : DayWindow) (found : Found)
    → IsBounded (zone req)
    → minute ≤ pos_part req.step
    → grid_limit w < fuel
    → (found' : Found) × (scan_window fuel req w found ≡ some found')
unfolding scan_window
scan_window_ends fuel req w found bounded whole h = elim (Bool-cases (leb w.closes w.opens)) [
  | inl shut ↦ (found, rw shut)
  | inr opened ↦ rw opened (
      scan_from_ends (grid_limit w) fuel (scan_of req w) 0 found (grid_ends req w bounded)
        (unfold scan_of in omega arith) (omega arith) (omega arith))
]

scan_windows_end :
    (fuel : ℕ) (req : SlotRequest) (windows : List DayWindow) (found : Found)
    → IsBounded (zone req)
    → minute ≤ pos_part req.step
    → All (λ w. grid_limit w < fuel) windows
    → (found' : Found) × (scan_windows fuel req windows found ≡ some found')
unfolding scan_windows
scan_windows_end fuel req [] found bounded whole h = (found, refl)
scan_windows_end fuel req (w ∷ ws) found bounded whole h =
    let (f, e) = scan_window_ends fuel req w found bounded whole h.0 in
    rw (e, scan_windows) (scan_windows_end fuel req ws f bounded whole h.1)

-- With a step of a minute or more, in any zone whose offset stays below a day, slot generation
-- returns a list: 2881 rounds more than the latest closing minute are enough for every window.
pub generate_slots_ends :
    (fuel : ℕ) (req : SlotRequest)
    → IsBounded (zone req)
    → minute ≤ pos_part req.step
    → All (λ w. grid_limit w < fuel) req.windows
    → (slots : List Slot) × (generate_slots fuel req ≡ some slots)
unfolding generate_slots
generate_slots_ends fuel req bounded whole h = elim (Bool-cases (is_void req)) [
  | inl void ↦ ([], rw (void, generate_slots))
  | inr live ↦
      let (found, e) = scan_windows_end fuel req req.windows nothing_found bounded whole h in
      (finish req found, rw (live, e))
]

-- A window whose grid never moves is never left.
stuck_grid :
    (fuel : ℕ) (s : Scan) (found : Found)
    → s.step_minutes ≡ 0
    → s.start_at 0 + s.total ≤ s.window_end
    → scan_from fuel s 0 found ≡ none
unfolding scan_from
stuck_grid zero s found z fits = refl
stuck_grid (suc fuel) s found z fits =
    ground (arith, stuck_grid fuel s (offer s (s.start_at 0) found))

-- A positive step below a minute passes the guard and never moves the grid: when the service fits
-- at the opening of the first window, no fuel is enough.
pub generate_slots_hangs :
    (fuel : ℕ) (req : SlotRequest) (w : DayWindow) (ws : List DayWindow)
    → req.windows ≡ w ∷ ws
    → 0 < pos_part req.step
    → pos_part req.step < minute
    → 0 < pos_part req.total_duration
    → w.opens < w.closes
    → (zone req).at_minute (local_day req) (w.opens + 0) + pos_part req.total_duration
      ≤ (zone req).at_minute (local_day req) w.closes
    → generate_slots fuel req ≡ none
unfolding generate_slots scan_window
generate_slots_hangs fuel req w ws e some_step small some_time opened fits =
    let stuck =
      stuck_grid fuel (scan_of req w) nothing_found (unfold scan_of in omega arith)
        (unfold scan_of in fits) in
    let live : is_void req ≡ false = unfold is_void in ground arith in
    let first : scan_window fuel req w nothing_found ≡ none = ground (arith, stuck) in
    unfold scan_windows in rw (live, e, first)
