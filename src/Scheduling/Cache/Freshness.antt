-- ===== src/Scheduling/Cache/Freshness.antt =====
-- What the cache of internal/scheduling/cache.go promises: its reverse index covers every entry, so
-- that a provider's entries can be dropped, and an expired entry is never handed out.
use nearby_backend.Prelude.{
  ℕ, ◌≤◌, ◌≡◌, refl, ap, subst, sym, ◌≢◌, ◌⊎◌, inl, inr, Bool, true, false, ◌&&◌, not, some, List,
  [], ◌∷◌, ltb, ◌==◌, select, find, arith, Bool-cases, All, Any, All-mono, All-select,
}
use nearby_backend.Scheduling.Models.{Uuid, Instant, Slot}
use nearby_backend.Scheduling.Cache.{
  new_availability_cache, CacheKey, same_key, CacheEntry, AvailabilityCache, erase, fresh_slots,
  get, evict_one, evict_expired, with_entry, put, delete_all, invalidate_provider,
}

abbrev Cached : Type 0
Cached = CacheKey × CacheEntry

abbrev Index : Type 0
Index = List (Uuid × CacheKey)

-- The index has the entry's key under the entry's provider.
abbrev pub IsListed : Index → Cached → Type 0
IsListed index e = Any (λ pair. pair ≡ (e.1.provider_id, e.0)) index

abbrev pub IsIndexed : AvailabilityCache → Type 0
IsIndexed c = All (IsListed c.by_provider) c.entries

same_key_self : (k : CacheKey) → same_key k k ≡ true
unfolding same_key
same_key_self [] = refl
same_key_self (a ∷ k) = ground (arith, same_key_self k)

module _ {A : Type 0} {P Q : A → Type 0} where
  -- The items that are left after a selection, with the test that they passed.
  All-selected :
      (p : A → Bool) (xs : List A)
      → ((x : A) → P x → p x ≡ true → Q x)
      → All P xs
      → All Q (select p xs)
  unfolding select
  All-selected p [] f h = tt
  All-selected p (x ∷ xs) f h = elim (Bool-cases (p x)) [
    | inl e ↦ rw e (f x h.0 e, All-selected p xs f h.1)
    | inr e ↦ rw e (All-selected p xs f h.1)
  ]

All-both :
    {A : Type 0} (P Q : A → Type 0) (xs : List A) → All P xs → All Q xs → All (λ x. P x × Q x) xs
All-both P Q [] h k = tt
All-both P Q (x ∷ xs) h k = ((h.0, k.0), All-both P Q xs h.1 k.1)

-- A fact about some item is not lost when the item passes the selection.
pub Any-select :
    {A : Type 0} {P : A → Type 0} (p : A → Bool) (xs : List A)
    → ((x : A) → P x → p x ≡ true)
    → Any P xs
    → Any P (select p xs)
unfolding select
Any-select p [] f h = elim h [ ]
Any-select p (x ∷ xs) f (inl h) = rw (f x h) (inl h)
Any-select p (x ∷ xs) f (inr h) = elim (Bool-cases (p x)) [
  | inl e ↦ rw e (inr (Any-select p xs f h))
  | inr e ↦ rw e (Any-select p xs f h)
]

-- An entry that was not erased has another key.
kept_key : (k key : CacheKey) → not (same_key k key) ≡ true → k ≢ key
kept_key k key h e =
    let same = same_key_self k in
    absurd
      (subst (λ b. not b ≡ true → ⊥) (subst (λ l. true ≡ same_key k l) e (sym same)) (λ x. cc) h)

module _ (p : Uuid) where
  abbrev IsForeign : Cached → Type 0
  IsForeign e = e.1.provider_id ≢ p

  -- The entry is another provider's, or one that is still to be deleted.
  abbrev IsDoomed : Index → Cached → Type 0
  IsDoomed pairs e = IsListed pairs e ⊎ IsForeign e

  delete_all-IsForeign :
      (pairs : Index) (entries : List Cached)
      → All (IsDoomed pairs) entries
      → All IsForeign (delete_all pairs p entries)
  unfolding delete_all erase
  delete_all-IsForeign [] entries h =
      All-mono entries (λ e d. elim d [ inl l ↦ elim l [ ] | inr f ↦ f ]) h
  delete_all-IsForeign ((q, key) ∷ rest) entries h = elim (Bool-cases (q == p)) [
    | inl hit ↦ rw hit (
        delete_all-IsForeign rest (erase key entries) (
          All-selected (λ e. not (same_key e.0 key)) entries
            (λ e d left. elim d [
              | inl l ↦ elim l [
                | inl same ↦ absurd (kept_key e.0 key left (ap (λ x. x.1) (sym same)))
                | inr later ↦ inl later
              ]
              | inr f ↦ inr f
            ])
            h))
    | inr miss ↦ rw miss (
        delete_all-IsForeign rest entries (
          All-mono entries
            (λ e d. elim d [
              | inl l ↦ elim l [
                | inl same ↦ inr (λ x. absurd (other (ap (λ y. y.0) same) x miss))
                | inr later ↦ inl later
              ]
              | inr f ↦ inr f
            ])
            h))
  ]
    where
      other : {e : Uuid} → q ≡ e → e ≡ p → (q == p) ≡ false → ⊥
      other a b c = ground arith

  delete_all-All :
      (P : Cached → Type 0) (pairs : Index) (entries : List Cached)
      → All P entries
      → All P (delete_all pairs p entries)
  unfolding delete_all erase
  delete_all-All P [] entries h = h
  delete_all-All P ((q, key) ∷ rest) entries h = elim (Bool-cases (q == p)) [
    | inl hit ↦ rw hit (
        delete_all-All P rest (erase key entries)
          (All-select P (λ e. not (same_key e.0 key)) entries h))
    | inr miss ↦ rw miss (delete_all-All P rest entries h)
  ]

doomed_gone :
    (c : AvailabilityCache) (p : Uuid)
    → IsIndexed c
    → All (λ e. e.1.provider_id ≢ p) (invalidate_provider c p).entries
unfolding invalidate_provider
doomed_gone c p h =
    delete_all-IsForeign p c.by_provider c.entries (All-mono c.entries (λ e l. inl l) h)

invalidate_provider-IsIndexed :
    (c : AvailabilityCache) (p : Uuid) → IsIndexed c → IsIndexed (invalidate_provider c p)
unfolding invalidate_provider
invalidate_provider-IsIndexed c p h =
    let left = delete_all c.by_provider p c.entries in
    All-mono left
      (λ e k.
        Any-select (λ pair. not (pair.0 == p)) c.by_provider
          (λ pair same. elsewhere (ap (λ x. x.0) same) k.1) k.0)
      (All-both (IsListed c.by_provider) (λ e. e.1.provider_id ≢ p) left
        (delete_all-All p (IsListed c.by_provider) c.by_provider c.entries h)
        (delete_all-IsForeign p c.by_provider c.entries (All-mono c.entries (λ e l. inl l) h)))
  where
    elsewhere : {q r : Uuid} → q ≡ r → r ≢ p → not (q == p) ≡ true
    elsewhere e f = ground arith

evict_one-IsIndexed :
    (now : Instant) (key : CacheKey) (entry : CacheEntry) (c : AvailabilityCache)
    → IsIndexed c
    → IsIndexed (evict_one now key entry c)
unfolding erase
evict_one-IsIndexed now key entry c h = elim (Bool-cases (ltb entry.expires_at now)) [
  | inl old ↦ rw old (
      All-selected (λ e. not (same_key e.0 key)) c.entries
        (λ e l left.
          Any-select (λ pair. not (pair.0 == entry.provider_id && same_key pair.1 key))
            c.by_provider (λ pair same. other pair.0 (ap (λ x. x.1) same) left) l)
        h)
  | inr young ↦ rw young h
]
  where
    other :
        (q : Uuid) {k l : CacheKey}
        → k ≡ l
        → not (same_key l key) ≡ true
        → not (q == entry.provider_id && same_key k key) ≡ true
    other q e left =
        subst (λ x. not (q == entry.provider_id && same_key x key) ≡ true) (sym e) (ground arith)

evict_expired-IsIndexed :
    (now : Instant) (es : List Cached) (c : AvailabilityCache)
    → IsIndexed c
    → IsIndexed (evict_expired now es c)
unfolding evict_expired
evict_expired-IsIndexed now [] c h = h
evict_expired-IsIndexed now ((key, entry) ∷ rest) c h =
    evict_expired-IsIndexed now rest (evict_one now key entry c)
      (evict_one-IsIndexed now key entry c h)

put-IsIndexed :
    (c : AvailabilityCache) (key : CacheKey) (p : Uuid) (slots : List Slot) (now later : Instant)
    → IsIndexed c
    → IsIndexed (put c key p slots now later)
unfolding put erase
put-IsIndexed c key p slots now later h =
    let c' = with_entry c key p slots now in
    evict_expired-IsIndexed later c'.entries c' (
      inl refl,
      All-mono (erase key c.entries) (λ e l. inr l)
          (All-select (IsListed c.by_provider) (λ e. not (same_key e.0 key)) c.entries h),
    )

-- The caches that the program can have: a new one, and those after any writes.
pub data Reached : AvailabilityCache → Type 0 where
  made : (ttl : ℕ) → Reached (new_availability_cache ttl)
  filled :
      {c : AvailabilityCache} (key : CacheKey) (p : Uuid) (slots : List Slot) (now later : Instant)
      → Reached c
      → Reached (put c key p slots now later)
  dropped : {c : AvailabilityCache} (p : Uuid) → Reached c → Reached (invalidate_provider c p)

Reached-IsIndexed : (c : AvailabilityCache) → Reached c → IsIndexed c
unfolding new_availability_cache
Reached-IsIndexed _ (made ttl) = tt
Reached-IsIndexed _ (filled {c = c} key p slots now later r) =
    put-IsIndexed c key p slots now later (Reached-IsIndexed c r)
Reached-IsIndexed _ (dropped {c = c} p r) =
    invalidate_provider-IsIndexed c p (Reached-IsIndexed c r)

-- In every cache that the program can have, `invalidateProvider` leaves no entry of that provider, so
-- that no later `get` can answer from one.
pub invalidate_provider-IsForeign :
    (c : AvailabilityCache) (p : Uuid)
    → Reached c
    → All (λ e. e.1.provider_id ≢ p) (invalidate_provider c p).entries
invalidate_provider-IsForeign c p r = doomed_gone c p (Reached-IsIndexed c r)

-- What `get` answers is what an entry holds that has this key and has not expired.
pub get-IsFresh :
    (c : AvailabilityCache) (key : CacheKey) (now : Instant) (slots : List Slot)
    → get c key now ≡ some slots
    → Any (λ e. (same_key e.0 key ≡ true) × (e.1.slots ≡ slots) × (now ≤ e.1.expires_at)) c.entries
unfolding get
get-IsFresh c key now slots h = among c.entries h
  where
    among :
        (es : List Cached)
        → fresh_slots now (find (λ e. same_key e.0 key) es) ≡ some slots
        → Any (λ e. (same_key e.0 key ≡ true) × (e.1.slots ≡ slots) × (now ≤ e.1.expires_at)) es
    among [] k = absurd (cc)
    among ((l, e) ∷ es) k = elim (Bool-cases (same_key l key)) [
      | inl same ↦ inl (same, ground arith, ground arith)
      | inr differs ↦ inr (among es (rw differs at k))
    ]
