-- ===== src/Scheduling/Cache.antt =====
-- The cache of slot lists (internal/scheduling/cache.go). `now` is what `time.Now` gave; the mutex
-- makes each operation one step. `byProvider`, a map of sets, is the list of its pairs. A key's text is
-- fixed-width texts and separators, so a key is the list of what these spell: the service, the day
-- and the options in order.
pub mod Freshness
use nearby_backend.Prelude.{
  ℕ, ◌+◌, ◌<◌, ◌≡◌, refl, ap, subst, sym, ◌≢◌, inl, inr, Bool, true, false, ◌&&◌, not, Option, none,
  some, List, [], ◌∷◌, ltb, leb, ◌==◌, ==_iff, if◌then◌else◌, select, find, exists, arith,
  Bool-cases, All, Any, All-mono, Any-mono, All-select,
}
use nearby_backend.Prelude.Sort.{sort_by, by_key}
use nearby_backend.Scheduling.Models.{Uuid, Instant, Slot}

abbrev pub CacheKey : Type 0
CacheKey = List ℕ

unfoldable pub same_key : CacheKey → CacheKey → Bool
same_key [] [] = true
same_key [] (b ∷ bs) = false
same_key (a ∷ as') [] = false
same_key (a ∷ as') (b ∷ bs) = let rest = same_key as' bs in if a == b then rest else false

pub record CacheEntry : Type 0 where
  pub slots : List Slot
  pub provider_id : Uuid
  pub expires_at : Instant

pub record AvailabilityCache : Type 0 where
  pub ttl : ℕ
  pub entries : List (CacheKey × CacheEntry)
  pub by_provider : List (Uuid × CacheKey)

-- `newAvailabilityCache`, for a duration of nanoseconds that is not negative.
unfoldable pub new_availability_cache : ℕ → AvailabilityCache
new_availability_cache ttl = record {
  ttl = if ttl == 0 then 60_000_000_000 else ttl;
  entries = [];
  by_provider = [];
}

unfoldable pub cache_key : Uuid → ℕ → List Uuid → CacheKey
unfolding sort_by
cache_key service_id date option_ids = service_id ∷ date ∷ sort_by (by_key (λ id. id)) option_ids

-- `delete(entries, key)`.
unfoldable pub erase : CacheKey → List (CacheKey × CacheEntry) → List (CacheKey × CacheEntry)
unfolding select
erase key entries = select (λ entry. not (same_key entry.0 key)) entries

abbrev pub fresh_slots : Instant → Option (CacheKey × CacheEntry) → Option (List Slot)
fresh_slots now none = none
fresh_slots now (some (key, entry)) = if ltb entry.expires_at now then none else some entry.slots

unfoldable pub get : AvailabilityCache → CacheKey → Instant → Option (List Slot)
unfolding find same_key
get c key now = fresh_slots now (find (λ entry. same_key entry.0 key) c.entries)

abbrev pub evict_one : Instant → CacheKey → CacheEntry → AvailabilityCache → AvailabilityCache
evict_one now key entry c =
    if ltb entry.expires_at now
    then record c {
      entries = erase key c.entries;
      by_provider =
          select (λ pair. not (pair.0 == entry.provider_id && same_key pair.1 key)) c.by_provider;
    }
    else c

-- The loop of `evictExpiredLocked`, over the entries that there were.
unfoldable pub evict_expired :
    Instant → List (CacheKey × CacheEntry) → AvailabilityCache → AvailabilityCache
unfolding erase select same_key
evict_expired now [] c = c
evict_expired now ((key, entry) ∷ rest) c = evict_expired now rest (evict_one now key entry c)

abbrev pub with_entry :
    AvailabilityCache → CacheKey → Uuid → List Slot → Instant → AvailabilityCache
with_entry c key provider_id slots now = record c {
  entries =
      (key, record { slots = slots; provider_id = provider_id; expires_at = now + c.ttl })
      ∷ erase key c.entries;
  by_provider = (provider_id, key) ∷ c.by_provider;
}

-- `put`, with the reading of the clock that the entry takes and the one that the eviction takes.
unfoldable pub put :
    AvailabilityCache → CacheKey → Uuid → List Slot → Instant → Instant → AvailabilityCache
unfolding evict_expired erase
put c key provider_id slots now later =
    let c' = with_entry c key provider_id slots now in evict_expired later c'.entries c'

-- The keys that the index lists for a provider, deleted one by one.
unfoldable pub delete_all :
    List (Uuid × CacheKey) → Uuid → List (CacheKey × CacheEntry) → List (CacheKey × CacheEntry)
unfolding erase
delete_all [] provider_id entries = entries
delete_all ((p, key) ∷ rest) provider_id entries =
    delete_all rest provider_id (if p == provider_id then erase key entries else entries)

unfoldable pub invalidate_provider : AvailabilityCache → Uuid → AvailabilityCache
unfolding delete_all select
invalidate_provider c provider_id = record c {
  entries = delete_all c.by_provider provider_id c.entries;
  by_provider = select (λ pair. not (pair.0 == provider_id)) c.by_provider;
}
