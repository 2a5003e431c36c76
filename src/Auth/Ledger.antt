-- ===== src/Auth/Ledger.antt =====
-- The table of refresh tokens: one row for each digest, and rows that are revoked stay so.
use nearby_backend.Prelude.{
  ◌≡◌, refl, ap, subst, inl, inr, Bool, true, false, some, List, [], ◌∷◌, map, find, exists,
  is_some, All, Any, All-Any, ◌==◌, ==_iff, Bool-cases, kept-set, first_or, arith,
}
use nearby_backend.Prelude.Keyed.{HasOtherKey, IsKeyed, map-IsKeyed}
use nearby_backend.Accounts.Tables.{Uuid, Instant, Digest, RefreshTokenRow}
use nearby_backend.Auth.Queries.{is_live, revoke_row}

abbrev HasOtherDigest : RefreshTokenRow → RefreshTokenRow → Type 0
HasOtherDigest = HasOtherKey (λ r. r.token_hash)

-- The unique constraint on `token_hash`.
abbrev pub IsLedger : List RefreshTokenRow → Type 0
IsLedger = IsKeyed (λ r. r.token_hash)

-- A row with this id and digest is in the table, or is there and revoked.
abbrev pub IsToken : Uuid → Digest → RefreshTokenRow → Type 0
IsToken id hash r = (r.id ≡ id) × (r.token_hash ≡ hash)

abbrev pub IsSpentToken : Uuid → Digest → RefreshTokenRow → Type 0
IsSpentToken id hash r = (r.id ≡ id) × (r.token_hash ≡ hash) × (is_some r.revoked_at ≡ true)

revoke_row-hash :
    (which : RefreshTokenRow → Bool) (now : Instant) (r : RefreshTokenRow)
    → (revoke_row which now r).token_hash ≡ r.token_hash
unfolding revoke_row
revoke_row-hash which now r = elim (Bool-cases (is_live which r)) [
  | inl e ↦ rw e refl
  | inr e ↦ rw e refl
]

revoke_row-IsSpentToken :
    (which : RefreshTokenRow → Bool) (now : Instant) (id : Uuid) (hash : Digest)
    (r : RefreshTokenRow)
    → IsSpentToken id hash r
    → IsSpentToken id hash (revoke_row which now r)
unfolding revoke_row
revoke_row-IsSpentToken which now id hash r h = elim (Bool-cases (is_live which r)) [
  | inl e ↦ rw e (h.0, h.1, refl)
  | inr e ↦ rw e h
]

-- The row that the UPDATE is about is revoked afterwards, if it was not before.
revoke_row-spends :
    (now : Instant) (id : Uuid) (hash : Digest) (r : RefreshTokenRow)
    → IsToken id hash r
    → IsSpentToken id hash (revoke_row (λ q. q.id == id) now r)
unfolding revoke_row
revoke_row-spends now id hash r h = elim (Bool-cases (is_live (λ q. q.id == id) r)) [
  | inl e ↦ rw e (h.0, h.1, refl)
  | inr e ↦ rw e (h.0, h.1, kept-set (r.id == id) (is_some r.revoked_at) e ((==_iff r.id id).1 h.0))
]

pub map-spends :
    (now : Instant) (id : Uuid) (hash : Digest) (rs : List RefreshTokenRow)
    → Any (IsToken id hash) rs
    → Any (IsSpentToken id hash) (map (revoke_row (λ q. q.id == id) now) rs)
map-spends now id hash [] h = elim h [ ]
map-spends now id hash (r ∷ rs) (inl h) = inl (revoke_row-spends now id hash r h)
map-spends now id hash (r ∷ rs) (inr h) = inr (map-spends now id hash rs h)

pub map-IsSpentToken :
    (which : RefreshTokenRow → Bool) (now : Instant) (id : Uuid) (hash : Digest)
    (rs : List RefreshTokenRow)
    → Any (IsSpentToken id hash) rs
    → Any (IsSpentToken id hash) (map (revoke_row which now) rs)
map-IsSpentToken which now id hash [] h = elim h [ ]
map-IsSpentToken which now id hash (r ∷ rs) (inl h) =
    inl (revoke_row-IsSpentToken which now id hash r h)
map-IsSpentToken which now id hash (r ∷ rs) (inr h) = inr (map-IsSpentToken which now id hash rs h)

pub map-IsLedger :
    (which : RefreshTokenRow → Bool) (now : Instant) (rs : List RefreshTokenRow)
    → IsLedger rs
    → IsLedger (map (revoke_row which now) rs)
map-IsLedger which now =
    map-IsKeyed (λ r. r.token_hash) (revoke_row which now) (revoke_row-hash which now)

-- A digest that no row has.
pub fresh-IsLedger :
    (row : RefreshTokenRow) (rs : List RefreshTokenRow)
    → exists (λ r. r.token_hash == row.token_hash) rs ≡ false
    → All (HasOtherDigest row) rs
unfolding exists
fresh-IsLedger row [] e = tt
fresh-IsLedger row (r ∷ rs) e = elim (Bool-cases (r.token_hash == row.token_hash)) [
  | inl here ↦ absurd (ground arith)
  | inr gone ↦ (gone, fresh-IsLedger row rs (ground arith))
]

-- The row that is found by a digest is a row of the table with it.
pub found-IsToken :
    (hash : Digest) (rs : List RefreshTokenRow) (r : RefreshTokenRow)
    → find (λ q. q.token_hash == hash) rs ≡ some r
    → Any (IsToken r.id hash) rs
unfolding find
found-IsToken hash [] r h = absurd (cc)
found-IsToken hash (x ∷ xs) r h =
    elim (first_or (x.token_hash == hash) x r (find (λ q. q.token_hash == hash) xs) h) [
      | inl (e, same) ↦ inl (ap (λ q. q.id) same, (==_iff x.token_hash hash).0 e)
      | inr (e, g) ↦ inr (found-IsToken hash xs r g)
    ]

-- The row that is found by the digest of a revoked row is revoked.
pub found-revoked :
    (id : Uuid) (hash : Digest) (rs : List RefreshTokenRow) (r : RefreshTokenRow)
    → IsLedger rs
    → Any (IsSpentToken id hash) rs
    → find (λ q. q.token_hash == hash) rs ≡ some r
    → is_some r.revoked_at ≡ true
unfolding find
found-revoked id hash [] r k o h = elim o [ ]
found-revoked id hash (x ∷ xs) r k (inl o) h =
    elim (first_or (x.token_hash == hash) x r (find (λ q. q.token_hash == hash) xs) h) [
      | inl (e, same) ↦ subst (λ q. is_some q.revoked_at ≡ true) same o.2
      | inr (e, g) ↦ absurd (ground arith)
    ]
found-revoked id hash (x ∷ xs) r k (inr o) h =
    elim (first_or (x.token_hash == hash) x r (find (λ q. q.token_hash == hash) xs) h) [
      | inl (e, same) ↦ let (y, apart, here) = All-Any xs k.0 o in absurd (ground arith)
      | inr (e, g) ↦ found-revoked id hash xs r k.1 o g
    ]
