-- ===== src/Tenant/Roster.antt =====
-- The table of members: one row for each key, and who owns a provider.
use nearby_backend.Prelude.{
  ℕ, ◌<◌, ◌≤◌, ◌≡◌, refl, ap, subst, ◌∙◌, ◌⊎◌, inl, inr, Bool, true, false, ◌&&◌, some, List, [],
  ◌∷◌, map, ◌==◌, if◌then◌else◌, length, select, find, All, Any, All-select, All-Any, and-split,
  arith, first_or, Bool-cases,
}
use nearby_backend.Accounts.Tables.{Uuid, Role, owner, admin, staff, unknown_role, MemberRow}
use nearby_backend.Tenant.Models.{is_owner}
use nearby_backend.Tenant.Queries.{is_member, is_owner_of, is_other, with_role}

-- Two rows of other providers or users.
abbrev pub HasOtherKey : MemberRow → MemberRow → Type 0
HasOtherKey r q = is_member r.provider_id r.user_id q ≡ false

-- The primary key of `members`.
abbrev pub IsKeyed : List MemberRow → Type 0
IsKeyed [] = Unit
IsKeyed (r ∷ rs) = All (HasOtherKey r) rs × IsKeyed rs

abbrev pub IsOwnerRow : Uuid → Uuid → MemberRow → Type 0
IsOwnerRow p v r = (is_member p v r ≡ true) × (r.role ≡ owner)

abbrev pub Owns : Uuid → Uuid → List MemberRow → Type 0
Owns p v = Any (IsOwnerRow p v)

is_owner→owner : (role : Role) → is_owner role ≡ true → role ≡ owner
unfolding is_owner
is_owner→owner owner h = refl
is_owner→owner admin h = absurd (cc)
is_owner→owner staff h = absurd (cc)
is_owner→owner (unknown_role s) h = absurd (cc)

pub owner→is_owner : (role : Role) → role ≡ owner → is_owner role ≡ true
unfolding is_owner
owner→is_owner role h = rw h refl

-- A write of one member's role.
with_role-member :
    (q u : Uuid) (role : Role) (p v : Uuid) (r : MemberRow)
    → is_member p v (with_role q u role r) ≡ is_member p v r
unfolding with_role
with_role-member q u role p v r = elim (Bool-cases (is_member q u r)) [
  | inl e ↦ rw e refl
  | inr e ↦ rw e refl
]

with_role-provider :
    (q u : Uuid) (role : Role) (r : MemberRow) → (with_role q u role r).provider_id ≡ r.provider_id
unfolding with_role
with_role-provider q u role r = elim (Bool-cases (is_member q u r)) [
  | inl e ↦ rw e refl
  | inr e ↦ rw e refl
]

with_role-user :
    (q u : Uuid) (role : Role) (r : MemberRow) → (with_role q u role r).user_id ≡ r.user_id
unfolding with_role
with_role-user q u role r = elim (Bool-cases (is_member q u r)) [
  | inl e ↦ rw e refl
  | inr e ↦ rw e refl
]

map-HasOtherKey :
    (q u : Uuid) (role : Role) (r : MemberRow) (rs : List MemberRow)
    → All (HasOtherKey r) rs
    → All (HasOtherKey (with_role q u role r)) (map (with_role q u role) rs)
unfolding with_role
map-HasOtherKey q u role r [] h = tt
map-HasOtherKey q u role r (x ∷ xs) h = (other_key, map-HasOtherKey q u role r xs h.1)
  where
    other_key : HasOtherKey (with_role q u role r) (with_role q u role x)
    other_key =
        with_role-member q u role (with_role q u role r).provider_id (with_role q u role r).user_id
          x
        ∙ (ap (λ a. is_member a (with_role q u role r).user_id x) (with_role-provider q u role r)
            ∙ (ap (λ a. is_member r.provider_id a x) (with_role-user q u role r) ∙ h.0))

pub map-IsKeyed :
    (q u : Uuid) (role : Role) (rs : List MemberRow)
    → IsKeyed rs
    → IsKeyed (map (with_role q u role) rs)
map-IsKeyed q u role [] h = tt
map-IsKeyed q u role (r ∷ rs) h = (map-HasOtherKey q u role r rs h.0, map-IsKeyed q u role rs h.1)

pub select-IsKeyed :
    (t : MemberRow → Bool) (rs : List MemberRow) → IsKeyed rs → IsKeyed (select t rs)
unfolding select
select-IsKeyed t [] h = tt
select-IsKeyed t (r ∷ rs) h = elim (Bool-cases (t r)) [
  | inl e ↦ rw e (All-select (HasOtherKey r) t rs h.0, select-IsKeyed t rs h.1)
  | inr e ↦ rw e (select-IsKeyed t rs h.1)
]

-- The key (q, u) is not that of p's owner v.
abbrev pub Spares : Uuid → Uuid → Uuid → Uuid → Type 0
Spares q u p v = (q == p && u == v) ≡ false

-- The owner's row is found by its key.
pub found-owner :
    (p u : Uuid) (rs : List MemberRow) (r : MemberRow)
    → IsKeyed rs
    → Owns p u rs
    → find (is_member p u) rs ≡ some r
    → is_owner r.role ≡ true
unfolding find
found-owner p u [] r k o h = elim o [ ]
found-owner p u (x ∷ xs) r k (inl o) h =
    elim (first_or (is_member p u x) x r (find (is_member p u) xs) h) [
      | inl (e, same) ↦ subst (λ y. is_owner y.role ≡ true) same (owner→is_owner x.role o.1)
      | inr (e, g) ↦ absurd (cc)
    ]
found-owner p u (x ∷ xs) r k (inr o) h =
    elim (first_or (is_member p u x) x r (find (is_member p u) xs) h) [
      | inl (e, same) ↦ let (y, other, here) = All-Any xs k.0 o in absurd (ground arith)
      | inr (e, g) ↦ found-owner p u xs r k.1 o g
    ]

spared-owner :
    (q u : Uuid) (role : Role) (p v : Uuid) (r : MemberRow)
    → Spares q u p v
    → IsOwnerRow p v r
    → IsOwnerRow p v (with_role q u role r)
unfolding with_role
spared-owner q u role p v r d o = elim (Bool-cases (is_member q u r)) [
  | inl e ↦ absurd (ground arith)
  | inr e ↦ rw e o
]

promoted-owner :
    (q u : Uuid) (role : Role) (p v : Uuid) (r : MemberRow)
    → is_owner role ≡ true
    → IsOwnerRow p v r
    → IsOwnerRow p v (with_role q u role r)
unfolding with_role
promoted-owner q u role p v r d o = elim (Bool-cases (is_member q u r)) [
  | inl e ↦ rw e (o.0, is_owner→owner role d)
  | inr e ↦ rw e o
]

-- A row that a write of another key leaves.
pub Owns-map :
    (q u : Uuid) (role : Role) (p v : Uuid) (rs : List MemberRow)
    → Spares q u p v
    → Owns p v rs
    → Owns p v (map (with_role q u role) rs)
unfolding with_role
Owns-map q u role p v [] d o = elim o [ ]
Owns-map q u role p v (r ∷ rs) d (inl o) = (inl (spared-owner q u role p v r d o))
Owns-map q u role p v (r ∷ rs) d (inr o) = inr (Owns-map q u role p v rs d o)

-- Any owner stays one where the role written is owner's.
pub Owns-promoted :
    (q u : Uuid) (role : Role) (p v : Uuid) (rs : List MemberRow)
    → is_owner role ≡ true
    → Owns p v rs
    → Owns p v (map (with_role q u role) rs)
unfolding with_role
Owns-promoted q u role p v [] d o = elim o [ ]
Owns-promoted q u role p v (r ∷ rs) d (inl o) = (inl (promoted-owner q u role p v r d o))
Owns-promoted q u role p v (r ∷ rs) d (inr o) = inr (Owns-promoted q u role p v rs d o)

pub Owns-deleted :
    (q u p v : Uuid) (rs : List MemberRow)
    → Spares q u p v
    → Owns p v rs
    → Owns p v (select (is_other q u) rs)
unfolding select
Owns-deleted q u p v [] d o = elim o [ ]
Owns-deleted q u p v (r ∷ rs) d (inl o) = elim (Bool-cases (is_member q u r)) [
  | inl e ↦ absurd (ground arith)
  | inr e ↦ rw e (inl o)
]
Owns-deleted q u p v (r ∷ rs) d (inr o) = elim (Bool-cases (is_member q u r)) [
  | inl e ↦ rw e (Owns-deleted q u p v rs d o)
  | inr e ↦ rw e (inr (Owns-deleted q u p v rs d o))
]

counted :
    (k : ℕ) (b : Bool) (r : MemberRow) (rest : List MemberRow)
    → k < length (if b then r ∷ rest else rest)
    → ((b ≡ true) × (k ≤ length rest)) ⊎ ((b ≡ false) × (k < length rest))
counted k true r rest h = inl (refl, omega arith)
counted k false r rest h = inr (refl, h)

owner_row : (p : Uuid) (r : MemberRow) → is_owner_of p r ≡ true → IsOwnerRow p r.user_id r
owner_row p r h =
    let (here, role) = and-split (r.provider_id == p) (is_owner r.role) h in
    (ground arith, is_owner→owner r.role role)

some_owner :
    (p : Uuid) (rs : List MemberRow)
    → 0 < length (select (is_owner_of p) rs)
    → (v : Uuid) × Owns p v rs
unfolding select
some_owner p [] h = absurd (ground arith)
some_owner p (r ∷ rs) h = elim (counted 0 (is_owner_of p r) r (select (is_owner_of p) rs) h) [
  | inl (e, _) ↦ (r.user_id, inl (owner_row p r e))
  | inr (e, g) ↦ let (v, o) = some_owner p rs g in (v, inr o)
]

-- Where a provider has two owners, one of them is not the given user.
pub second_owner :
    (p u : Uuid) (rs : List MemberRow)
    → IsKeyed rs
    → 1 < length (select (is_owner_of p) rs)
    → (v : Uuid) × Spares p u p v × Owns p v rs
unfolding select
second_owner p u [] k h = absurd (ground arith)
second_owner p u (r ∷ rs) k h = elim (counted 1 (is_owner_of p r) r (select (is_owner_of p) rs) h) [
  | inl (e, g) ↦ elim (Bool-cases (u == r.user_id)) [
    | inr other ↦ (r.user_id, ground arith, inl (owner_row p r e))
    | inl same ↦
        let (v, o) = some_owner p rs (omega arith) in
        let (y, away, here) = All-Any rs k.0 o in
        let row = owner_row p r e in (v, ground arith, inr o)
  ]
  | inr (e, g) ↦ let (v, away, o) = second_owner p u rs k.1 g in (v, away, inr o)
]
