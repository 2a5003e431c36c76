-- ===== src/Tenant/Offers.antt =====
-- The table of invitations: one row for each id, what a row offers, and rows that were accepted.
use nearby_backend.Prelude.{
  ◌≡◌, refl, ap, subst, inl, inr, Bool, true, some, List, [], ◌∷◌, map, find, is_some, All, Any,
  All-Any, ◌==◌, first_or, found-Any, Bool-cases, arith,
}
use nearby_backend.Prelude.Keyed.{HasOtherKey, IsKeyed, map-IsKeyed}
use nearby_backend.Accounts.Tables.{Uuid, Instant, InvitationRow}
use nearby_backend.Tenant.Queries.{can_be_accepted, accept_row}

abbrev HasOtherId : InvitationRow → InvitationRow → Type 0
HasOtherId = HasOtherKey (λ r. r.id)

-- The primary key of `invitations`.
abbrev pub IsNumbered : List InvitationRow → Type 0
IsNumbered = IsKeyed (λ r. r.id)

-- The row offers what the invitation offers.
pub record IsSameOffer (inv q : InvitationRow) : Type 0 where
  pub provider : q.provider_id ≡ inv.provider_id
  pub email : q.email ≡ inv.email
  pub role : q.role ≡ inv.role
  pub token : q.token_hash ≡ inv.token_hash
  pub expires : q.expires_at ≡ inv.expires_at

-- Whatever row has the invitation's id offers the same.
abbrev pub Agrees : InvitationRow → List InvitationRow → Type 0
Agrees inv = All (λ q. (q.id == inv.id) ≡ true → IsSameOffer inv q)

-- The invitation, accepted.
abbrev pub IsTaken : InvitationRow → InvitationRow → Type 0
IsTaken inv q = IsSameOffer inv q × (is_some q.accepted_at ≡ true)

IsSameOffer-self : (r : InvitationRow) → IsSameOffer r r
IsSameOffer-self r = record {
  provider = refl;
  email = refl;
  role = refl;
  token = refl;
  expires = refl;
}

others-Agree : (r : InvitationRow) (rs : List InvitationRow) → All (HasOtherId r) rs → Agrees r rs
others-Agree r [] h = tt
others-Agree r (q ∷ qs) h = (λ e. absurd (cc), others-Agree r qs h.1)

pub found-Agrees :
    (p : InvitationRow → Bool) (rs : List InvitationRow) (r : InvitationRow)
    → IsNumbered rs
    → find p rs ≡ some r
    → Agrees r rs
unfolding find
found-Agrees p [] r k h = tt
found-Agrees p (x ∷ xs) r k h = elim (first_or (p x) x r (find p xs) h) [
  | inl (e, same) ↦
      subst (λ q. Agrees q (x ∷ xs)) same (λ _. IsSameOffer-self x, others-Agree x xs k.0)
  | inr (e, g) ↦
      let (y, apart, same) = All-Any xs k.0 (found-Any p xs r g) in
      (λ here. absurd (ground (arith, ap (λ q. q.id) same)), found-Agrees p xs r k.1 g)
]

-- The guarded UPDATE of `AcceptInvitation`.
accept_row-id : (id : Uuid) (now : Instant) (r : InvitationRow) → (accept_row id now r).id ≡ r.id
unfolding accept_row
accept_row-id id now r = elim (Bool-cases (can_be_accepted id now r)) [
  | inl e ↦ rw e refl
  | inr e ↦ rw e refl
]

pub map-IsNumbered :
    (id : Uuid) (now : Instant) (rs : List InvitationRow)
    → IsNumbered rs
    → IsNumbered (map (accept_row id now) rs)
map-IsNumbered id now = map-IsKeyed (λ r. r.id) (accept_row id now) (accept_row-id id now)

accepted-IsTaken :
    (inv : InvitationRow) (now : Instant) (x : InvitationRow)
    → can_be_accepted inv.id now x ≡ true
    → IsSameOffer inv x
    → IsTaken inv (accept_row inv.id now x)
unfolding accept_row
accepted-IsTaken inv now x e f = rw e (
  record {
    provider = f.provider;
    email = f.email;
    role = f.role;
    token = f.token;
    expires = f.expires;
  },
  refl,
)

-- The row that the UPDATE changes is the invitation's, and is accepted afterwards.
pub map-IsTaken :
    (inv : InvitationRow) (now : Instant) (rs : List InvitationRow) (r : InvitationRow)
    → Agrees inv rs
    → find (can_be_accepted inv.id now) rs ≡ some r
    → Any (IsTaken inv) (map (accept_row inv.id now) rs)
unfolding find accept_row
map-IsTaken inv now [] r k h = absurd (cc)
map-IsTaken inv now (x ∷ xs) r k h =
    elim (first_or (can_be_accepted inv.id now x) x r (find (can_be_accepted inv.id now) xs) h) [
      | inl (e, same) ↦ inl (accepted-IsTaken inv now x e (k.0 (ground arith)))
      | inr (e, g) ↦ inr (map-IsTaken inv now xs r k.1 g)
    ]
