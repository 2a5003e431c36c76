-- ===== src/Tenant/Demotion.antt =====
-- `AddMember` writes over the role of a member who accepts an invitation to the own organization
-- (internal/tenant/service.go, internal/db/query/members.sql).
use nearby_backend.Prelude.{
  ◌≡◌, ◌≢◌, refl, subst, inl, inr, Bool, true, false, String, none, some, List, [], ◌∷◌, find,
  exists, leb, ltb, ◌==◌, Bool-cases, arith, map, if◌then◌else◌,
}
use nearby_backend.Prelude.Text.{text_eq, trim_space}
use nearby_backend.Platform.Database.{World, in_tx, query}
use nearby_backend.Accounts.Tables.{
  Uuid, Role, owner, MemberRow, InvitationRow, Store, Clock, Codec,
}
use nearby_backend.Auth.Tokens.{hash_refresh_token}
use nearby_backend.Tenant.Models.{valid_role, is_owner}
use nearby_backend.Tenant.Queries.{
  is_member, with_role, upsert, add_member, get_invitation, can_be_accepted, mark_accepted,
}
use nearby_backend.Tenant.Invitations.{join, redeem, accept_invitation}
use nearby_backend.Tenant.Roster.{IsOwnerRow, Owns, owner→is_owner}

-- A session on its own, whose statements do not fail.
abbrev pub alone : Store → World Store
alone s = record { store = s; turns = []; committed = none; draws = λ n. some n; drawn = 0 }

module _ (p u : Uuid) (role : Role) (lower : is_owner role ≡ false) where
  not_owner : role ≡ owner → ⊥
  not_owner e = absurd (ground (arith, owner→is_owner role e))

  -- Whoever owns the provider after the write owned it before, and is another user.
  remains :
      (v : Uuid) (r : MemberRow)
      → IsOwnerRow p v (with_role p u role r)
      → IsOwnerRow p v r × (is_member p u r ≡ false)
  unfolding with_role
  remains v r h = go (is_member p u r) refl h
    where
      go :
          (b : Bool)
          → is_member p u r ≡ b
          → IsOwnerRow p v (if b then record r { role = role } else r)
          → IsOwnerRow p v r × (is_member p u r ≡ false)
      go true e o = absurd (not_owner o.1)
      go false e o = (o, e)

  is_another : (v : Uuid) (r : MemberRow) → IsOwnerRow p v r → is_member p u r ≡ false → v ≢ u
  is_another v r o e same = ground arith

  map-Owns :
      (v : Uuid) (rs : List MemberRow)
      → Owns p v (map (with_role p u role) rs)
      → Owns p v rs × (v ≢ u)
  map-Owns v [] h = elim h [ ]
  map-Owns v (r ∷ rs) (inl h) = let (o, e) = remains v r h in (inl o, is_another v r o e)
  map-Owns v (r ∷ rs) (inr h) = let (o, n) = map-Owns v rs h in (inr o, n)

  absent :
      (v : Uuid) (rs : List MemberRow) → exists (is_member p u) rs ≡ false → Owns p v rs → v ≢ u
  unfolding exists
  absent v [] e o = elim o [ ]
  absent v (r ∷ rs) e (inl o) = elim (Bool-cases (is_member p u r)) [
    | inl here ↦ absurd (ground arith)
    | inr gone ↦ is_another v r o gone
  ]
  absent v (r ∷ rs) e (inr o) = elim (Bool-cases (is_member p u r)) [
    | inl here ↦ absurd (ground arith)
    | inr gone ↦ absent v rs (ground arith) o
  ]

  upsert-Owns :
      (v : Uuid) (rs : List MemberRow)
      → Owns p v (upsert (record { provider_id = p; user_id = u; role = role }) rs)
      → Owns p v rs × (v ≢ u)
  unfolding upsert
  upsert-Owns v rs h = go (exists (is_member p u) rs) refl h
    where
      row : MemberRow
      row = record { provider_id = p; user_id = u; role = role }

      go :
          (b : Bool)
          → exists (is_member p u) rs ≡ b
          → Owns p v (if b then map (with_role p u role) rs else row ∷ rs)
          → Owns p v rs × (v ≢ u)
      go true e o = map-Owns v rs o
      go false e (inl o) = absurd (not_owner o.1)
      go false e (inr o) = (o, absent v rs e o)

find-other :
    {A : Type 0} (p q : A → Bool) (xs : List A) (x : A)
    → find p xs ≡ some x
    → q x ≡ true
    → (y : A) × (find q xs ≡ some y)
unfolding find
find-other p q [] x h t = absurd (cc)
find-other p q (y ∷ ys) x h t = elim (Bool-cases (q y)) [
  | inl hit ↦ (y, rw hit refl)
  | inr miss ↦ let (z, e) = find-other p q ys x (skipped (p y) miss h) t in (z, rw miss e)
]
  where
    skipped :
        (b : Bool) → q y ≡ false → (if b then some y else find p ys) ≡ some x → find p ys ≡ some x
    skipped true miss e = absurd (cc)
    skipped false miss e = e

-- An invitation that `AcceptInvitation` accepts.
pub record IsOpen (codec : Codec) (clock : Clock) (token : String) (user_email : String) (s : Store)
    (inv : InvitationRow) : Type 0 where
  pub given : text_eq (trim_space token) "" ≡ false
  pub found : find (λ r. r.token_hash == codec.sha256 (trim_space token)) s.invitations ≡ some inv
  pub pending : inv.accepted_at ≡ none
  pub in_time : leb clock.now inv.expires_at ≡ true
  pub not_expired : ltb clock.database inv.expires_at ≡ true
  pub addressed : codec.equal_fold inv.email user_email ≡ true
  pub known_role : valid_role inv.role ≡ true

module _ (codec : Codec) (clock : Clock) (token : String) (u : Uuid) (user_email : String)
    (s : Store) (inv : InvitationRow) (open_ : IsOpen codec clock token user_email s inv) where
  acceptable :
      (row : InvitationRow) × (find (can_be_accepted inv.id clock.database) s.invitations
        ≡ some row)
  acceptable =
      find-other (λ r. r.token_hash == codec.sha256 (trim_space token))
        (can_be_accepted inv.id clock.database) s.invitations inv open_.found
        (rw (open_.pending, open_.not_expired) (ground arith))

  accepted :
      (accept_invitation codec clock token u user_email (alone s)).1.store.members
      ≡ upsert (record { provider_id = inv.provider_id; user_id = u; role = inv.role }) s.members
  unfolding accept_invitation redeem join hash_refresh_token get_invitation mark_accepted add_member
      in_tx query
  accepted =
      let (row, e) = acceptable in
      rw
        (
          open_.given, open_.found, open_.pending, open_.in_time, open_.addressed, e,
          open_.known_role,
        )
        refl

-- The only owner of a provider who accepts an invitation to it in a lower role, on an otherwise idle
-- system, leaves it without an owner. The invitation is one that `AcceptInvitation` accepts: the token
-- is its token, it is pending and in time by both clocks, it was sent to the user's address, and its
-- role is valid.
pub accept_invitation-demotes :
    (codec : Codec) (clock : Clock) (token : String) (u : Uuid) (user_email : String) (s : Store)
    (inv : InvitationRow)
    → IsOpen codec clock token user_email s inv
    → is_owner inv.role ≡ false
    → ((v : Uuid) → Owns inv.provider_id v s.members → v ≡ u)
    → (v : Uuid)
    → ¬ (
        Owns inv.provider_id v
          (accept_invitation codec clock token u user_email (alone s)).1.store.members)
accept_invitation-demotes codec clock token u user_email s inv open_ lower sole v o =
    let (before, other) =
      upsert-Owns inv.provider_id u inv.role lower v s.members
        (subst (Owns inv.provider_id v) (accepted codec clock token u user_email s inv open_) o) in
    other (sole v before)
