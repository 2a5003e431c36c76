-- ===== src/Tenant/Joining.antt =====
-- What accepting an invitation grants (`AcceptInvitation` of internal/tenant/service.go).
use nearby_backend.Prelude.{
  ◌≡◌, ◌≤◌, refl, ap, sym, subst, Bool, true, false, not, String, Option, none, some, List, find,
  leb, leb→le, ==_iff, found-passes, ◌==◌, is_some, get_or, All, Any,
}
use nearby_backend.Prelude.Text.{text_eq, trim_space}
use nearby_backend.Platform.Errors.{invalid_token, conflict, token_expired, forbidden, validation}
use nearby_backend.Platform.Database.{
  caused, missing, World, M, ◌>>=◌, ◌>>◌, return, guard, on_error, or_internal, query,
}
use nearby_backend.Platform.Facts.{
  IsRespected, Triple, Always, Gives, Leaves, After-Leaves, weaken, bind-Triple, on_error-Triple,
  gate-Triple, return-Triple, query-Triple, in_tx-Triple,
}
use nearby_backend.Accounts.Tables.{
  Uuid, Instant, Digest, MemberRow, InvitationRow, Store, Clock, Codec, one_row,
}
use nearby_backend.Auth.Tokens.{hash_refresh_token}
use nearby_backend.Tenant.Models.{Member, valid_role}
use nearby_backend.Tenant.Queries.{
  add_member, upserted, get_invitation, can_be_accepted, mark_accepted, marked,
}
use nearby_backend.Tenant.Members.{member_of}
use nearby_backend.Tenant.Invitations.{join, redeem, accept_invitation}
use nearby_backend.Tenant.Offers.{
  IsNumbered, Agrees, IsTaken, found-Agrees, map-IsNumbered, map-IsTaken,
}

-- A membership as an invitation offers it. The invitation, as it was read, has the digest of the token,
-- is pending and in time, and is addressed to the user; in the table it now stands as accepted.
pub record IsInvited (codec : Codec) (clock : Clock) (token : String) (user_id : Uuid)
    (user_email : String) (member : Member) (s : Store) : Type 0 where
  pub invitation : InvitationRow
  pub accepted : Any (IsTaken invitation) s.invitations
  pub of_token : invitation.token_hash ≡ codec.sha256 (trim_space token)
  pub pending : invitation.accepted_at ≡ none
  pub in_time : clock.now ≤ invitation.expires_at
  pub addressed : codec.equal_fold invitation.email user_email ≡ true
  pub provider : member.provider_id ≡ invitation.provider_id
  pub user : member.user_id ≡ user_id
  pub role : member.role ≡ invitation.role

-- A write of another session: ids stay apart, what an id offers does not change, and no invitation
-- that was accepted goes.
pub record IsHonest (f : Store → Store) : Type 0 where
  pub numbered : (s : Store) → IsNumbered s.invitations → IsNumbered (f s).invitations
  pub agrees :
      (inv : InvitationRow) (s : Store) → Agrees inv s.invitations → Agrees inv (f s).invitations
  pub taken :
      (inv : InvitationRow) (s : Store)
      → Any (IsTaken inv) s.invitations
      → Any (IsTaken inv) (f s).invitations

abbrev pub HasNumbers : Store → Type 0
HasNumbers s = IsNumbered s.invitations

calm : IsRespected IsHonest HasNumbers HasNumbers
calm f l s i h = l.numbered s h

abbrev Holds : {A : Type 0} → (Store → Type 0) → M Store A → (A → Store → Type 0) → Type 0
Holds = Triple IsHonest HasNumbers

abbrev Nothing : Store → Type 0
Nothing = Always IsHonest HasNumbers

found-hash :
    (hash : Digest) (rs : List InvitationRow) (r : InvitationRow)
    → find (λ r. r.token_hash == hash) rs ≡ some r
    → r.token_hash ≡ hash
found-hash hash rs r h =
    (==_iff r.token_hash hash).0 (found-passes (λ r. r.token_hash == hash) rs r h)

-- The invitation that is read: its digest, and what the table says of its id.
abbrev IsRead : Digest → InvitationRow → Store → Type 0
IsRead hash inv s = (inv.token_hash ≡ hash) × Agrees inv s.invitations

row-IsRead :
    (hash : Digest) (s : Store) (r : Option InvitationRow)
    → find (λ q. q.token_hash == hash) s.invitations ≡ r
    → HasNumbers s
    → Gives IsHonest HasNumbers calm (IsRead hash) (one_row r, s)
row-IsRead hash s none h i = tt
row-IsRead hash s (some r) h i =
    (i, (found-hash hash s.invitations r h, found-Agrees _ s.invitations r i h))

get-Holds : (hash : Digest) → Holds Nothing (query (get_invitation hash)) (IsRead hash)
unfolding get_invitation
get-Holds hash =
    query-Triple IsHonest HasNumbers calm Nothing (IsRead hash) (get_invitation hash)
      (λ _ _ _ _ _. tt) (λ s i _. row-IsRead hash s _ refl i)

module _ (inv : InvitationRow) where
  abbrev Known : Store → Type 0
  Known s = Agrees inv s.invitations

  abbrev Taken : Store → Type 0
  Taken s = Any (IsTaken inv) s.invitations

  mark_row :
      (now : Instant) (s : Store) (r : Option InvitationRow)
      → find (can_be_accepted inv.id now) s.invitations ≡ r
      → HasNumbers s
      → Known s
      → Gives IsHonest HasNumbers calm (λ _. Taken) (marked inv.id now s r)
  mark_row now s none h i k = tt
  mark_row now s (some r) h i k =
      (map-IsNumbered inv.id now s.invitations i, map-IsTaken inv now s.invitations r k h)

  mark-Holds : (now : Instant) → Holds Known (query (mark_accepted inv.id now)) (λ _. Taken)
  unfolding mark_accepted
  mark-Holds now =
      query-Triple IsHonest HasNumbers calm Known (λ _. Taken) (mark_accepted inv.id now)
        (λ f l s i h. l.agrees inv s h) (λ s i k. mark_row now s _ refl i k)

  abbrev IsWritten : MemberRow → MemberRow → Store → Type 0
  IsWritten row r s = (r ≡ row) × Taken s

  row_upserted :
      (row : MemberRow) (s : Store) (valid : Bool)
      → HasNumbers s
      → Taken s
      → Gives IsHonest HasNumbers calm (IsWritten row) (upserted row s valid)
  row_upserted row s true i k = (i, (refl, k))
  row_upserted row s false i k = tt

  add-Holds : (row : MemberRow) → Holds Taken (query (add_member row)) (IsWritten row)
  unfolding add_member
  add-Holds row =
      query-Triple IsHonest HasNumbers calm Taken (IsWritten row) (add_member row)
        (λ f l s i h. l.taken inv s h) (λ s i k. row_upserted row s (valid_role row.role) i k)

  -- The membership that the invitation offers to a user, and the invitation accepted.
  abbrev Offered : Uuid → Member → Store → Type 0
  Offered user_id m s =
      (m.provider_id ≡ inv.provider_id) × (m.user_id ≡ user_id) × (m.role ≡ inv.role) × Taken s

  join-Holds :
      (clock : Clock) (user_id : Uuid) → Holds Known (join clock inv user_id) (Offered user_id)
  unfolding join member_of
  join-Holds clock user_id =
      let row : MemberRow = record {
        provider_id = inv.provider_id;
        user_id = user_id;
        role = inv.role;
      } in
      let gone = missing (conflict "That invitation is no longer valid") in
      let mark = query (mark_accepted inv.id clock.database) in
      let add = query (add_member row) in
      bind-Triple IsHonest HasNumbers calm Known (λ _. Taken) (Offered user_id) (on_error gone mark)
        (λ _. or_internal add >>= λ r. return (member_of r))
        (on_error-Triple IsHonest HasNumbers calm Known (λ _. Taken) gone mark
          (mark-Holds clock.database))
        (λ _.
          bind-Triple IsHonest HasNumbers calm Taken (IsWritten row) (Offered user_id)
            (or_internal add) (λ r. return (member_of r))
            (on_error-Triple IsHonest HasNumbers calm Taken (IsWritten row) caused add
              (add-Holds row))
            (λ r.
              return-Triple IsHonest HasNumbers calm (IsWritten row r) (Offered user_id)
                (member_of r)
                (λ s h. (
                  ap (λ q. q.provider_id) h.0,
                  ap (λ q. q.user_id) h.0,
                  ap (λ q. q.role) h.0,
                  h.1,
                ))))

no_date : (o : Option Instant) → not (is_some o) ≡ true → o ≡ none
no_date none h = refl
no_date (some t) h = absurd (cc)

module _ (codec : Codec) (clock : Clock) (raw : String) (user_id : Uuid) (user_email : String) where
  abbrev Granted : Member → Store → Type 0
  Granted = IsInvited codec clock raw user_id user_email

  abbrev digest : Digest
  digest = codec.sha256 (trim_space raw)

  -- The three checks, and what follows them.
  checked :
      (inv : InvitationRow)
      → Holds
          (IsRead digest inv)
          (guard
              (not (is_some inv.accepted_at))
              (conflict "That invitation has already been accepted")
            >> (guard (leb clock.now inv.expires_at) token_expired
                >> (guard
                      (codec.equal_fold inv.email user_email)
                      (forbidden "That invitation was issued to a different email address")
                    >> join clock inv user_id)))
          Granted
  checked inv = gate-Triple IsHonest HasNumbers calm _ Granted _ _ _ (λ pending.
      gate-Triple IsHonest HasNumbers calm _ Granted _ _ _ (λ early.
        gate-Triple IsHonest HasNumbers calm _ Granted _ _ _ (λ mine w i k.
          weaken IsHonest HasNumbers calm (Offered inv user_id) Granted (join clock inv user_id w)
            (λ m s o. record {
              invitation = inv;
              accepted = o.3;
              of_token = k.0;
              pending = no_date inv.accepted_at pending;
              in_time = leb→le clock.now inv.expires_at early;
              addressed = mine;
              provider = o.0;
              user = o.1;
              role = o.2;
            })
            (join-Holds inv clock user_id w i k.1))))

  redeem-Holds : Holds Nothing (redeem codec clock (trim_space raw) user_id user_email) Granted
  unfolding redeem hash_refresh_token
  redeem-Holds =
      let get = query (get_invitation digest) in
      bind-Triple IsHonest HasNumbers calm Nothing (IsRead digest) Granted
        (on_error (missing invalid_token) get) _
        (on_error-Triple IsHonest HasNumbers calm Nothing (IsRead digest) (missing invalid_token)
          get (get-Holds digest))
        (λ inv. checked inv)

  Granted-IsRespected : (m : Member) → IsRespected IsHonest HasNumbers (Granted m)
  Granted-IsRespected m f l s i g = record {
    invitation = g.invitation;
    accepted = l.taken g.invitation s g.accepted;
    of_token = g.of_token;
    pending = g.pending;
    in_time = g.in_time;
    addressed = g.addressed;
    provider = g.provider;
    user = g.user;
    role = g.role;
  }

  accept-Holds : Holds Nothing (accept_invitation codec clock raw user_id user_email) Granted
  unfolding accept_invitation
  accept-Holds =
      gate-Triple IsHonest HasNumbers calm Nothing Granted (not (text_eq (trim_space raw) ""))
        (validation "token is required") _
        (λ _.
          in_tx-Triple IsHonest HasNumbers calm Nothing Granted
            (redeem codec clock (trim_space raw) user_id user_email) (λ _ _ _ _ _. tt)
            Granted-IsRespected redeem-Holds)

-- Whoever becomes a member by `AcceptInvitation` does so for the user that asks, at the provider and in
-- the role of an invitation whose token was given, which was pending and in time when it was read, and
-- which was sent to the address of that user; and when the call answers, that invitation stands in the
-- table as accepted. The table must have one row for each id when the call begins, outside of a
-- transaction, and the other sessions must keep that, change nothing that an invitation offers, and
-- delete none that was accepted.
pub accept_invitation-IsInvited :
    (codec : Codec) (clock : Clock) (token : String) (user_id : Uuid) (user_email : String)
    (w : World Store)
    → w.committed ≡ none
    → HasNumbers w.store
    → All (λ t. IsHonest t.others) w.turns
    → Leaves
        (IsInvited codec clock token user_id user_email)
        (accept_invitation codec clock token user_id user_email w)
accept_invitation-IsInvited codec clock token user_id user_email w e h l =
    After-Leaves IsHonest HasNumbers (IsInvited codec clock token user_id user_email)
      (accept_invitation codec clock token user_id user_email w)
      (accept-Holds codec clock token user_id user_email w
        (record {
          holds = h;
          undone = subst (λ c. HasNumbers (get_or c w.store)) (sym e) h;
          turns = l;
        })
        tt)
