-- ===== src/Auth/Rotation.antt =====
-- `Refresh` (internal/auth/service.go), statement by statement: what is known of the token's row.
use nearby_backend.Prelude.{
  ℕ, ◌≡◌, refl, inr, Bool, true, false, Option, none, some, List, find, exists, Any, leb, ◌==◌,
}
use nearby_backend.Platform.Errors.{Error, token_expired}
use nearby_backend.Platform.Database.{
  Failure, caused, Outcome, M, ◌>>=◌, ◌>>◌, return, guard, lift, on_error, or_internal, query,
  in_tx, rand_int,
}
use nearby_backend.Platform.Facts.{
  IsRespected, Triple, Always, Gives, bind-Triple, seq-Triple, on_error-Triple, guard-Triple,
  mono-Triple, query-Triple, in_tx-Triple,
}
use nearby_backend.Platform.Steady.{
  Steady, bind-Steady, seq-Steady, on_error-Steady, guard-Steady, lift-Steady, return-Steady,
  query-Steady, read-Steady, rand_int-Steady,
}
use nearby_backend.Accounts.Tables.{
  Uuid, Instant, Digest, ClientType, RefreshTokenRow, Codec, Clock, Store, one_row,
}
use nearby_backend.Auth.Tokens.{new_refresh_token}
use nearby_backend.Auth.Queries.{
  MembershipRow, get_user_by_id, list_memberships_by_user, create_refresh_token, token_created,
  get_refresh_token_by_hash, revoke_refresh_token, revoke_where, revoke_all_user_refresh_tokens,
}
use nearby_backend.Auth.Accounts.{User}
use nearby_backend.Auth.Sessions.{
  Settings, Session, issue_session, memberships_for, rotate, refresh_stored,
}
use nearby_backend.Auth.Ledger.{
  IsLedger, IsToken, IsSpentToken, map-spends, map-IsLedger, fresh-IsLedger, found-IsToken,
}

-- A write of another session: digests stay apart, no row of a token goes, and none is revived.
pub record IsCareful (f : Store → Store) : Type 0 where
  pub ledger : (s : Store) → IsLedger s.refresh_tokens → IsLedger (f s).refresh_tokens
  pub tokens :
      (id : Uuid) (hash : Digest) (s : Store)
      → Any (IsToken id hash) s.refresh_tokens
      → Any (IsToken id hash) (f s).refresh_tokens
  pub spent :
      (id : Uuid) (hash : Digest) (s : Store)
      → Any (IsSpentToken id hash) s.refresh_tokens
      → Any (IsSpentToken id hash) (f s).refresh_tokens

abbrev pub HasLedger : Store → Type 0
HasLedger s = IsLedger s.refresh_tokens

pub calm : IsRespected IsCareful HasLedger HasLedger
calm f l s i h = l.ledger s h

abbrev pub Holds : {A : Type 0} → (Store → Type 0) → M Store A → (A → Store → Type 0) → Type 0
Holds = Triple IsCareful HasLedger

abbrev pub Nothing : Store → Type 0
Nothing = Always IsCareful HasLedger

module _ (id : Uuid) (hash : Digest) where
  abbrev pub Filed : Store → Type 0
  Filed s = Any (IsToken id hash) s.refresh_tokens

  abbrev pub Spent : Store → Type 0
  Spent s = Any (IsSpentToken id hash) s.refresh_tokens

  pub Filed-IsRespected : IsRespected IsCareful HasLedger Filed
  Filed-IsRespected f l s i h = l.tokens id hash s h

  pub Spent-IsRespected : IsRespected IsCareful HasLedger Spent
  Spent-IsRespected f l s i h = l.spent id hash s h

  abbrev Keeps : {A : Type 0} → M Store A → Type 0
  Keeps = Steady IsCareful HasLedger calm Spent Spent-IsRespected

  bind :
      {A B : Type 0} (m : M Store A) (f : A → M Store B)
      → Keeps m
      → ((a : A) → Keeps (f a))
      → Keeps (m >>= f)
  bind = bind-Steady IsCareful HasLedger calm Spent Spent-IsRespected

  seq : {B : Type 0} (m : M Store (Unit {0})) (k : M Store B) → Keeps m → Keeps k → Keeps (m >> k)
  seq = seq-Steady IsCareful HasLedger calm Spent Spent-IsRespected

  row_created :
      (row : RefreshTokenRow) (s : Store) (taken : Bool)
      → exists (λ r. r.token_hash == row.token_hash) s.refresh_tokens ≡ taken
      → HasLedger s
      → Spent s
      → Gives IsCareful HasLedger calm (λ _. Spent) (token_created row s taken)
  row_created row s true e i p = tt
  row_created row s false e i p = ((fresh-IsLedger row s.refresh_tokens e, i), inr p)

  create-Keeps : (row : RefreshTokenRow) → Keeps (query (create_refresh_token row))
  unfolding create_refresh_token
  create-Keeps row =
      query-Steady IsCareful HasLedger calm Spent Spent-IsRespected (create_refresh_token row)
        (λ s i p. row_created (record row { id = s.next_id }) s _ refl i p)

  user-Keeps : (u : Uuid) → Keeps (query (get_user_by_id u))
  unfolding get_user_by_id
  user-Keeps u = read-Steady IsCareful HasLedger calm Spent Spent-IsRespected _

  memberships-Keeps : (u : Uuid) → Keeps (query (list_memberships_by_user u))
  unfolding list_memberships_by_user
  memberships-Keeps u = read-Steady IsCareful HasLedger calm Spent Spent-IsRespected _

  or_internal-Keeps : {A : Type 0} (m : M Store A) → Keeps m → Keeps (or_internal m)
  or_internal-Keeps = on_error-Steady IsCareful HasLedger calm Spent Spent-IsRespected caused

  on : {A : Type 0} (f : Failure → Failure) (m : M Store A) → Keeps m → Keeps (on_error f m)
  on = on_error-Steady IsCareful HasLedger calm Spent Spent-IsRespected

  check : (t : Bool) (e : Error) → Keeps (guard t e)
  check = guard-Steady IsCareful HasLedger calm Spent Spent-IsRespected

  give : {A : Type 0} (a : A) → Keeps (return a)
  give = return-Steady IsCareful HasLedger calm Spent Spent-IsRespected

  pure-Keeps : {A : Type 0} (r : Outcome A) → Keeps (lift r)
  pure-Keeps = lift-Steady IsCareful HasLedger calm Spent Spent-IsRespected

  draw-Keeps : (n : ℕ) → Keeps (rand_int n)
  draw-Keeps = rand_int-Steady IsCareful HasLedger calm Spent Spent-IsRespected

  ruleset steps = (bind, seq, on, check, give, pure-Keeps, draw-Keeps)

  new_refresh_token-Keeps : (codec : Codec) → Keeps (new_refresh_token codec)
  unfolding new_refresh_token
  new_refresh_token-Keeps codec = search steps

  memberships_for-Keeps : (u : Uuid) → Keeps (memberships_for u)
  unfolding memberships_for
  memberships_for-Keeps u = search (steps, memberships-Keeps)

  issue_session-Keeps :
      (settings : Settings) (codec : Codec) (clock : Clock) (user : User)
      (memberships : List MembershipRow) (client_type : ClientType)
      → Keeps (issue_session settings codec clock user memberships client_type)
  unfolding issue_session
  issue_session-Keeps settings codec clock user memberships client_type =
      search (steps, new_refresh_token-Keeps, create-Keeps)

  -- The guarded UPDATE: whatever it counts, the row is revoked afterwards.
  revoke-Holds : (now : Instant) → Holds Filed (query (revoke_refresh_token id now)) (λ _. Spent)
  unfolding revoke_refresh_token revoke_where
  revoke-Holds now =
      query-Triple IsCareful HasLedger calm Filed (λ _. Spent) (revoke_refresh_token id now)
        Filed-IsRespected
        (λ s i p.
          (map-IsLedger _ now s.refresh_tokens i, map-spends now id hash s.refresh_tokens p))

-- The token's row, revoked.
abbrev pub Used : Digest → Store → Type 0
Used hash s = (id : Uuid) × Any (IsSpentToken id hash) s.refresh_tokens

read_row :
    (hash : Digest) (s : Store) (r : Option RefreshTokenRow)
    → find (λ q. q.token_hash == hash) s.refresh_tokens ≡ r
    → HasLedger s
    → Gives IsCareful HasLedger calm (λ row t. Filed row.id hash t) (one_row r, s)
read_row hash s none h i = tt
read_row hash s (some r) h i = (i, found-IsToken hash s.refresh_tokens r h)

pub get-Holds :
    (hash : Digest)
    → Holds Nothing (query (get_refresh_token_by_hash hash)) (λ row s. Filed row.id hash s)
unfolding get_refresh_token_by_hash
get-Holds hash =
    query-Triple IsCareful HasLedger calm Nothing _ (get_refresh_token_by_hash hash)
      (λ _ _ _ _ _. tt) (λ s i _. read_row hash s _ refl i)

module _ (settings : Settings) (codec : Codec) (clock : Clock) where
  rotate-Holds :
      (hash : Digest) (stored : RefreshTokenRow)
      → Holds
          (Filed stored.id hash)
          (rotate settings codec clock stored)
          (λ _. Spent stored.id hash)
  unfolding rotate
  rotate-Holds hash stored =
      bind-Triple IsCareful HasLedger calm (Filed stored.id hash) (λ _. Spent stored.id hash)
        (λ _. Spent stored.id hash)
        (or_internal (query (revoke_refresh_token stored.id clock.database))) _
        (on_error-Triple IsCareful HasLedger calm _ _ caused _
          (revoke-Holds stored.id hash clock.database))
        (λ consumed. search (
          bind stored.id hash,
          seq stored.id hash,
          on stored.id hash,
          check stored.id hash,
          user-Keeps stored.id hash,
          memberships_for-Keeps stored.id hash,
          issue_session-Keeps stored.id hash,
        ))

  -- The replay of a revoked token is refused.
  pub replay-Holds :
      (F : Store → Type 0) (G : Session → Store → Type 0) (stored : RefreshTokenRow)
      → IsRespected IsCareful HasLedger F
      → Holds F (refresh_stored settings codec clock stored true) G
  unfolding refresh_stored revoke_all_user_refresh_tokens revoke_where
  replay-Holds F G stored r =
      let revoke = revoke_all_user_refresh_tokens stored.user_id clock.database in
      seq-Triple IsCareful HasLedger calm F Nothing G (or_internal (query revoke)) _
        (on_error-Triple IsCareful HasLedger calm F _ caused (query revoke) (
          query-Triple IsCareful HasLedger calm F (λ _. Nothing) revoke r
            (λ s i p. (map-IsLedger _ clock.database s.refresh_tokens i, tt))))
        (λ w i p. i)

  live-Holds :
      (hash : Digest) (stored : RefreshTokenRow)
      → Holds
          (Filed stored.id hash)
          (refresh_stored settings codec clock stored false)
          (λ _. Spent stored.id hash)
  unfolding refresh_stored
  live-Holds hash stored =
      let filed = Filed stored.id hash in
      let early = guard (leb clock.now stored.expires_at) token_expired in
      seq-Triple IsCareful HasLedger calm filed filed (λ _. Spent stored.id hash) early
        (in_tx (rotate settings codec clock stored))
        (mono-Triple IsCareful HasLedger calm filed _ (λ _. filed) early (λ _ s h. h.1)
          (guard-Triple IsCareful HasLedger calm filed _ token_expired))
        (in_tx-Triple IsCareful HasLedger calm filed (λ _. Spent stored.id hash)
          (rotate settings codec clock stored) (Filed-IsRespected stored.id hash)
          (λ _. Spent-IsRespected stored.id hash) (rotate-Holds hash stored))

  pub stored-Holds :
      (hash : Digest) (stored : RefreshTokenRow) (revoked : Bool)
      → Holds
          (Filed stored.id hash)
          (refresh_stored settings codec clock stored revoked)
          (λ _. Used hash)
  stored-Holds hash stored true =
      replay-Holds (Filed stored.id hash) _ stored (Filed-IsRespected stored.id hash)
  stored-Holds hash stored false =
      mono-Triple IsCareful HasLedger calm (Filed stored.id hash) (λ _. Spent stored.id hash)
        (λ _. Used hash) (refresh_stored settings codec clock stored false)
        (λ _ s h. (stored.id, h)) (live-Holds hash stored)
