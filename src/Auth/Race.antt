-- ===== src/Auth/Race.antt =====
-- A refresh whose UPDATE finds the token revoked (`Refresh` of internal/auth/service.go): the row was
-- live when it was read, and another call was faster.
use nearby_backend.Prelude.{
  ℕ, ◌≡◌, refl, sym, ◌∙◌, subst, inl, inr, Bool, true, false, not, String, Option, none, some, List,
  [], ◌∷◌, select, length, find, is_some, leb, All, Any, All-Any, ◌==◌, arith,
}
use nearby_backend.Prelude.Keyed.{HasOtherKey, IsKeyed}
use nearby_backend.Prelude.Text.{text_eq, trim_space}
use nearby_backend.Platform.Errors.{Error, invalid_token, token_expired}
use nearby_backend.Platform.Database.{
  caused, missing, Outcome, ok, err, World, M, ◌>>=◌, ◌>>◌, guard, on_error, or_internal, query,
}
use nearby_backend.Platform.Turns.{
  meanwhile, IsNext, meanwhile_next, rest-All, meanwhile_keeps, Ends, continue-Ends, map_error-Ends,
  query-Ends, in_tx-Ends,
}
use nearby_backend.Accounts.Tables.{Uuid, Digest, RefreshTokenRow, Codec, Clock, Store, one_row}
use nearby_backend.Auth.Tokens.{hash_refresh_token}
use nearby_backend.Auth.Queries.{
  is_live, revoke_refresh_token, revoke_all_user_refresh_tokens, get_refresh_token_by_hash,
}
use nearby_backend.Auth.Sessions.{Settings, Session, rotate, refresh_stored, refresh}
use nearby_backend.Auth.Ledger.{IsLedger, IsToken, IsSpentToken, found-IsToken}
use nearby_backend.Auth.Rotation.{IsCareful, HasLedger, Filed, Used}

-- The primary key.
abbrev pub HasIds : Store → Type 0
HasIds s = IsKeyed (λ r. r.id) s.refresh_tokens

-- The rows with one digest are one row.
same_token :
    (id other : Uuid) (hash : Digest) (rs : List RefreshTokenRow)
    → IsLedger rs
    → Any (IsToken id hash) rs
    → Any (IsSpentToken other hash) rs
    → Any (IsSpentToken id hash) rs
same_token id other hash [] k h s = elim h [ ]
same_token id other hash (r ∷ rs) k (inl h) (inl s) = inl (h.0, h.1, s.2)
same_token id other hash (r ∷ rs) k (inl h) (inr s) =
    let (q, apart, here) = All-Any rs k.0 s in absurd (ground arith)
same_token id other hash (r ∷ rs) k (inr h) (inl s) =
    let (q, apart, here) = All-Any rs k.0 h in absurd (ground arith)
same_token id other hash (r ∷ rs) k (inr h) (inr s) = inr (same_token id other hash rs k.1 h s)

no_other :
    (id : Uuid) (r : RefreshTokenRow) (rs : List RefreshTokenRow)
    → r.id ≡ id
    → All (HasOtherKey (λ q. q.id) r) rs
    → length (select (is_live (λ q. q.id == id)) rs) ≡ 0
unfolding select
no_other id r [] e h = refl
no_other id r (q ∷ qs) e h = ground (arith, no_other id r qs e h.1)

-- The UPDATE finds no live row of a token that is spent.
none_live :
    (id : Uuid) (hash : Digest) (rs : List RefreshTokenRow)
    → IsKeyed (λ r. r.id) rs
    → Any (IsSpentToken id hash) rs
    → length (select (is_live (λ q. q.id == id)) rs) ≡ 0
unfolding select
none_live id hash [] k s = elim s [ ]
none_live id hash (r ∷ rs) k (inl s) = ground (arith, no_other id r rs s.0 k.0)
none_live id hash (r ∷ rs) k (inr s) =
    let (q, apart, here) = All-Any rs k.0 s in ground (arith, none_live id hash rs k.1 s)

-- An operation of which nothing is said.
unknown : {A : Type 0} (r : Outcome A × World Store) → Ends (λ _ _. Unit {0}) r
unknown (ok a, w) = tt
unknown (err e, w) = tt

abbrev Never : {A : Type 0} → A → World Store → Type 0
Never _ _ = ⊥

passed : (t : Bool) (e : Error) (w : World Store) → Ends (λ _ v. w ≡ v) (guard t e w)
passed true e w = refl
passed false e w = tt

module _ (settings : Settings) (codec : Codec) (clock : Clock) (hash : Digest) (seen : Store)
    (ledger : HasLedger seen) (ids : HasIds seen) (spent : Used hash seen) where
  -- The row that was read is there when the UPDATE runs.
  module _ (stored : RefreshTokenRow) (there : Filed stored.id hash seen) where
    consumed_none :
        (u : World Store)
        → meanwhile 1 u.turns u.store ≡ seen
        → Ends (λ n _. n ≡ 0) (query (revoke_refresh_token stored.id clock.database) u)
    unfolding revoke_refresh_token
    consumed_none u e =
        query-Ends (λ n _. n ≡ 0) (revoke_refresh_token stored.id clock.database) u
          (λ y i. count y.store (i.store ∙ e))
      where
        count :
            (s : Store)
            → s ≡ seen
            → length (select (is_live (λ q. q.id == stored.id)) s.refresh_tokens) ≡ 0
        count s h =
            let (other, old) = spent in
            subst (λ t. length (select (is_live (λ q. q.id == stored.id)) t.refresh_tokens) ≡ 0)
              (sym h)
              (none_live stored.id hash seen.refresh_tokens ids
                (same_token stored.id other hash seen.refresh_tokens ledger there old))

    rotate-Never :
        (u : World Store)
        → meanwhile 1 u.turns u.store ≡ seen
        → Ends Never (rotate settings codec clock stored u)
    unfolding rotate
    rotate-Never u e =
        let revoke = query (revoke_refresh_token stored.id clock.database) in
        continue-Ends (λ n _. n ≡ 0) Never _ (or_internal revoke u)
          (map_error-Ends (λ n _. n ≡ 0) caused (revoke u) (consumed_none u e))
          (λ n v z. stopped _ n v (sym z))
      where
        stopped :
            (k : M Store Session) (n : ℕ) (v : World Store)
            → 0 ≡ n
            → Ends Never ((guard (not (n == 0)) invalid_token >> k) v)
        stopped k n v z = subst (λ m. Ends Never ((guard (not (m == 0)) invalid_token >> k) v)) z tt

    stored-Never :
        (u : World Store) (revoked : Bool)
        → meanwhile 2 u.turns u.store ≡ seen
        → Ends Never (refresh_stored settings codec clock stored revoked u)
    unfolding refresh_stored
    stored-Never u true e =
        continue-Ends (λ _ _. Unit {0}) Never _
          (or_internal (query (revoke_all_user_refresh_tokens stored.user_id clock.database)) u)
          (unknown _) (λ _ _ _. tt)
    stored-Never u false e =
        let early = leb clock.now stored.expires_at in
        continue-Ends (λ _ v. u ≡ v) Never _ (guard early token_expired u)
          (passed early token_expired u)
          (λ _ v same. in_tx-Ends (rotate settings codec clock stored) v (λ x i.
            rotate-Never x
              (meanwhile_next 1 v x i ∙ subst (λ y. meanwhile 2 y.turns y.store ≡ seen) same e)))

-- A refresh whose UPDATE sees the token spent gives no session.
module _ (settings : Settings) (codec : Codec) (clock : Clock) (raw : String) (v : World Store)
    (careful : All (λ t. IsCareful t.others) v.turns) where
  abbrev at_update : Store
  at_update = meanwhile 3 v.turns v.store

  abbrev digest : Digest
  digest = codec.sha256 (trim_space raw)

  -- The row that is read, in the store that the UPDATE will see.
  record IsRead (row : RefreshTokenRow) (u : World Store) : Type 0 where
    there : Filed row.id digest at_update
    ahead : meanwhile 2 u.turns u.store ≡ at_update

  reads : Ends IsRead (query (get_refresh_token_by_hash digest) v)
  unfolding get_refresh_token_by_hash
  reads =
      query-Ends IsRead (get_refresh_token_by_hash digest) v
        (λ u i. found u i (find (λ q. q.token_hash == digest) u.store.refresh_tokens) refl)
    where
      found :
          (u : World Store)
          → IsNext v u
          → (o : Option RefreshTokenRow)
          → find (λ q. q.token_hash == digest) u.store.refresh_tokens ≡ o
          → Ends IsRead (one_row o, u)
      found u i none h = tt
      found u i (some row) h =
          let ahead : meanwhile 2 u.turns u.store ≡ at_update = meanwhile_next 2 v u i in
          record {
            there = subst (Filed row.id digest) ahead (
                meanwhile_keeps IsCareful (Filed row.id digest) 2 u.turns u.store
                  (λ f l s p. l.tokens row.id digest s p) (rest-All IsCareful v u i careful)
                  (found-IsToken digest u.store.refresh_tokens row h));
            ahead = ahead;
          }

  pub refresh-Never :
      HasLedger at_update
      → HasIds at_update
      → Used digest at_update
      → Ends Never (refresh settings codec clock raw v)
  unfolding refresh hash_refresh_token
  refresh-Never ledger ids spent =
      let blank = not (text_eq (trim_space raw) "") in
      let get = query (get_refresh_token_by_hash digest) in
      continue-Ends (λ _ w. v ≡ w) Never _ (guard blank invalid_token v)
        (passed blank invalid_token v)
        (λ _ w same.
          subst
            (λ x. Ends Never (
              (on_error (missing invalid_token) get >>= λ stored.
              refresh_stored settings codec clock stored (is_some stored.revoked_at))
                x))
            same
            (continue-Ends IsRead Never _ (on_error (missing invalid_token) get v)
              (map_error-Ends IsRead (missing invalid_token) (get v) reads)
              (λ row u r.
                stored-Never settings codec clock digest at_update ledger ids spent row r.there u
                  (is_some row.revoked_at) r.ahead)))
