-- ===== src/Auth/Replay.antt =====
-- The replay of a refresh token that was rotated away (`Refresh` of internal/auth/service.go).
use nearby_backend.Prelude.{
  ◌≡◌, refl, inl, inr, true, false, String, some, List, [], ◌∷◌, map, find, is_some, All, ◌==◌,
  Bool-cases, kept-set, ==_iff,
}
use nearby_backend.Prelude.Text.{text_eq, trim_space}
use nearby_backend.Platform.Errors.{invalid_token}
use nearby_backend.Platform.Database.{api, err, World, query}
use nearby_backend.Accounts.Tables.{Uuid, Instant, RefreshTokenRow, Codec, Clock, Store}
use nearby_backend.Auth.Tokens.{hash_refresh_token}
use nearby_backend.Auth.Queries.{
  is_live, revoke_row, revoke_where, get_refresh_token_by_hash, revoke_all_user_refresh_tokens,
}
use nearby_backend.Auth.Sessions.{Settings, refresh, refresh_stored}

-- A token of this user is revoked.
abbrev pub IsOut : Uuid → RefreshTokenRow → Type 0
IsOut user_id r = r.user_id ≡ user_id → is_some r.revoked_at ≡ true

revoke_row-IsOut :
    (user_id : Uuid) (now : Instant) (r : RefreshTokenRow)
    → IsOut user_id (revoke_row (λ q. q.user_id == user_id) now r)
unfolding revoke_row
revoke_row-IsOut user_id now r = elim (Bool-cases (is_live (λ q. q.user_id == user_id) r)) [
  | inl e ↦ rw e (λ _. refl)
  | inr e ↦ rw e (λ same.
      kept-set (r.user_id == user_id) (is_some r.revoked_at) e ((==_iff r.user_id user_id).1 same))
]

map-IsOut :
    (user_id : Uuid) (now : Instant) (rs : List RefreshTokenRow)
    → All (IsOut user_id) (map (revoke_row (λ q. q.user_id == user_id) now) rs)
map-IsOut user_id now [] = tt
map-IsOut user_id now (r ∷ rs) = (revoke_row-IsOut user_id now r, map-IsOut user_id now rs)

-- `Refresh` with a token whose row is revoked answers that the token is not valid, and afterwards every
-- refresh token of its user is revoked, if no statement fails and no other session writes meanwhile.
pub refresh-IsOut :
    (settings : Settings) (codec : Codec) (clock : Clock) (token : String) (w : World Store)
    (stored : RefreshTokenRow)
    → w.turns ≡ []
    → text_eq (trim_space token) "" ≡ false
    → find (λ r. r.token_hash == codec.sha256 (trim_space token)) w.store.refresh_tokens
      ≡ some stored
    → is_some stored.revoked_at ≡ true
    → ((refresh settings codec clock token w).0 ≡ err (api invalid_token))
      × All (IsOut stored.user_id) (refresh settings codec clock token w).1.store.refresh_tokens
unfolding refresh refresh_stored hash_refresh_token query get_refresh_token_by_hash
    revoke_all_user_refresh_tokens revoke_where
refresh-IsOut settings codec clock token w stored idle given found revoked =
    rw (idle, given, found, revoked)
      (refl, map-IsOut stored.user_id clock.database w.store.refresh_tokens)
