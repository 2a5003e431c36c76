-- ===== src/Auth/Tests.antt =====
-- The theorems of the auth package for a concrete user.
use nearby_backend.Prelude.{
  ℕ, ◌≡◌, ◌≢◌, ◌==◌, refl, inl, inr, map, exists, Any, Bool-cases, Bool, false, none, some, List,
  [], ◌∷◌, All, find, arith,
}
use nearby_backend.Prelude.Text.{text_eq, trim_space}
use Prim.Native.String.{len}
use nearby_backend.Platform.Errors.{invalid_token}
use nearby_backend.Platform.Database.{api, ok, err, Turn, World, query, in_tx, rand_int}
use nearby_backend.Accounts.Tables.{
  mobile, platform_user, owner, UserRow, RefreshTokenRow, CodeRow, Store, Clock, Codec,
}
use nearby_backend.Auth.Queries.{
  is_live_for, get_refresh_token_by_hash, revoke_refresh_token, get_user_by_id,
  list_memberships_by_user, create_refresh_token, token_created, revoke_where, revoke_row, is_live,
}
use nearby_backend.Auth.Tokens.{new_refresh_token}
use nearby_backend.Auth.Sessions.{Settings, Session, refresh}
use nearby_backend.Auth.Verification.{verify_email}
use nearby_backend.Auth.Rotation.{IsCareful}
use nearby_backend.Platform.Turns.{meanwhile}
use nearby_backend.Auth.Ledger.{
  IsLedger, IsToken, IsSpentToken, fresh-IsLedger, map-IsLedger, map-IsSpentToken,
}
use nearby_backend.Auth.Race.{HasIds}
use nearby_backend.Auth.Once.{refresh-once}
use nearby_backend.Auth.Replay.{IsOut, refresh-IsOut}
use nearby_backend.Auth.Refusal.{verify_email-refuses}
use nearby_backend.Auth.Success.{IsVerified, IsConsumed, verify_email-verifies}

-- A codec that can be run: a text's digest is its length.
abbrev codec : Codec
codec = record {
  to_lower = λ s. s;
  equal_fold = text_eq;
  sql_lower = λ s. s;
  sha256 = len;
  base64 = λ n. "a fresh token";
  is_address = λ s. Bool.true;
  argon2 = λ salt s. s;
  verify_password = λ s hash. some (text_eq s hash);
}

abbrev settings : Settings
settings = record {
  issuer = "nearby";
  access_ttl = 10;
  refresh_ttl_web = 100;
  refresh_ttl_mobile = 300;
  sign = λ claims. some "signed";
}

abbrev clock : Clock
clock = record { now = 50; database = 51 }

abbrev abebe : UserRow
abebe = record {
  id = 1;
  name = "Abebe";
  email = "abebe@mail.et";
  phone = none;
  password_hash = "secret";
  platform_role = platform_user;
  email_verified = false;
  fcm_token = none;
}

abbrev token_row : RefreshTokenRow
token_row = record {
  id = 3;
  user_id = 1;
  token_hash = 3;
  client_type = mobile;
  expires_at = 90;
  revoked_at = none;
}

abbrev code_row : CodeRow
code_row = record {
  id = 4;
  user_id = 1;
  destination = "abebe@mail.et";
  code_hash = 6;
  attempts = 4;
  expires_at = 60;
  consumed_at = none;
}

abbrev tables : RefreshTokenRow → CodeRow → Store
tables token code = record {
  users = abebe ∷ [];
  providers = record { id = 7; slug = "shop"; name = "Shop"; status = "active" } ∷ [];
  members = record { provider_id = 7; user_id = 1; role = owner } ∷ [];
  invitations = [];
  refresh_tokens = token ∷ [];
  codes = code ∷ [];
  next_id = 9;
}

abbrev world : List (Turn Store) → Store → World Store
world turns s = record {
  store = s;
  turns = turns;
  committed = none;
  draws = λ n. some n;
  drawn = 0;
}

-- Another session drops a membership before the first statement.
abbrev rival : List (Turn Store)
rival = record { others = λ s. record s { members = [] }; fault = none } ∷ []

abbrev first_world : World Store
first_world = world rival (tables token_row code_row)

abbrev first_session : Session
first_session = record {
  user = record {
    id = 1;
    name = "Abebe";
    email = "abebe@mail.et";
    phone = none;
    platform_role = platform_user;
    email_verified = false;
  };
  memberships = [];
  tokens = record { access_token = "signed"; refresh_token = "a fresh token"; expires_at = 60 };
}

rival-IsCareful : IsCareful (λ s. record s { members = [] })
rival-IsCareful = record { ledger = λ s h. h; tokens = λ id hash s h. h; spent = λ id hash s h. h }

answered : (refresh settings codec clock " old " first_world).0 ≡ ok first_session
unfolding refresh query get_refresh_token_by_hash in_tx revoke_refresh_token get_user_by_id
    list_memberships_by_user new_refresh_token rand_int create_refresh_token
answered = refl

-- What the first call writes, as a write that the second call meets between its BEGIN and its UPDATE.
abbrev issued_row : RefreshTokenRow
issued_row = record {
  id = 9;
  user_id = 1;
  token_hash = 13;
  client_type = mobile;
  expires_at = 350;
  revoked_at = none;
}

abbrev issued : Store → Store
issued s =
    (token_created issued_row s
      (exists (λ r. r.token_hash == issued_row.token_hash) s.refresh_tokens)).1

abbrev swap : Store → Store
swap s = issued (revoke_where (λ r. r.id == 3) 51 s)

issued-HasLedger :
    (s : Store) (taken : Bool)
    → exists (λ r. r.token_hash == issued_row.token_hash) s.refresh_tokens ≡ taken
    → IsLedger s.refresh_tokens
    → IsLedger (token_created issued_row s taken).1.refresh_tokens
issued-HasLedger s Bool.true e h = h
issued-HasLedger s Bool.false e h = (fresh-IsLedger issued_row s.refresh_tokens e, h)

issued_keeps :
    (P : RefreshTokenRow → Type 0) (s : Store) (taken : Bool)
    → Any P s.refresh_tokens
    → Any P (token_created issued_row s taken).1.refresh_tokens
issued_keeps P s Bool.true h = h
issued_keeps P s Bool.false h = inr h

revoked-IsToken :
    (id hash : ℕ) (r : RefreshTokenRow)
    → IsToken id hash r
    → IsToken id hash (revoke_row (λ q. q.id == 3) 51 r)
unfolding revoke_row
revoked-IsToken id hash r h = elim (Bool-cases (is_live (λ q. q.id == 3) r)) [
  | inl e ↦ rw e h
  | inr e ↦ rw e h
]

map-IsToken :
    (id hash : ℕ) (rs : List RefreshTokenRow)
    → Any (IsToken id hash) rs
    → Any (IsToken id hash) (map (revoke_row (λ q. q.id == 3) 51) rs)
map-IsToken id hash [] h = elim h [ ]
map-IsToken id hash (r ∷ rs) (inl h) = inl (revoked-IsToken id hash r h)
map-IsToken id hash (r ∷ rs) (inr h) = inr (map-IsToken id hash rs h)

swap-IsCareful : IsCareful swap
unfolding revoke_where
swap-IsCareful = record {
  ledger = λ s h.
      issued-HasLedger (revoke_where (λ r. r.id == 3) 51 s) _ refl
        (map-IsLedger (λ r. r.id == 3) 51 s.refresh_tokens h);
  tokens = λ id hash s h.
      issued_keeps (IsToken id hash) (revoke_where (λ r. r.id == 3) 51 s) _
        (map-IsToken id hash s.refresh_tokens h);
  spent = λ id hash s h.
      issued_keeps (IsSpentToken id hash) (revoke_where (λ r. r.id == 3) 51 s) _
        (map-IsSpentToken (λ r. r.id == 3) 51 id hash s.refresh_tokens h);
}

idle-IsCareful : IsCareful (λ s. s)
idle-IsCareful = record { ledger = λ s h. h; tokens = λ id hash s h. h; spent = λ id hash s h. h }

-- The second call has read the live row before the first one writes.
abbrev second_world : World Store
second_world =
    world
      (record { others = λ s. record s { members = [] }; fault = none }
        ∷ record { others = λ s. s; fault = none }
        ∷ record { others = swap; fault = none }
        ∷ [])
      (tables token_row code_row)

swapped :
    meanwhile 3 second_world.turns second_world.store
    ≡ (refresh settings codec clock " old " first_world).1.store
unfolding meanwhile refresh query get_refresh_token_by_hash in_tx revoke_refresh_token
    get_user_by_id list_memberships_by_user new_refresh_token rand_int create_refresh_token exists
swapped = refl

swapped-HasIds : HasIds (meanwhile 3 second_world.turns second_world.store)
unfolding meanwhile revoke_where exists revoke_row
swapped-HasIds = ((refl, tt), (tt, tt))

refresh-once_example : (refresh settings codec clock " old " second_world).0 ≢ ok first_session
refresh-once_example =
    refresh-once settings codec clock clock " old " first_world second_world (λ s. s) first_session
      first_session refl (tt, tt) (rival-IsCareful, tt) answered
      (rival-IsCareful, (idle-IsCareful, (swap-IsCareful, tt))) idle-IsCareful swapped-HasIds
      swapped

abbrev revoked_row : RefreshTokenRow
revoked_row = record token_row { revoked_at = some 40 }

replayed :
    find (λ r. r.token_hash == codec.sha256 (trim_space " old ")) (revoked_row ∷ [])
    ≡ some revoked_row
unfolding find trim_space
replayed = refl

given : text_eq (trim_space " old ") "" ≡ false
unfolding trim_space
given = refl

refresh-IsOut_example :
    ((refresh settings codec clock " old " (world [] (tables revoked_row code_row))).0
      ≡ err (api invalid_token))
    × All
        (IsOut 1)
        (refresh settings codec clock " old "
          (world [] (tables revoked_row code_row))).1.store.refresh_tokens
refresh-IsOut_example =
    refresh-IsOut settings codec clock " old " (world [] (tables revoked_row code_row)) revoked_row
      refl given replayed refl

abbrev worn_row : CodeRow
worn_row = record code_row { attempts = 5 }

verify_email-refuses_example :
    (verify_email codec clock "abebe@mail.et" "123456" (world [] (tables token_row worn_row))).0
    ≢ ok tt
verify_email-refuses_example =
    verify_email-refuses codec clock "abebe@mail.et" "123456" (world [] (tables token_row worn_row))
      refl (tt, tt) tt ((λ live. inl (omega arith)), tt)

found_code :
    find
      (is_live_for (codec.sql_lower (codec.to_lower (trim_space "abebe@mail.et"))))
      (code_row ∷ [])
    ≡ some code_row
unfolding find trim_space
found_code = refl

verify_email-verifies_example :
    ((verify_email codec clock "abebe@mail.et" "123456" (world [] (tables token_row code_row))).0
      ≡ ok tt)
    × All
        (IsVerified 1)
        (verify_email codec clock "abebe@mail.et" "123456"
          (world [] (tables token_row code_row))).1.store.users
    × All
        (IsConsumed 4)
        (verify_email codec clock "abebe@mail.et" "123456"
          (world [] (tables token_row code_row))).1.store.codes
unfolding trim_space
verify_email-verifies_example =
    verify_email-verifies codec clock "abebe@mail.et" "123456"
      (world [] (tables token_row code_row)) code_row refl (tt, tt) refl refl found_code refl
      (omega arith) refl
