-- ===== src/Auth/Success.antt =====
-- The right code verifies the address (`VerifyEmail` of internal/auth/verification.go).
use nearby_backend.Prelude.{
  ℕ, suc, ◌+◌, ◌≡◌, ◌<◌, refl, sym, subst, ap, inl, inr, Bool, true, false, ◌&&◌, not, String, some,
  List, [], ◌∷◌, map, find, select, length, is_some, All, All-Any, leb, ◌==◌, ==_iff, first_or,
  found-passes, found-Any, Bool-cases, arith, kept-set,
}
use nearby_backend.Prelude.Text.{text_eq, trim_space}
use nearby_backend.Platform.Database.{ok, World, query}
use nearby_backend.Accounts.Tables.{Uuid, Instant, UserRow, CodeRow, Codec, Clock, Store}
use nearby_backend.Auth.Tokens.{hash_refresh_token}
use nearby_backend.Auth.Queries.{
  is_live_for, get_live_code, count_attempt, increment_attempts, max_integer, consume_code,
  consume_row, verify_user, mark_email_verified,
}
use nearby_backend.Auth.Accounts.{normalize_email}
use nearby_backend.Auth.Verification.{max_attempts, confirm_address, check_code, verify_email}
use nearby_backend.Auth.Guesses.{IsNumbered}

-- The address of this user is verified; this code is consumed.
abbrev pub IsVerified : Uuid → UserRow → Type 0
IsVerified id u = u.id ≡ id → u.email_verified ≡ true

abbrev pub IsConsumed : Uuid → CodeRow → Type 0
IsConsumed id c = c.id ≡ id → is_some c.consumed_at ≡ true

verify_user-IsVerified : (id : Uuid) (u : UserRow) → IsVerified id (verify_user id u)
unfolding verify_user
verify_user-IsVerified id u = elim (Bool-cases (u.id == id)) [
  | inl e ↦ rw e (λ _. refl)
  | inr e ↦ rw e (λ same. absurd (ground arith))
]

map-IsVerified : (id : Uuid) (us : List UserRow) → All (IsVerified id) (map (verify_user id) us)
map-IsVerified id [] = tt
map-IsVerified id (u ∷ us) = (verify_user-IsVerified id u, map-IsVerified id us)

consume_row-IsConsumed :
    (id : Uuid) (now : Instant) (c : CodeRow) → IsConsumed id (consume_row (λ q. q.id == id) now c)
unfolding consume_row
consume_row-IsConsumed id now c = elim (Bool-cases (c.id == id && not (is_some c.consumed_at))) [
  | inl e ↦ rw e (λ _. refl)
  | inr e ↦ rw e (λ same. kept-set (c.id == id) (is_some c.consumed_at) e ((==_iff c.id id).1 same))
]

map-IsConsumed :
    (id : Uuid) (now : Instant) (cs : List CodeRow)
    → All (IsConsumed id) (map (consume_row (λ q. q.id == id) now) cs)
map-IsConsumed id now [] = tt
map-IsConsumed id now (c ∷ cs) = (consume_row-IsConsumed id now c, map-IsConsumed id now cs)

-- A row that is found by any test is found by its id.
found-by_id :
    (p : CodeRow → Bool) (rs : List CodeRow) (r : CodeRow)
    → IsNumbered rs
    → find p rs ≡ some r
    → find (λ q. q.id == r.id) rs ≡ some r
unfolding find
found-by_id p [] r k h = absurd (cc)
found-by_id p (x ∷ xs) r k h = elim (first_or (p x) x r (find p xs) h) [
  | inl (e, same) ↦
      let here : (x.id == r.id) ≡ true = (==_iff x.id r.id).1 (ap (λ q. q.id) same) in
      rw here (ap some same)
  | inr (e, g) ↦
      let (y, apart, same) = All-Any xs k.0 (found-Any p xs r g) in
      let gone : (x.id == r.id) ≡ false = ground (arith, ap (λ q. q.id) same, apart) in
      rw gone (found-by_id p xs r k.1 g)
]

abbrev is_open : Uuid → CodeRow → Bool
is_open id c = c.id == id && not (is_some c.consumed_at)

opened :
    (id : Uuid) (c : CodeRow)
    → (c.id == id) ≡ true
    → is_some c.consumed_at ≡ false
    → is_open id (count_attempt id c) ≡ true
unfolding count_attempt
opened id c here n = rw (here, here, n) refl

one_more : (n : ℕ) → (suc n == 0) ≡ false
one_more n = ground arith

unset : (a b : Bool) → (a && not b) ≡ true → b ≡ false
unset a b h = ground arith

-- The UPDATE that consumes a live code changes a row.
open_count :
    (p : CodeRow → Bool) (rs : List CodeRow) (r : CodeRow)
    → find p rs ≡ some r
    → is_some r.consumed_at ≡ false
    → (length (select (is_open r.id) (map (count_attempt r.id) rs)) == 0) ≡ false
unfolding find select count_attempt
open_count p [] r h n = absurd (cc)
open_count p (x ∷ xs) r h n = elim (first_or (p x) x r (find p xs) h) [
  | inl (e, same) ↦
      let live : is_open r.id (count_attempt r.id x) ≡ true =
        opened r.id x ((==_iff x.id r.id).1 (ap (λ q. q.id) same))
          (subst (λ q. is_some q.consumed_at ≡ false) (sym same) n) in
      rw live (one_more _)
  | inr (e, g) ↦ elim (Bool-cases (is_open r.id (count_attempt r.id x))) [
    | inl live ↦ rw live (one_more _)
    | inr dead ↦ rw dead (open_count p xs r g n)
  ]
]

-- `VerifyEmail` succeeds on the right code: where the newest live code for the address is in time, has
-- attempts left and has the digest of the guess, the call succeeds, and afterwards the address of the
-- code's user is verified and the code is consumed. No statement fails, no other session writes
-- meanwhile, and the table has one row for each id.
pub verify_email-verifies :
    (codec : Codec) (clock : Clock) (email code : String) (w : World Store) (row : CodeRow)
    → w.turns ≡ []
    → IsNumbered w.store.codes
    → text_eq (codec.to_lower (trim_space email)) "" ≡ false
    → text_eq (trim_space code) "" ≡ false
    → find (is_live_for (codec.sql_lower (codec.to_lower (trim_space email)))) w.store.codes
      ≡ some row
    → leb clock.now row.expires_at ≡ true
    → row.attempts < max_attempts
    → (codec.sha256 (trim_space code) == row.code_hash) ≡ true
    → ((verify_email codec clock email code w).0 ≡ ok tt)
      × All (IsVerified row.user_id) (verify_email codec clock email code w).1.store.users
      × All (IsConsumed row.id) (verify_email codec clock email code w).1.store.codes
unfolding verify_email normalize_email check_code confirm_address hash_refresh_token query
    get_live_code increment_attempts consume_code mark_email_verified
verify_email-verifies codec clock email code w row idle k named given found fresh left right =
    let live = is_live_for (codec.sql_lower (codec.to_lower (trim_space email))) in
    let by_id = found-by_id live w.store.codes row k found in
    let small : leb max_integer row.attempts ≡ false = ground arith in
    let below : leb (row.attempts + 1) max_attempts ≡ true = ground arith in
    let changed =
      open_count live w.store.codes row found
        (unset _ (is_some row.consumed_at) (found-passes live w.store.codes row found)) in
    rw (idle, named, given, found, fresh, by_id, small, below, right, changed)
      (
        refl,
        map-IsVerified row.user_id w.store.users,
        map-IsConsumed row.id clock.database (map (count_attempt row.id) w.store.codes),
      )
