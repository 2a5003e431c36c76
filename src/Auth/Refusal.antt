-- ===== src/Auth/Refusal.antt =====
-- When a verification code is refused (`VerifyEmail` of internal/auth/verification.go).
use nearby_backend.Prelude.{
  ℕ, ◌+◌, ◌≡◌, ◌≢◌, ◌≤◌, ◌⊎◌, refl, sym, subst, inl, inr, Bool, true, false, ◌&&◌, not, String,
  Option, none, some, List, map, find, All, All-Any, leb, ◌==◌, ==_iff, found-passes, found-Any,
  get_or, if◌then◌else◌, arith,
}
use nearby_backend.Prelude.Text.{text_eq, trim_space}
use nearby_backend.Prelude.Keyed.{map-IsKeyed}
use nearby_backend.Platform.Errors.{invalid_code, too_many_attempts, validation}
use nearby_backend.Platform.Database.{
  other_state, pg, api, caused, missing, Outcome, ok, err, World, M, ◌>>=◌, ◌>>◌, throw, guard,
  on_error, or_internal, query,
}
use nearby_backend.Platform.Facts.{
  IsRespected, After, Always, Gives, bind-Triple, on_error-Triple, gate-Triple, query-Triple,
}
use nearby_backend.Accounts.Tables.{Uuid, Instant, Digest, CodeRow, Codec, Clock, Store}
use nearby_backend.Auth.Tokens.{hash_refresh_token}
use nearby_backend.Auth.Queries.{
  get_live_code, count_attempt, attempt_counted, increment_attempts, max_integer, consume_code,
}
use nearby_backend.Auth.Accounts.{normalize_email}
use nearby_backend.Auth.Verification.{max_attempts, confirm_address, check_code, verify_email}
use nearby_backend.Auth.Guesses.{
  IsWorn, IsNoMatch, IsAside, HasCodes, count_attempt-id, consume_row-id, calm, Aside, Holds,
  Matchless, IsHopeless, IsHopeless-IsRespected, get-Holds,
}

worn_count :
    (id : Uuid) (rs : List CodeRow) (c : CodeRow)
    → All (IsWorn id) rs
    → find (λ q. q.id == id) rs ≡ some c
    → max_attempts ≤ c.attempts
worn_count id rs c h e =
    let (y, worn, same) = All-Any rs h (found-Any (λ q. q.id == id) rs c e) in
    subst (λ q. q.id ≡ id → max_attempts ≤ q.attempts) same worn
      ((==_iff c.id id).0 (found-passes (λ q. q.id == id) rs c e))

module _ (address : String) (hash : Digest) (now : Instant) where
  -- After the attempt was counted: the guess is wrong, or the count is above the cap.
  abbrev IsLost : CodeRow → ℕ → Store → Type 0
  IsLost row n s =
      (leb n max_attempts ≡ false)
      ⊎ ((hash == row.code_hash) ≡ false)
      ⊎ (leb now row.expires_at ≡ false)

  counted :
      (row : CodeRow) (s : Store) (r : Option CodeRow)
      → find (λ c. c.id == row.id) s.codes ≡ r
      → HasCodes s
      → IsHopeless address hash now row s
      → Gives
          (Aside address hash now)
          HasCodes
          (calm address hash now)
          (IsLost row)
          (attempt_counted row.id s r)
  counted row s none h i k = tt
  counted row s (some c) h i k = go (leb max_integer c.attempts)
    where
      lost : IsHopeless address hash now row s → IsLost row (c.attempts + 1) s
      lost (inl worn) = let n = worn_count row.id s.codes c worn h in inl (ground arith)
      lost (inr rest) = inr rest

      go :
          (b : Bool)
          → Gives (Aside address hash now) HasCodes (calm address hash now) (IsLost row) (
              if b
              then (err (pg other_state ""), s)
              else (ok (c.attempts + 1), record s { codes = map (count_attempt row.id) s.codes }))
      go true = tt
      go false = (
        map-IsKeyed (λ q. q.id) (count_attempt row.id) (count_attempt-id row.id) s.codes i,
        lost k,
      )

  count-Holds :
      (row : CodeRow)
      → Holds address hash now
          (IsHopeless address hash now row)
          (query (increment_attempts row.id))
          (IsLost row)
  unfolding increment_attempts
  count-Holds row =
      query-Triple (Aside address hash now) HasCodes (calm address hash now) _ (IsLost row)
        (increment_attempts row.id) (IsHopeless-IsRespected address hash now row)
        (λ s i k. counted row s _ refl i k)

module _ (codec : Codec) (clock : Clock) (address code : String) where
  abbrev guess : Digest
  guess = codec.sha256 code

  abbrev Here : {A : Type 0} → (Store → Type 0) → M Store A → (A → Store → Type 0) → Type 0
  Here = Holds address guess clock.now

  abbrev steady : IsRespected (Aside address guess clock.now) HasCodes HasCodes
  steady = calm address guess clock.now

  abbrev Never : Unit {0} → Store → Type 0
  Never _ _ = ⊥

  consume-Holds :
      (row : CodeRow) (F : Store → Type 0)
      → IsRespected (Aside address guess clock.now) HasCodes F
      → Here F
          (query (consume_code row.id clock.database))
          (λ _. Always (Aside address guess clock.now) HasCodes)
  unfolding consume_code
  consume-Holds row F r =
      query-Triple (Aside address guess clock.now) HasCodes steady F _
        (consume_code row.id clock.database) r
        (λ s i p. (
          map-IsKeyed (λ q. q.id) _ (consume_row-id (λ c. c.id == row.id) clock.database) s.codes i,
          tt,
        ))

  decided :
      (row : CodeRow) (n : ℕ) (b : Bool)
      → leb clock.now row.expires_at ≡ true
      → leb n max_attempts ≡ b
      → Here
          (IsLost address guess clock.now row n)
          (if b
            then guard (guess == row.code_hash) invalid_code >> confirm_address clock row
            else (or_internal (query (consume_code row.id clock.database)) >>= λ _.
                throw (api too_many_attempts)))
          Never
  decided row n true fresh e =
      gate-Triple (Aside address guess clock.now) HasCodes steady _ Never (guess == row.code_hash)
        invalid_code (confirm_address clock row)
        (λ right w i lost. elim lost [
          | inl over ↦ absurd (cc)
          | inr (inl wrong) ↦ absurd (cc)
          | inr (inr late) ↦ absurd (cc)
        ])
  decided row n false fresh e =
      bind-Triple (Aside address guess clock.now) HasCodes steady _
        (λ _. Always (Aside address guess clock.now) HasCodes) Never
        (or_internal (query (consume_code row.id clock.database)))
        (λ _. throw (api too_many_attempts))
        (on_error-Triple (Aside address guess clock.now) HasCodes steady _ _ caused _
          (consume-Holds row (IsLost address guess clock.now row n) (λ f l s i h. h)))
        (λ _ w i p. i)

  check-Holds :
      (row : CodeRow)
      → leb clock.now row.expires_at ≡ true
      → Here (IsHopeless address guess clock.now row) (check_code codec clock code row) Never
  unfolding check_code hash_refresh_token
  check-Holds row fresh =
      bind-Triple (Aside address guess clock.now) HasCodes steady _
        (IsLost address guess clock.now row) Never (or_internal (query (increment_attempts row.id)))
        _
        (on_error-Triple (Aside address guess clock.now) HasCodes steady _ _ caused _
          (count-Holds address guess clock.now row))
        (λ n. decided row n (leb n max_attempts) fresh refl)

module _ (codec : Codec) (clock : Clock) (raw_email raw_code : String) where
  abbrev pub address_of : String
  address_of = codec.sql_lower (codec.to_lower (trim_space raw_email))

  abbrev pub guess_of : Digest
  guess_of = codec.sha256 (trim_space raw_code)

  verify-Holds :
      Holds address_of guess_of clock.now
        (Matchless address_of guess_of clock.now)
        (verify_email codec clock raw_email raw_code)
        (λ _ _. ⊥)
  unfolding verify_email normalize_email
  verify-Holds =
      let aside = Aside address_of guess_of clock.now in
      let steady = calm address_of guess_of clock.now in
      let code = trim_space raw_code in
      let checks : CodeRow → M Store (Unit {0}) = λ row.
        guard (leb clock.now row.expires_at) invalid_code >> check_code codec clock code row in
      let get = on_error (missing invalid_code) (query (get_live_code address_of)) in
      gate-Triple aside HasCodes steady (Matchless address_of guess_of clock.now) (λ _ _. ⊥)
        (not (text_eq (codec.to_lower (trim_space raw_email)) "") && not (text_eq code ""))
        (validation "Email and code are both required") (get >>= checks)
        (λ _.
          bind-Triple aside HasCodes steady (Matchless address_of guess_of clock.now)
            (IsHopeless address_of guess_of clock.now) (λ _ _. ⊥) get checks
            (on_error-Triple aside HasCodes steady (Matchless address_of guess_of clock.now)
              (IsHopeless address_of guess_of clock.now) (missing invalid_code)
              (query (get_live_code address_of)) (get-Holds address_of guess_of clock.now))
            (λ row.
              gate-Triple aside HasCodes steady (IsHopeless address_of guess_of clock.now row)
                (λ _ _. ⊥) (leb clock.now row.expires_at) invalid_code
                (check_code codec clock code row)
                (λ fresh. check-Holds codec clock address_of code row fresh)))

never :
    (L : (Store → Store) → Type 0) (r : Outcome (Unit {0}) × World Store)
    → After L HasCodes (λ _ _. ⊥) r
    → r.0 ≢ ok tt
never L (err e, w) h = λ q. absurd (cc)
never L (ok u, w) h = elim h.1 [ ]

-- `VerifyEmail` refuses a guess that no code accepts: if every code that is live for the address has
-- had its five attempts, has another digest than the guess, or is too old, the call does not succeed,
-- whatever its statements meet. The table must have one row for each id when the call begins, outside
-- of a transaction, and what other sessions write meanwhile must keep that, make no code that accepts
-- the guess, and give no attempt back.
pub verify_email-refuses :
    (codec : Codec) (clock : Clock) (email code : String) (w : World Store)
    → w.committed ≡ none
    → HasCodes w.store
    → All
        (λ t.
          IsAside
            (address_of codec clock email code)
            (guess_of codec clock email code)
            clock.now
            t.others)
        w.turns
    → All
        (IsNoMatch (address_of codec clock email code) (guess_of codec clock email code) clock.now)
        w.store.codes
    → (verify_email codec clock email code w).0 ≢ ok tt
verify_email-refuses codec clock email code w e h l k =
    never (Aside (address_of codec clock email code) (guess_of codec clock email code) clock.now)
      (verify_email codec clock email code w)
      (verify-Holds codec clock email code w
        (record {
          holds = h;
          undone = subst (λ c. HasCodes (get_or c w.store)) (sym e) h;
          turns = l;
        })
        k)
