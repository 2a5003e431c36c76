-- ===== src/Auth/Once.antt =====
-- A refresh token works once (`Refresh` of internal/auth/service.go), whatever other sessions do
-- meanwhile, as long as they neither delete its row nor take a revocation back.
use nearby_backend.Prelude.{◌≡◌, ◌≢◌, sym, subst, not, String, none, is_some, All, get_or}
use nearby_backend.Prelude.Text.{text_eq, trim_space}
use nearby_backend.Platform.Errors.{invalid_token}
use nearby_backend.Platform.Database.{missing, Outcome, ok, err, World, M, guard, on_error, query}
use nearby_backend.Platform.Facts.{
  After, bind-Triple, seq-Triple, on_error-Triple, guard-Triple, mono-Triple,
}
use nearby_backend.Platform.Turns.{meanwhile, Ends}
use nearby_backend.Auth.Race.{HasIds, refresh-Never}
use nearby_backend.Accounts.Tables.{Digest, Codec, Clock, Store}
use nearby_backend.Auth.Tokens.{hash_refresh_token}
use nearby_backend.Auth.Queries.{get_refresh_token_by_hash}
use nearby_backend.Auth.Sessions.{Settings, Session, refresh_stored, refresh}
use nearby_backend.Auth.Rotation.{
  IsCareful, HasLedger, calm, Holds, Nothing, Filed, Used, stored-Holds, get-Holds,
}

module _ (settings : Settings) (codec : Codec) (clock : Clock) where
  module _ (raw : String) where
    abbrev digest : Digest
    digest = codec.sha256 (trim_space raw)

    not_blank : M Store (Unit {0})
    not_blank = guard (not (text_eq (trim_space raw) "")) invalid_token

    blank-Holds : (F : Store → Type 0) → Holds F not_blank (λ _. F)
    unfolding not_blank
    blank-Holds F =
        mono-Triple IsCareful HasLedger calm F _ (λ _. F) not_blank (λ _ s h. h.1)
          (guard-Triple IsCareful HasLedger calm F _ invalid_token)

    -- An answer of `Refresh` leaves the token's row revoked.
    refresh-Holds : Holds Nothing (refresh settings codec clock raw) (λ _. Used digest)
    unfolding refresh hash_refresh_token not_blank
    refresh-Holds =
        seq-Triple IsCareful HasLedger calm Nothing Nothing (λ _. Used digest) not_blank _
          (blank-Holds Nothing)
          (bind-Triple IsCareful HasLedger calm Nothing (λ row s. Filed row.id digest s)
            (λ _. Used digest)
            (on_error (missing invalid_token) (query (get_refresh_token_by_hash digest)))
            (λ stored. refresh_stored settings codec clock stored (is_some stored.revoked_at))
            (on_error-Triple IsCareful HasLedger calm Nothing _ (missing invalid_token) _
              (get-Holds digest))
            (λ stored. stored-Holds settings codec clock digest stored (is_some stored.revoked_at)))

module _ (settings : Settings) (codec : Codec) (raw : String) where
  abbrev digest_of : Digest
  digest_of = codec.sha256 (trim_space raw)

  -- Another call, whose UPDATE sees what an answering call left.
  excluded :
      (r : Outcome Session × World Store) (later : Clock) (v : World Store) (f : Store → Store)
      (a b : Session)
      → After IsCareful HasLedger (λ _. Used digest_of) r
      → r.0 ≡ ok a
      → All (λ t. IsCareful t.others) v.turns
      → IsCareful f
      → HasIds (meanwhile 3 v.turns v.store)
      → meanwhile 3 v.turns v.store ≡ f r.1.store
      → (refresh settings codec later raw v).0 ≢ ok b
  excluded (err e, w) later v f a b h g careful k ids seen = absurd (cc)
  excluded (ok c, w) later v f a b (stands, (id, spent)) g careful k ids seen =
      never (refresh settings codec later raw v) (
        refresh-Never settings codec later raw v careful
          (subst HasLedger (sym seen) (k.ledger w.store stands.holds)) ids
          (subst (Used digest_of) (sym seen) (id, k.spent id digest_of w.store spent)))
    where
      never : (r : Outcome Session × World Store) → Ends (λ _ _. ⊥) r → r.0 ≢ ok b
      never (err e, u) h q = absurd (cc)
      never (ok s, u) h q = elim h [ ]

-- A refresh token works once. Two calls of `Refresh` with the same token run in the worlds `w` and
-- `v`, with any overlap, any faults, and any writes of other sessions before each statement that delete
-- no row of a token, take no revocation back and give no digest twice. If the first answers with a
-- session, the second does not: its UPDATE, the third statement, sees what the first call left, with
-- further such writes `f` (the row's lock lets one of the two UPDATEs see the other's commit). The
-- table must have one row for each digest when the first call begins, outside of a transaction, and
-- one row for each id when the second call's UPDATE runs.
pub refresh-once :
    (settings : Settings) (codec : Codec) (clock later : Clock) (token : String) (w v : World Store)
    (f : Store → Store) (a b : Session)
    → w.committed ≡ none
    → HasLedger w.store
    → All (λ t. IsCareful t.others) w.turns
    → (refresh settings codec clock token w).0 ≡ ok a
    → All (λ t. IsCareful t.others) v.turns
    → IsCareful f
    → HasIds (meanwhile 3 v.turns v.store)
    → meanwhile 3 v.turns v.store ≡ f (refresh settings codec clock token w).1.store
    → (refresh settings codec later token v).0 ≢ ok b
refresh-once settings codec clock later token w v f a b e h l g careful k ids seen =
    excluded settings codec token (refresh settings codec clock token w) later v f a b
      (refresh-Holds settings codec clock token w
        (record {
          holds = h;
          undone = subst (λ c. HasLedger (get_or c w.store)) (sym e) h;
          turns = l;
        })
        tt)
      g careful k ids seen
