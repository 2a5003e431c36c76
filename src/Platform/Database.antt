-- ===== src/Platform/Database.antt =====
-- The database as the services see it (internal/platform/database, and `error` values in general).
-- A query runs on a store of tables. Before each query other sessions may change the store, and the
-- query may fail with an error of the driver: both are given by a list of turns, one for each query.
-- They write between the statements of a transaction as well (READ COMMITTED), and a rollback undoes
-- the transaction's own writes only.
use nearby_backend.Prelude.{
  ◌+◌, ◌%◌, option_map, get_or, ℕ, String, Bool, true, false, Option, none, some, List, [], ◌∷◌,
}
use nearby_backend.Platform.Errors.{Error, internal}

-- The SQLSTATE classes that the code tells apart.
pub data SqlState : Type 0 where
  exclusion_violation unique_violation foreign_key_violation check_violation : SqlState
  deadlock_detected serialization_failure other_state : SqlState

-- A Go `error`: no row, an error of Postgres with the constraint that it names, an API error, an
-- internal API error with its cause (`Internal(err)`), or anything else. `errors.As` looks for an error
-- of Postgres through causes.
pub data Failure : Type 0 where
  no_rows : Failure
  pg : SqlState → String → Failure
  api : Error → Failure
  caused : Failure → Failure
  other : Failure

unfoldable pub is_exclusion_violation : Failure → Bool
is_exclusion_violation (pg exclusion_violation c) = true
is_exclusion_violation (caused e) = is_exclusion_violation e
is_exclusion_violation _ = false

unfoldable pub is_unique_violation : Failure → Bool
is_unique_violation (pg unique_violation c) = true
is_unique_violation (caused e) = is_unique_violation e
is_unique_violation _ = false

unfoldable pub is_retryable : Failure → Bool
is_retryable (pg deadlock_detected c) = true
is_retryable (pg serialization_failure c) = true
is_retryable (caused e) = is_retryable e
is_retryable _ = false

-- `AsError`: an API error is kept, anything else is an internal one.
unfoldable pub as_error : Failure → Error
as_error (api e) = e
as_error _ = internal

pub data Outcome {ℓ} (A : Type ℓ) : Type ℓ where
  ok : A → Outcome A
  err : Failure → Outcome A

abbrev pub or_other {ℓ} : {A : Type ℓ} → Option A → Outcome A
or_other none = err other
or_other (some a) = ok a

-- A missing row is reported by name, anything else as an internal error.
abbrev pub missing : Error → Failure → Failure
missing e no_rows = api e
missing e x = caused x

-- What happens before a query: the writes of other sessions, and perhaps a failure of the query.
pub record Turn (S : Type 0) : Type 0 where
  pub others : S → S
  pub fault : Option Failure

pub record World (S : Type 0) : Type 0 where
  pub store : S
  pub turns : List (Turn S)
  -- While a transaction is open: the store without its writes, which a rollback leaves.
  pub committed : Option S
  -- `crypto/rand`: what each reading gives, and how many were made. `none`: the reader fails.
  pub draws : ℕ → Option ℕ
  pub drawn : ℕ

abbrev pub M : Type 0 → Type 0 → Type 0
M S A = World S → Outcome A × World S

module _ {S : Type 0} where
  -- The rest of a chain runs on the result, and an error ends the chain.
  abbrev pub continue : {A B : Type 0} → Outcome A × World S → (A → M S B) → Outcome B × World S
  continue (ok a, w) f = f a w
  continue (err e, w) f = (err e, w)

  infixl 5 ◌>>=◌ ◌>>◌
  abbrev pub ◌>>=◌ : {A B : Type 0} → M S A → (A → M S B) → M S B
  ◌>>=◌ m f w = continue (m w) f

  abbrev pub ◌>>◌ : {B : Type 0} → M S (Unit {0}) → M S B → M S B
  m >> k = m >>= λ _. k

  abbrev pub return : {A : Type 0} → A → M S A
  return a w = (ok a, w)

  abbrev pub throw : {A : Type 0} → Failure → M S A
  throw e w = (err e, w)

  -- `if !test { return err }`.
  abbrev pub guard : Bool → Error → M S (Unit {0})
  guard true e w = (ok tt, w)
  guard false e w = (err (api e), w)

  -- A call whose error the caller looks at.
  abbrev pub attempt : {A : Type 0} → M S A → M S (Outcome A)
  attempt m w = let (r, w') = m w in (ok r, w')

  -- A call whose error is replaced by another.
  abbrev pub map_error :
      {A : Type 0} → (Failure → Failure) → Outcome A × World S → Outcome A × World S
  map_error f (ok a, w) = (ok a, w)
  map_error f (err e, w) = (err (f e), w)

  abbrev pub on_error : {A : Type 0} → (Failure → Failure) → M S A → M S A
  on_error f m w = map_error f (m w)

  -- `if err != nil { return httpx.Internal(err) }`.
  abbrev pub or_internal : {A : Type 0} → M S A → M S A
  or_internal = on_error caused

  -- The result of a pure function that may fail.
  abbrev pub lift : {A : Type 0} → Outcome A → M S A
  lift r w = (r, w)

  -- What a rollback leaves.
  abbrev pub rolled_back : World S → S
  rolled_back w = get_or w.committed w.store

  -- One turn: the other sessions write, whether or not a transaction is open.
  abbrev pub visit : Turn S → List (Turn S) → World S → Option Failure × World S
  visit t ts w = (
    t.fault,
    record w { store = t.others w.store; committed = option_map t.others w.committed; turns = ts },
  )

  abbrev pub await : List (Turn S) → World S → Option Failure × World S
  await [] w = (none, w)
  await (t ∷ ts) w = visit t ts w

  -- A statement on the store. One that fails changes nothing.
  abbrev pub perform : {A : Type 0} → Outcome A × S → World S → Outcome A × World S
  perform (ok a, s) w = (ok a, record w { store = s })
  perform (err e, s) w = (err e, w)

  abbrev pub statement :
      {A : Type 0} → (S → Outcome A × S) → Option Failure × World S → Outcome A × World S
  statement f (some e, w) = (err e, w)
  statement f (none, w) = perform (f w.store) w

  unfoldable pub query : {A : Type 0} → (S → Outcome A × S) → M S A
  query f w = statement f (await w.turns w)

  -- `InTx`: begin, run, commit. Begin and commit take a turn each, since they may fail too; their
  -- errors are wrapped in text, which `errors.As` looks through.
  abbrev pub undo : {A : Type 0} → Failure → World S → Outcome A × World S
  undo e w = (err e, record w { store = rolled_back w; committed = none })

  abbrev pub commit : {A : Type 0} → A → Option Failure × World S → Outcome A × World S
  commit a (some e, w) = undo e w
  commit a (none, w) = (ok a, record w { committed = none })

  abbrev pub settle : {A : Type 0} → Outcome A × World S → Outcome A × World S
  settle (err e, w) = undo e w
  settle (ok a, w) = commit a (await w.turns w)

  abbrev pub begin : {A : Type 0} → M S A → Option Failure × World S → Outcome A × World S
  begin body (some e, w) = (err e, w)
  begin body (none, w) = settle (body (record w { committed = some w.store }))

  unfoldable pub in_tx : {A : Type 0} → M S A → M S A
  in_tx body w = begin body (await w.turns w)

  -- `rand.Int(rand.Reader, limit)`: a number below the limit.
  unfoldable pub rand_int : ℕ → M S ℕ
  rand_int limit w =
      (or_other (option_map (λ n. n % limit) (w.draws w.drawn)), record w { drawn = w.drawn + 1 })
