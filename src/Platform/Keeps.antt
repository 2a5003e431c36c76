-- ===== src/Platform/Keeps.antt =====
-- A property of the store that every statement keeps is kept by whole operations, whatever other
-- sessions do in between, as long as they keep it too.
use nearby_backend.Prelude.{
  ◌≡◌, sym, subst, get_or, option_map, ℕ, Bool, true, false, Option, none, some, List, [], ◌∷◌, All,
}
use nearby_backend.Platform.Errors.{Error}
use nearby_backend.Platform.Database.{
  Failure, Outcome, ok, err, Turn, World, M, continue, ◌>>=◌, ◌>>◌, guard, map_error, on_error,
  rolled_back, await, perform, statement, query, commit, settle, begin, in_tx, rand_int,
}

module _ {S : Type 0} (I : S → Type 0) where
  -- The other sessions keep the property.
  abbrev pub IsQuiet : List (Turn S) → Type 0
  IsQuiet = All (λ t. (s : S) → I s → I (t.others s))

  -- The store has the property, and a rollback would leave it so.
  pub record IsSafe (w : World S) : Type 0 where
    pub holds : I w.store
    pub undone : I (rolled_back w)
    pub quiet : IsQuiet w.turns

  abbrev pub Keeps : {A : Type 0} → M S A → Type 0
  Keeps m = (w : World S) → IsSafe w → IsSafe (m w).1

  continue-IsSafe :
      {A B : Type 0} (r : Outcome A × World S) (f : A → M S B)
      → ((a : A) → Keeps (f a))
      → IsSafe r.1
      → IsSafe (continue r f).1
  continue-IsSafe (ok a, w) f k h = k a w h
  continue-IsSafe (err e, w) f k h = h

  pub >>=-Keeps :
      {A B : Type 0} (m : M S A) (f : A → M S B)
      → Keeps m
      → ((a : A) → Keeps (f a))
      → Keeps (m >>= f)
  >>=-Keeps m f km kf w h = continue-IsSafe (m w) f kf (km w h)

  pub >>-Keeps : {B : Type 0} (m : M S (Unit {0})) (k : M S B) → Keeps m → Keeps k → Keeps (m >> k)
  >>-Keeps m k km kk = >>=-Keeps m (λ _. k) km (λ _. kk)

  pub guard-Keeps : (t : Bool) (e : Error) → Keeps (guard t e)
  guard-Keeps true e w h = h
  guard-Keeps false e w h = h

  map_error-IsSafe :
      {A : Type 0} (f : Failure → Failure) (r : Outcome A × World S)
      → IsSafe r.1
      → IsSafe (map_error f r).1
  map_error-IsSafe f (ok a, w) h = h
  map_error-IsSafe f (err e, w) h = h

  pub on_error-Keeps :
      {A : Type 0} (f : Failure → Failure) (m : M S A) → Keeps m → Keeps (on_error f m)
  on_error-Keeps f m k w h = map_error-IsSafe f (m w) (k w h)

  undone_visit :
      (f : S → S) (c : Option S) (s : S)
      → ((x : S) → I x → I (f x))
      → I (get_or c s)
      → I (get_or (option_map f c) (f s))
  undone_visit f none s k h = k s h
  undone_visit f (some b) s k h = k b h

  await-IsSafe : (ts : List (Turn S)) (w : World S) → IsQuiet ts → IsSafe w → IsSafe (await ts w).1
  await-IsSafe [] w q h = h
  await-IsSafe (t ∷ ts) w q h = record {
    holds = q.0 w.store h.holds;
    undone = undone_visit t.others w.committed w.store q.0 h.undone;
    quiet = q.1;
  }

  undone_write : (c : Option S) (s s' : S) → I s' → I (get_or c s) → I (get_or c s')
  undone_write none s s' h k = h
  undone_write (some b) s s' h k = k

  -- A write that keeps the property.
  pub store-IsSafe : (w : World S) (s : S) → I s → IsSafe w → IsSafe (record w { store = s })
  store-IsSafe w s i h = record {
    holds = i;
    undone = undone_write w.committed w.store s i h.undone;
    quiet = h.quiet;
  }

  -- A session that begins, outside of a transaction.
  pub start-IsSafe : (w : World S) → w.committed ≡ none → I w.store → IsQuiet w.turns → IsSafe w
  start-IsSafe w e h q = record {
    holds = h;
    undone = subst (λ c. I (get_or c w.store)) (sym e) h;
    quiet = q;
  }

  -- The statement keeps the property of the store.
  abbrev pub KeepsStore : {A : Type 0} → (S → Outcome A × S) → Type 0
  KeepsStore f = (s : S) → I s → I (f s).1

  perform-IsSafe :
      {A : Type 0} (r : Outcome A × S) (w : World S) → IsSafe w → I r.1 → IsSafe (perform r w).1
  perform-IsSafe (ok a, s) w h i = store-IsSafe w s i h
  perform-IsSafe (err e, s) w h i = h

  statement-IsSafe :
      {A : Type 0} (f : S → Outcome A × S) (r : Option Failure × World S)
      → KeepsStore f
      → IsSafe r.1
      → IsSafe (statement f r).1
  statement-IsSafe f (some e, w) k h = h
  statement-IsSafe f (none, w) k h = perform-IsSafe (f w.store) w h (k w.store h.holds)

  pub query-Keeps : {A : Type 0} (f : S → Outcome A × S) → KeepsStore f → Keeps (query f)
  unfolding query
  query-Keeps f k w h = statement-IsSafe f (await w.turns w) k (await-IsSafe w.turns w h.quiet h)

  commit-IsSafe :
      {A : Type 0} (a : A) (r : Option Failure × World S) → IsSafe r.1 → IsSafe (commit a r).1
  commit-IsSafe a (some e, w) h = record { holds = h.undone; undone = h.undone; quiet = h.quiet }
  commit-IsSafe a (none, w) h = record { holds = h.holds; undone = h.holds; quiet = h.quiet }

  settle-IsSafe : {A : Type 0} (r : Outcome A × World S) → IsSafe r.1 → IsSafe (settle r).1
  settle-IsSafe (ok a, w) h = commit-IsSafe a (await w.turns w) (await-IsSafe w.turns w h.quiet h)
  settle-IsSafe (err e, w) h = record { holds = h.undone; undone = h.undone; quiet = h.quiet }

  begin-IsSafe :
      {A : Type 0} (body : M S A) (r : Option Failure × World S)
      → Keeps body
      → IsSafe r.1
      → IsSafe (begin body r).1
  begin-IsSafe body (some e, w) k h = h
  begin-IsSafe body (none, w) k h = settle-IsSafe (body (record w { committed = some w.store })) (
      k (record w { committed = some w.store })
        (record { holds = h.holds; undone = h.holds; quiet = h.quiet }))

  pub in_tx-Keeps : {A : Type 0} (body : M S A) → Keeps body → Keeps (in_tx body)
  unfolding in_tx
  in_tx-Keeps body k w h = begin-IsSafe body (await w.turns w) k (await-IsSafe w.turns w h.quiet h)

  pub rand_int-Keeps : (limit : ℕ) → Keeps (rand_int limit)
  unfolding rand_int
  rand_int-Keeps limit w h = record { holds = h.holds; undone = h.undone; quiet = h.quiet }
