-- ===== src/Platform/Ensures.antt =====
-- What holds of the result of an operation whenever it gives one, on every world.
use nearby_backend.Prelude.{◌≡◌, refl, Bool, true, false, Option, none, some}
use nearby_backend.Platform.Errors.{Error}
use nearby_backend.Platform.Database.{
  Failure, Outcome, ok, err, World, M, continue, ◌>>=◌, ◌>>◌, guard, map_error, on_error, lift,
  await, perform, statement, query, commit, settle, begin, in_tx,
}

abbrev pub Yields : {A : Type 0} → (A → Type 0) → Outcome A → Type 0
Yields P (ok a) = P a
Yields P (err e) = Unit

module _ {S : Type 0} {A : Type 0} (P : A → Type 0) where
  abbrev pub Ensures : M S A → Type 0
  Ensures m = (w : World S) → Yields P (m w).0

  perform-Yields : (r : Outcome A × S) (w : World S) → Yields P r.0 → Yields P (perform r w).0
  perform-Yields (ok a, s) w h = h
  perform-Yields (err e, s) w h = tt

  pub query-Ensures : (f : S → Outcome A × S) → ((s : S) → Yields P (f s).0) → Ensures (query f)
  unfolding query
  query-Ensures f h w = done (await w.turns w)
    where
      done : (r : Option Failure × World S) → Yields P (statement f r).0
      done (some e, v) = tt
      done (none, v) = perform-Yields (f v.store) v (h v.store)

  map_error-Yields :
      (f : Failure → Failure) (r : Outcome A × World S) → Yields P r.0 → Yields P (map_error f r).0
  map_error-Yields f (ok a, w) h = h
  map_error-Yields f (err e, w) h = tt

  pub on_error-Ensures : (f : Failure → Failure) (m : M S A) → Ensures m → Ensures (on_error f m)
  on_error-Ensures f m h w = map_error-Yields f (m w) (h w)

  settle-Yields : (r : Outcome A × World S) → Yields P r.0 → Yields P (settle r).0
  settle-Yields (err e, w) h = tt
  settle-Yields (ok a, w) h = done (await w.turns w)
    where
      done : (r : Option Failure × World S) → Yields P (commit a r).0
      done (some e, v) = tt
      done (none, v) = h

  pub in_tx-Ensures : (m : M S A) → Ensures m → Ensures (in_tx m)
  unfolding in_tx
  in_tx-Ensures m h w = done (await w.turns w)
    where
      done : (r : Option Failure × World S) → Yields P (begin m r).0
      done (some e, v) = tt
      done (none, v) =
          settle-Yields (m (record v { committed = some v.store }))
            (h (record v { committed = some v.store }))

module _ {S : Type 0} where
  pub lift-Ensures : {A : Type 0} (r : Outcome A) → Ensures {S = S} (λ a. r ≡ ok a) (lift r)
  lift-Ensures (ok a) w = refl
  lift-Ensures (err e) w = tt

  pub guard-Ensures : (t : Bool) (e : Error) → Ensures {S = S} (λ u. t ≡ true) (guard t e)
  guard-Ensures true e w = refl
  guard-Ensures false e w = tt

  pub >>=-Ensures :
      {A B : Type 0} (P : A → Type 0) (Q : B → Type 0) (m : M S A) (f : A → M S B)
      → Ensures P m
      → ((a : A) → P a → Ensures Q (f a))
      → Ensures Q (m >>= f)
  >>=-Ensures {A = A} {B = B} P Q m f h k w = go (m w) (h w)
    where
      go : (r : Outcome A × World S) → Yields P r.0 → Yields Q (continue r f).0
      go (ok a, v) p = k a p v
      go (err e, v) p = tt

  pub >>-Ensures :
      {B : Type 0} (P : Type 0) (Q : B → Type 0) (m : M S (Unit {0})) (k : M S B)
      → Ensures (λ _. P) m
      → (P → Ensures Q k)
      → Ensures Q (m >> k)
  >>-Ensures P Q m k h g = >>=-Ensures (λ _. P) Q m (λ _. k) h (λ _. g)

  pub anything : {A : Type 0} (m : M S A) → Ensures (λ _. Unit {0}) m
  anything {A = A} m w = any_outcome (m w).0
    where
      any_outcome : (r : Outcome A) → Yields (λ _. Unit {0}) r
      any_outcome (ok a) = tt
      any_outcome (err e) = tt

pub Yields-mono :
    {A : Type 0} {P Q : A → Type 0} (r : Outcome A)
    → ((a : A) → P a → Q a)
    → Yields P r
    → Yields Q r
Yields-mono (ok b) f h = f b h
Yields-mono (err e) f h = tt
