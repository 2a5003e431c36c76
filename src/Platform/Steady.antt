-- ===== src/Platform/Steady.antt =====
-- Operations that keep a fact which other sessions respect, with rules for chains of them.
use nearby_backend.Prelude.{
  ℕ, ◌+◌, ◌%◌, option_map, ◌≡◌, Bool, true, false, Option, none, some, if◌then◌else◌,
}
use nearby_backend.Platform.Errors.{Error}
use nearby_backend.Platform.Database.{
  Failure, Outcome, ok, err, World, M, ◌>>=◌, ◌>>◌, return, throw, guard, on_error, lift, query,
  rand_int, or_other,
}
use nearby_backend.Platform.Facts.{
  IsRespected, Stands, After, Triple, Gives, bind-Triple, on_error-Triple, mono-Triple,
  guard-Triple, query-Triple,
}

module _ {S : Type 0} (L : (S → S) → Type 0) (I : S → Type 0) (calm : IsRespected L I I)
    (F : S → Type 0) (respected : IsRespected L I F) where
  -- The fact holds after the operation if it held before and the operation answers.
  abbrev pub Steady : {A : Type 0} → M S A → Type 0
  Steady m = Triple L I F m (λ _. F)

  pub bind-Steady :
      {A B : Type 0} (m : M S A) (f : A → M S B)
      → Steady m
      → ((a : A) → Steady (f a))
      → Steady (m >>= f)
  bind-Steady m f h k = bind-Triple L I calm F (λ _. F) (λ _. F) m f h k

  pub seq-Steady :
      {B : Type 0} (m : M S (Unit {0})) (k : M S B) → Steady m → Steady k → Steady (m >> k)
  seq-Steady m k h g = bind-Steady m (λ _. k) h (λ _. g)

  pub on_error-Steady :
      {A : Type 0} (f : Failure → Failure) (m : M S A) → Steady m → Steady (on_error f m)
  on_error-Steady f m h = on_error-Triple L I calm F (λ _. F) f m h

  pub guard-Steady : (t : Bool) (e : Error) → Steady (guard t e)
  guard-Steady t e =
      mono-Triple L I calm F (λ _ s. (t ≡ true) × F s) (λ _. F) (guard t e) (λ _ s h. h.1)
        (guard-Triple L I calm F t e)

  pub lift-Steady : {A : Type 0} (r : Outcome A) → Steady (lift r)
  lift-Steady (ok a) w i p = (i, p)
  lift-Steady (err e) w i p = i

  pub return-Steady : {A : Type 0} (a : A) → Steady (return a)
  return-Steady a w i p = (i, p)

  pub throw-Steady : (A : Type 0) (e : Failure) → Steady (throw {A = A} e)
  throw-Steady A e w i p = i

  -- A statement that keeps the invariant and the fact.
  pub query-Steady :
      {A : Type 0} (f : S → Outcome A × S)
      → ((s : S) → I s → F s → Gives L I calm (λ _. F) (f s))
      → Steady (query f)
  query-Steady f h = query-Triple L I calm F (λ _. F) f respected h

  given : {A : Type 0} (r : Outcome A) (s : S) → I s → F s → Gives L I calm (λ _. F) (r, s)
  given (ok a) s i p = (i, p)
  given (err e) s i p = tt

  -- A statement that only reads.
  pub read-Steady : {A : Type 0} (f : S → Outcome A) → Steady (query (λ s. (f s, s)))
  read-Steady f = query-Steady (λ s. (f s, s)) (λ s i p. given (f s) s i p)

  pub rand_int-Steady : (limit : ℕ) → Steady (rand_int limit)
  unfolding rand_int
  rand_int-Steady limit w i p = drawn (w.draws w.drawn)
    where
      v : World S
      v = record w { drawn = w.drawn + 1 }

      stands : Stands L I v
      stands = record { holds = i.holds; undone = i.undone; turns = i.turns }

      drawn : (o : Option ℕ) → After L I (λ _. F) (or_other (option_map (λ n. n % limit) o), v)
      drawn none = stands
      drawn (some n) = (stands, p)

  pub test-Steady :
      {A : Type 0} (b : Bool) (m k : M S A) → Steady m → Steady k → Steady (if b then m else k)
  test-Steady true m k h g = h
  test-Steady false m k h g = g
