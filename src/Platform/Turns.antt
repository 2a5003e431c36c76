-- ===== src/Platform/Turns.antt =====
-- What single statements see of a run: the store as the other sessions have made it, turn by turn.
use nearby_backend.Prelude.{
  ℕ, zero, suc, ◌≡◌, refl, sym, subst, Option, none, some, List, [], ◌∷◌, All,
}
use nearby_backend.Platform.Database.{
  Failure, Outcome, ok, err, Turn, World, M, continue, map_error, await, perform, statement, query,
  settle, begin, in_tx,
}

module _ {S : Type 0} where
  -- The store after a number of turns in which this session writes nothing.
  unfoldable pub meanwhile : ℕ → List (Turn S) → S → S
  meanwhile zero ts s = s
  meanwhile (suc n) [] s = s
  meanwhile (suc n) (t ∷ ts) s = meanwhile n ts (t.others s)

  abbrev pub rest : List (Turn S) → List (Turn S)
  rest [] = []
  rest (t ∷ ts) = ts

  -- The world after one turn.
  pub record IsNext (w v : World S) : Type 0 where
    pub turns : v.turns ≡ rest w.turns
    pub store : v.store ≡ meanwhile 1 w.turns w.store

  meanwhile_none : (n : ℕ) (s : S) → meanwhile n [] s ≡ s
  unfolding meanwhile
  meanwhile_none zero s = refl
  meanwhile_none (suc n) s = refl

  meanwhile-rest :
      (n : ℕ) (ts : List (Turn S)) (s : S)
      → meanwhile (suc n) ts s ≡ meanwhile n (rest ts) (meanwhile 1 ts s)
  unfolding meanwhile
  meanwhile-rest n [] s = sym (meanwhile_none n s)
  meanwhile-rest n (t ∷ ts) s = refl

  pub meanwhile_next :
      (n : ℕ) (w v : World S)
      → IsNext w v
      → meanwhile n v.turns v.store ≡ meanwhile (suc n) w.turns w.store
  meanwhile_next n w v i = rw (i.turns, i.store) (sym (meanwhile-rest n w.turns w.store))

  module _ (L : (S → S) → Type 0) where
    pub rest-All :
        (w v : World S) → IsNext w v → All (λ t. L t.others) w.turns → All (λ t. L t.others) v.turns
    rest-All w v i h = subst (All (λ t. L t.others)) (sym i.turns) (tail w.turns h)
      where
        tail : (ts : List (Turn S)) → All (λ t. L t.others) ts → All (λ t. L t.others) (rest ts)
        tail [] h = tt
        tail (t ∷ ts) h = h.1

    -- A fact that the other sessions keep holds after any number of turns.
    pub meanwhile_keeps :
        (F : S → Type 0) (n : ℕ) (ts : List (Turn S)) (s : S)
        → ((f : S → S) → L f → (s : S) → F s → F (f s))
        → All (λ t. L t.others) ts
        → F s
        → F (meanwhile n ts s)
    unfolding meanwhile
    meanwhile_keeps F zero ts s k h p = p
    meanwhile_keeps F (suc n) [] s k h p = p
    meanwhile_keeps F (suc n) (t ∷ ts) s k h p =
        meanwhile_keeps F n ts (t.others s) k h.1 (k t.others h.0 s p)

  -- A fact about the answer and the world that it is given in.
  abbrev pub Ends : {A : Type 0} → (A → World S → Type 0) → Outcome A × World S → Type 0
  Ends P (ok a, w) = P a w
  Ends P (err e, w) = Unit {0}

  pub continue-Ends :
      {A B : Type 0} (P : A → World S → Type 0) (Q : B → World S → Type 0) (f : A → M S B)
      (r : Outcome A × World S)
      → Ends P r
      → ((a : A) (w : World S) → P a w → Ends Q (f a w))
      → Ends Q (continue r f)
  continue-Ends P Q f (ok a, w) h k = k a w h
  continue-Ends P Q f (err e, w) h k = tt

  pub map_error-Ends :
      {A : Type 0} (P : A → World S → Type 0) (f : Failure → Failure) (r : Outcome A × World S)
      → Ends P r
      → Ends P (map_error f r)
  map_error-Ends P f (ok a, w) h = h
  map_error-Ends P f (err e, w) h = tt

  awaited : (ts : List (Turn S)) (w : World S) → w.turns ≡ ts → IsNext w (await ts w).1
  unfolding meanwhile
  awaited [] w e = record {
    turns = subst (λ ts. ts ≡ rest ts) (sym e) refl;
    store = subst (λ ts. w.store ≡ meanwhile 1 ts w.store) (sym e) refl;
  }
  awaited (t ∷ ts) w e = record {
    turns = subst (λ us. ts ≡ rest us) (sym e) refl;
    store = subst (λ us. t.others w.store ≡ meanwhile 1 us w.store) (sym e) refl;
  }

  -- A statement: its answer, and the store that it leaves in the world after a turn.
  pub query-Ends :
      {A : Type 0} (P : A → World S → Type 0) (f : S → Outcome A × S) (w : World S)
      → ((v : World S) → IsNext w v → Ends P ((f v.store).0, record v { store = (f v.store).1 }))
      → Ends P (query f w)
  unfolding query
  query-Ends {A = A} P f w k = done (await w.turns w) (awaited w.turns w refl)
    where
      performed :
          (v : World S) (r : Outcome A × S)
          → Ends P (r.0, record v { store = r.1 })
          → Ends P (perform r v)
      performed v (ok a, s) h = h
      performed v (err x, s) h = tt

      done : (r : Option Failure × World S) → IsNext w r.1 → Ends P (statement f r)
      done (some e, v) i = tt
      done (none, v) i = performed v (f v.store) (k v i)

  -- A transaction whose body gives no answer gives none.
  pub in_tx-Ends :
      {A : Type 0} (body : M S A) (w : World S)
      → ((v : World S) → IsNext w v → Ends (λ _ _. ⊥) (body v))
      → Ends (λ _ _. ⊥) (in_tx body w)
  unfolding in_tx
  in_tx-Ends {A = A} body w k = done (await w.turns w) (awaited w.turns w refl)
    where
      settled : (r : Outcome A × World S) → Ends (λ _ _. ⊥) r → Ends (λ _ _. ⊥) (settle r)
      settled (ok a, v) h = elim h [ ]
      settled (err e, v) h = tt

      done : (r : Option Failure × World S) → IsNext w r.1 → Ends (λ _ _. ⊥) (begin body r)
      done (some e, v) i = tt
      done (none, v) i =
          let v' = record v { committed = some v.store } in
          settled (body v') (k v' (record { turns = i.turns; store = i.store }))
