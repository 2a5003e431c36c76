-- ===== src/Platform/Facts.antt =====
-- What operations establish about the store while other sessions write: a fact that the other
-- sessions respect, once read, still holds at a later statement. A background invariant holds
-- throughout, after a rollback as well.
use nearby_backend.Prelude.{
  ◌≡◌, refl, get_or, option_map, Bool, true, false, Option, none, some, List, [], ◌∷◌, All,
  All-of_each,
}
use nearby_backend.Platform.Errors.{Error}
use nearby_backend.Platform.Database.{
  Failure, Outcome, ok, err, Turn, World, M, continue, ◌>>=◌, ◌>>◌, return, guard, map_error,
  on_error, lift, rolled_back, await, perform, statement, query, commit, settle, begin, in_tx,
}

-- `L` says how the other sessions may write, and `I` is the invariant.
module _ {S : Type 0} (L : (S → S) → Type 0) (I : S → Type 0) where
  -- What a fact needs so that it survives the other sessions' writes.
  abbrev pub IsRespected : (S → Type 0) → Type 0
  IsRespected F = (f : S → S) → L f → (s : S) → I s → F s → F (f s)

  pub record Stands (w : World S) : Type 0 where
    pub holds : I w.store
    pub undone : I (rolled_back w)
    pub turns : All (λ t. L t.others) w.turns

  -- After an operation: the invariant, and a fact about its result if it gave one.
  abbrev pub After : {A : Type 0} → (A → S → Type 0) → Outcome A × World S → Type 0
  After G (ok a, w) = Stands w × G a w.store
  After G (err e, w) = Stands w

  abbrev pub Triple : {A : Type 0} → (S → Type 0) → M S A → (A → S → Type 0) → Type 0
  Triple F m G = (w : World S) → Stands w → F w.store → After G (m w)

  -- No fact at all.
  abbrev pub Always : S → Type 0
  Always s = Unit {0}

  module _ (calm : IsRespected I) where
    continue-After :
        {A B : Type 0} (G : A → S → Type 0) (H : B → S → Type 0) (f : A → M S B)
        (r : Outcome A × World S)
        → ((a : A) → Triple (G a) (f a) H)
        → After G r
        → After H (continue r f)
    continue-After G H f (ok a, w) k h = k a w h.0 h.1
    continue-After G H f (err e, w) k h = h

    pub bind-Triple :
        {A B : Type 0} (F : S → Type 0) (G : A → S → Type 0) (H : B → S → Type 0) (m : M S A)
        (f : A → M S B)
        → Triple F m G
        → ((a : A) → Triple (G a) (f a) H)
        → Triple F (m >>= f) H
    bind-Triple F G H m f h k w i p = continue-After G H f (m w) k (h w i p)

    pub seq-Triple :
        {B : Type 0} (F G : S → Type 0) (H : B → S → Type 0) (m : M S (Unit {0})) (k : M S B)
        → Triple F m (λ _. G)
        → Triple G k H
        → Triple F (m >> k) H
    seq-Triple F G H m k h g = bind-Triple F (λ _. G) H m (λ _. k) h (λ _. g)

    map_error-After :
        {A : Type 0} (G : A → S → Type 0) (f : Failure → Failure) (r : Outcome A × World S)
        → After G r
        → After G (map_error f r)
    map_error-After G f (ok a, w) h = h
    map_error-After G f (err e, w) h = h

    pub on_error-Triple :
        {A : Type 0} (F : S → Type 0) (G : A → S → Type 0) (f : Failure → Failure) (m : M S A)
        → Triple F m G
        → Triple F (on_error f m) G
    on_error-Triple F G f m h w i p = map_error-After G f (m w) (h w i p)

    pub guard-Triple :
        (F : S → Type 0) (t : Bool) (e : Error) → Triple F (guard t e) (λ _ s. (t ≡ true) × F s)
    guard-Triple F true e w i p = (i, (refl, p))
    guard-Triple F false e w i p = i

    -- What comes after a guard may use its test.
    pub gate-Triple :
        {B : Type 0} (F : S → Type 0) (H : B → S → Type 0) (t : Bool) (e : Error) (k : M S B)
        → (t ≡ true → Triple F k H)
        → Triple F (guard t e >> k) H
    gate-Triple F H true e k h = h refl
    gate-Triple F H false e k h = λ w i p. i

    pub lift-Triple :
        {A : Type 0} (F : S → Type 0) (r : Outcome A) → Triple F (lift r) (λ a s. (r ≡ ok a) × F s)
    lift-Triple F (ok a) w i p = (i, (refl, p))
    lift-Triple F (err e) w i p = i

    pub return-Triple :
        {A : Type 0} (F : S → Type 0) (G : A → S → Type 0) (a : A)
        → ((s : S) → F s → G a s)
        → Triple F (return a) G
    return-Triple F G a f w i p = (i, f w.store p)

    pub weaken :
        {A : Type 0} (G H : A → S → Type 0) (r : Outcome A × World S)
        → ((a : A) (s : S) → G a s → H a s)
        → After G r
        → After H r
    weaken G H (ok a, w) f h = (h.0, f a w.store h.1)
    weaken G H (err e, w) f h = h

    pub mono-Triple :
        {A : Type 0} (F : S → Type 0) (G H : A → S → Type 0) (m : M S A)
        → ((a : A) (s : S) → G a s → H a s)
        → Triple F m G
        → Triple F m H
    mono-Triple F G H m f h w i p = weaken G H (m w) f (h w i p)

    undone_visit :
        (f : S → S) (c : Option S) (s : S)
        → L f
        → I (get_or c s)
        → I (get_or (option_map f c) (f s))
    undone_visit f none s l h = calm f l s h h
    undone_visit f (some b) s l h = calm f l b h h

    await-Stands :
        (F : S → Type 0) (ts : List (Turn S)) (w : World S)
        → IsRespected F
        → All (λ t. L t.others) ts
        → Stands w
        → ts ≡ w.turns
        → F w.store
        → Stands (await ts w).1 × F (await ts w).1.store
    await-Stands F [] w r q h e p = (h, p)
    await-Stands F (t ∷ ts) w r q h e p = (
      record {
        holds = calm t.others q.0 w.store h.holds h.holds;
        undone = undone_visit t.others w.committed w.store q.0 h.undone;
        turns = q.1;
      },
      r t.others q.0 w.store h.holds p,
    )

    undone_write : (c : Option S) (s s' : S) → I s' → I (get_or c s) → I (get_or c s')
    undone_write none s s' h k = h
    undone_write (some b) s s' h k = k

    -- What a statement gives on a store: its result's fact on the store that it leaves.
    abbrev pub Gives : {A : Type 0} → (A → S → Type 0) → Outcome A × S → Type 0
    Gives G (ok a, s) = I s × G a s
    Gives G (err e, s) = Unit {0}

    perform-After :
        {A : Type 0} (G : A → S → Type 0) (r : Outcome A × S) (w : World S)
        → Stands w
        → Gives G r
        → After G (perform r w)
    perform-After G (ok a, s) w h g = (
      record {
        holds = g.0;
        undone = undone_write w.committed w.store s g.0 h.undone;
        turns = h.turns;
      },
      g.1,
    )
    perform-After G (err e, s) w h g = h

    pub query-Triple :
        {A : Type 0} (F : S → Type 0) (G : A → S → Type 0) (f : S → Outcome A × S)
        → IsRespected F
        → ((s : S) → I s → F s → Gives G (f s))
        → Triple F (query f) G
    unfolding query
    query-Triple F G f r g w h p =
        done (await w.turns w) (await-Stands F w.turns w r h.turns h refl p)
      where
        done : (v : Option Failure × World S) → Stands v.1 × F v.1.store → After G (statement f v)
        done (some e, v) k = k.0
        done (none, v) k = perform-After G (f v.store) v k.0 (g v.store k.0.holds k.1)

    settle-After :
        {A : Type 0} (G : A → S → Type 0) (r : Outcome A × World S)
        → ((a : A) → IsRespected (G a))
        → After G r
        → After G (settle r)
    settle-After G (err e, w) q h = record { holds = h.undone; undone = h.undone; turns = h.turns }
    settle-After G (ok a, w) q h =
        done (await w.turns w) (await-Stands (G a) w.turns w (q a) h.0.turns h.0 refl h.1)
      where
        done : (v : Option Failure × World S) → Stands v.1 × G a v.1.store → After G (commit a v)
        done (some e, v) k = record { holds = k.0.undone; undone = k.0.undone; turns = k.0.turns }
        done (none, v) k =
            (record { holds = k.0.holds; undone = k.0.holds; turns = k.0.turns }, k.1)

    -- A transaction keeps the invariant if its statements do, whether it commits or not.
    pub in_tx-Triple :
        {A : Type 0} (F : S → Type 0) (G : A → S → Type 0) (body : M S A)
        → IsRespected F
        → ((a : A) → IsRespected (G a))
        → Triple F body G
        → Triple F (in_tx body) G
    unfolding in_tx
    in_tx-Triple F G body f g h w i p =
        done (await w.turns w) (await-Stands F w.turns w f i.turns i refl p)
      where
        done : (v : Option Failure × World S) → Stands v.1 × F v.1.store → After G (begin body v)
        done (some e, v) k = k.0
        done (none, v) k =
            let v' = record v { committed = some v.store } in
            settle-After G (body v') g
              (h v' (record { holds = k.0.holds; undone = k.0.holds; turns = k.0.turns }) k.1)

-- What an operation that answers says of the store that it leaves.
abbrev pub Leaves : {S A : Type 0} → (A → S → Type 0) → Outcome A × World S → Type 0
Leaves G (ok a, w) = G a w.store
Leaves G (err e, w) = Unit {0}

pub After-Leaves :
    {S : Type 0} (L : (S → S) → Type 0) (I : S → Type 0) {A : Type 0} (G : A → S → Type 0)
    (r : Outcome A × World S)
    → After L I G r
    → Leaves G r
After-Leaves L I G (ok a, w) h = h.1
After-Leaves L I G (err e, w) h = tt

module _ {S : Type 0} where
  -- Other sessions that write anything, and no invariant.
  abbrev pub Anyhow : (S → S) → Type 0
  Anyhow f = Unit {0}

  abbrev pub Anything : S → Type 0
  Anything s = Unit {0}

  pub anything_calm : IsRespected Anyhow Anything Anything
  anything_calm f l s h i = tt

  -- A fact about the answer and the store that needs nothing of the other sessions.
  pub Triple-Leaves :
      {A : Type 0} (G : A → S → Type 0) (m : M S A)
      → Triple Anyhow Anything Anything m G
      → (w : World S) → Leaves G (m w)
  Triple-Leaves G m h w =
      After-Leaves Anyhow Anything G (m w)
        (h w (record { holds = tt; undone = tt; turns = All-of_each w.turns (λ t. tt) }) tt)

-- The rules for what an operation leaves, where nothing else writes behind the fact.
module _ {S : Type 0} where
  pub continue-Leaves :
      {A B : Type 0} (G : A → S → Type 0) (H : B → S → Type 0) (f : A → M S B)
      (r : Outcome A × World S)
      → ((a : A) (w : World S) → G a w.store → Leaves H (f a w))
      → Leaves G r
      → Leaves H (continue r f)
  continue-Leaves G H f (ok a, w) k h = k a w h
  continue-Leaves G H f (err e, w) k h = tt

  -- Nothing is said of the first operation.
  pub continue-Leaves_any :
      {A B : Type 0} (H : B → S → Type 0) (f : A → M S B) (r : Outcome A × World S)
      → ((a : A) (w : World S) → Leaves H (f a w))
      → Leaves H (continue r f)
  continue-Leaves_any H f (ok a, w) k = k a w
  continue-Leaves_any H f (err e, w) k = tt
