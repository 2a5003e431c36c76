-- ===== src/Prelude/Lists.antt =====
-- Lists over the native numbers: lengths, predicates over all or some of the items, selection.
use Prim.Native.Nat.{ℕ, suc}
use mathlib.Core.Path.{◌≡◌, refl}
use mathlib.Core.Logic.{◌⊎◌, inl, inr}
use mathlib.Core.Bool.{Bool, true, false}
use mathlib.Core.List.{List, [], ◌∷◌, ◌++◌}
use mathlib.Core.Option.{Option, none, some}
use native.Mathlib.Omega.{arith}
use nearby_backend.Prelude.Tests.{◌==◌, if◌then◌else◌, Bool-cases}

module _ {ℓ} {A : Type ℓ} where
  abbrev pub length : List A → ℕ
  length [] = 0
  length (x ∷ xs) = suc (length xs)

  -- The items that pass a test, in order.
  unfoldable pub select : (A → Bool) → List A → List A
  select p [] = []
  select p (x ∷ xs) = let rest = select p xs in if p x then x ∷ rest else rest

  -- The first item that passes a test.
  unfoldable pub find : (A → Bool) → List A → Option A
  find p [] = none
  find p (x ∷ xs) = let rest = find p xs in if p x then some x else rest

  -- Whether some item passes a test.
  unfoldable pub exists : (A → Bool) → List A → Bool
  exists p [] = false
  exists p (x ∷ xs) = let rest = exists p xs in if p x then true else rest

  abbrev pub is_empty : List A → Bool
  is_empty [] = true
  is_empty (x ∷ xs) = false

-- A number is an item of the list.
unfoldable pub contains : List ℕ → ℕ → Bool
contains [] a = false
contains (x ∷ xs) a = let rest = contains xs a in if x == a then true else rest

module _ {ℓ} {A : Type ℓ} (P : A → Type 0) where
  abbrev pub All : List A → Type 0
  All [] = Unit
  All (x ∷ xs) = P x × All xs

  abbrev pub Any : List A → Type 0
  Any [] = ⊥
  Any (x ∷ xs) = P x ⊎ Any xs

module _ {ℓ} {A : Type ℓ} {P Q : A → Type 0} where
  pub All-mono : (xs : List A) → ((x : A) → P x → Q x) → All P xs → All Q xs
  All-mono [] f h = tt
  All-mono (x ∷ xs) f h = (f x h.0, All-mono xs f h.1)

  pub Any-mono : (xs : List A) → ((x : A) → P x → Q x) → Any P xs → Any Q xs
  Any-mono [] f h = elim h [ ]
  Any-mono (x ∷ xs) f (inl h) = inl (f x h)
  Any-mono (x ∷ xs) f (inr h) = inr (Any-mono xs f h)

  -- An item that some fact picks out has what holds of all.
  pub All-Any : (xs : List A) → All P xs → Any Q xs → (x : A) × P x × Q x
  All-Any [] h q = elim q [ ]
  All-Any (x ∷ xs) h (inl q) = (x, h.0, q)
  All-Any (x ∷ xs) h (inr q) = All-Any xs h.1 q

module _ {ℓ} {A : Type ℓ} (P : A → Type 0) where
  pub All-append : (xs ys : List A) → All P xs → All P ys → All P (xs ++ ys)
  All-append [] ys h k = k
  All-append (x ∷ xs) ys h k = (h.0, All-append xs ys h.1 k)

  pub All-append_left : (xs ys : List A) → All P (xs ++ ys) → All P xs
  All-append_left [] ys h = tt
  All-append_left (x ∷ xs) ys h = (h.0, All-append_left xs ys h.1)

  pub Any-append_left : (xs ys : List A) → Any P xs → Any P (xs ++ ys)
  Any-append_left [] ys h = elim h [ ]
  Any-append_left (x ∷ xs) ys (inl h) = inl h
  Any-append_left (x ∷ xs) ys (inr h) = inr (Any-append_left xs ys h)

  pub Any-append_right : (xs ys : List A) → Any P ys → Any P (xs ++ ys)
  Any-append_right [] ys h = h
  Any-append_right (x ∷ xs) ys h = inr (Any-append_right xs ys h)

  pub All-select : (p : A → Bool) (xs : List A) → All P xs → All P (select p xs)
  unfolding select
  All-select p [] h = tt
  All-select p (x ∷ xs) h = ground (arith, All-select p xs h.1)

module _ {ℓ} {A : Type ℓ} where
  pub All-of_each : {P : A → Type 0} (xs : List A) → ((x : A) → P x) → All P xs
  All-of_each [] f = tt
  All-of_each (x ∷ xs) f = (f x, All-of_each xs f)

module _ {A : Type 0} where
  -- Every item of a list is one of its items.
  pub All-self : (xs : List A) → All (λ x. Any (λ y. y ≡ x) xs) xs
  All-self [] = tt
  All-self (x ∷ xs) = (inl refl, All-mono xs (λ y h. inr h) (All-self xs))

  -- An item that is found passes the test.
  pub found-passes : (p : A → Bool) (xs : List A) (x : A) → find p xs ≡ some x → p x ≡ true
  unfolding find
  found-passes p [] x h = absurd (cc)
  found-passes p (y ∷ ys) x h = elim (Bool-cases (p y)) [
    | inl hit ↦ ground arith
    | inr miss ↦ found-passes p ys x (ground arith)
  ]

  -- A search that finds an item: it is the first one, or it is found behind it.
  pub first_or :
      (b : Bool) (x y : A) (rest : Option A)
      → (if b then some x else rest) ≡ some y
      → ((b ≡ true) × (x ≡ y)) ⊎ ((b ≡ false) × (rest ≡ some y))
  first_or true x y rest h = inl (refl, cc)
  first_or false x y rest h = inr (refl, h)

module _ {A : Type 0} where
  -- What a search finds is one of the items.
  pub found-Any : (p : A → Bool) (xs : List A) (x : A) → find p xs ≡ some x → Any (λ y. y ≡ x) xs
  unfolding find
  found-Any p [] x h = absurd (cc)
  found-Any p (y ∷ ys) x h = elim (first_or (p y) y x (find p ys) h) [
    | inl (e, same) ↦ inl same
    | inr (e, g) ↦ inr (found-Any p ys x g)
  ]
