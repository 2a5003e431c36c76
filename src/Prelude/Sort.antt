-- ===== src/Prelude/Sort.antt =====
-- Go's `sort.Slice` and `sort.SliceStable` as a stable insertion sort.
use Prim.Native.Nat.{ℕ, ◌+◌, ◌≤◌, ◌<◌}
use mathlib.Core.Logic.{◌≢◌, ◌⊎◌, inl, inr}
use mathlib.Core.Bool.{Bool}
use mathlib.Core.Path.{◌≡◌, refl}
use mathlib.Core.List.{List, [], ◌∷◌}
use native.Mathlib.Omega.{arith}
use nearby_backend.Prelude.Tests.{leb, if◌then◌else◌, Bool-cases}
use nearby_backend.Prelude.Lists.{All, Any}

module _ {ℓ} {A : Type ℓ} (le : A → A → Bool) where
  unfoldable pub insert_by : A → List A → List A
  insert_by x [] = x ∷ []
  insert_by x (y ∷ ys) = let rest = insert_by x ys in if le x y then x ∷ y ∷ ys else y ∷ rest

  unfoldable pub sort_by : List A → List A
  unfolding insert_by
  sort_by [] = []
  sort_by (x ∷ xs) = insert_by x (sort_by xs)

module _ {ℓ} {A : Type ℓ} (le : A → A → Bool) (P : A → Type 0) where
  pub All-insert_by : (x : A) (xs : List A) → P x → All P xs → All P (insert_by le x xs)
  unfolding insert_by
  All-insert_by x [] p h = (p, tt)
  All-insert_by x (y ∷ ys) p h = ground (arith, All-insert_by x ys p h.1)

  -- Sorting keeps what holds of all items.
  pub All-sort_by : (xs : List A) → All P xs → All P (sort_by le xs)
  unfolding sort_by
  All-sort_by [] h = tt
  All-sort_by (x ∷ xs) h = All-insert_by x (sort_by le xs) h.0 (All-sort_by xs h.1)

  pub Any-insert_by : (x : A) (xs : List A) → P x ⊎ Any P xs → Any P (insert_by le x xs)
  unfolding insert_by
  Any-insert_by x [] (inl p) = inl p
  Any-insert_by x [] (inr p) = elim p [ ]
  Any-insert_by x (y ∷ ys) h = elim (Bool-cases (le x y)) [
    | inl e ↦ rw e h
    | inr e ↦ rw e (elim h [
      | inl p ↦ inr (Any-insert_by x ys (inl p))
      | inr q ↦ elim q [ inl p ↦ inl p | inr r ↦ inr (Any-insert_by x ys (inr r)) ]
    ])
  ]

  -- Sorting keeps what holds of some item.
  pub Any-sort_by : (xs : List A) → Any P xs → Any P (sort_by le xs)
  unfolding sort_by
  Any-sort_by [] h = elim h [ ]
  Any-sort_by (x ∷ xs) (inl h) = Any-insert_by x (sort_by le xs) (inl h)
  Any-sort_by (x ∷ xs) (inr h) = Any-insert_by x (sort_by le xs) (inr (Any-sort_by xs h))

-- Order by a number that each item carries.
module _ {ℓ} {A : Type ℓ} (key : A → ℕ) where
  abbrev pub by_key : A → A → Bool
  by_key x y = leb (key x) (key y)

  -- No two items have the same key.
  abbrev pub Distinct : List A → Type 0
  Distinct [] = Unit
  Distinct (x ∷ xs) = All (λ y. key y ≢ key x) xs × Distinct xs

  -- The keys rise strictly.
  abbrev pub Ascending : List A → Type 0
  Ascending [] = Unit
  Ascending (x ∷ xs) = All (λ y. key x < key y) xs × Ascending xs

  above_mono : (m n : ℕ) (xs : List A) → m ≤ n → All (λ y. n < key y) xs → All (λ y. m < key y) xs
  above_mono m n [] h a = tt
  above_mono m n (x ∷ xs) h a = (omega arith, above_mono m n xs h a.1)

  insert_by-Ascending :
      (x : A) (xs : List A)
      → All (λ y. key y ≢ key x) xs
      → Ascending xs
      → Ascending (insert_by by_key x xs)
  unfolding insert_by
  insert_by-Ascending x [] d a = (tt, tt)
  insert_by-Ascending x (y ∷ ys) d a = elim (Bool-cases (leb (key x) (key y))) [
    | inl e ↦ rw e (
        let h : key x < key y = ground arith in
        ((h, above_mono (key x) (key y) ys (omega arith) a.0), a))
    | inr e ↦ rw e (
      All-insert_by by_key (λ z. key y < key z) x ys (ground arith) a.0,
      insert_by-Ascending x ys d.1 a.1,
    )
  ]

  -- Sorting items with distinct keys gives a strictly rising list.
  pub sort_by-Ascending : (xs : List A) → Distinct xs → Ascending (sort_by by_key xs)
  unfolding sort_by
  sort_by-Ascending [] d = tt
  sort_by-Ascending (x ∷ xs) d =
      insert_by-Ascending x (sort_by by_key xs) (All-sort_by by_key (λ y. key y ≢ key x) xs d.0)
        (sort_by-Ascending xs d.1)

-- Sums over a list do not depend on its order.
abbrev pub sum_by {ℓ} : {A : Type ℓ} → (A → ℕ) → List A → ℕ
sum_by f [] = 0
sum_by f (x ∷ xs) = f x + sum_by f xs

module _ {ℓ} {A : Type ℓ} (le : A → A → Bool) (f : A → ℕ) where
  insert_by-sum : (x : A) (xs : List A) → sum_by f (insert_by le x xs) ≡ f x + sum_by f xs
  unfolding insert_by
  insert_by-sum x [] = refl
  insert_by-sum x (y ∷ ys) = ground (arith, insert_by-sum x ys)

  pub sort_by-sum : (xs : List A) → sum_by f (sort_by le xs) ≡ sum_by f xs
  unfolding sort_by
  sort_by-sum [] = refl
  sort_by-sum (x ∷ xs) = omega (arith, insert_by-sum x (sort_by le xs), sort_by-sum xs)
