-- ===== src/Prelude/Keyed.antt =====
-- Tables with a key: no two rows have the same.
use Prim.Native.Nat.{ℕ}
use mathlib.Core.Path.{◌≡◌, ap, ◌∙◌}
use mathlib.Core.Bool.{false}
use mathlib.Core.List.{List, [], ◌∷◌, map}
use nearby_backend.Prelude.Tests.{◌==◌}
use nearby_backend.Prelude.Lists.{All}

module _ {A : Type 0} (key : A → ℕ) where
  abbrev pub HasOtherKey : A → A → Type 0
  HasOtherKey r q = (key q == key r) ≡ false

  abbrev pub IsKeyed : List A → Type 0
  IsKeyed [] = Unit
  IsKeyed (r ∷ rs) = All (HasOtherKey r) rs × IsKeyed rs

  module _ (f : A → A) (same : (r : A) → key (f r) ≡ key r) where
    map-HasOtherKey :
        (r : A) (rs : List A) → All (HasOtherKey r) rs → All (HasOtherKey (f r)) (map f rs)
    map-HasOtherKey r [] h = tt
    map-HasOtherKey r (q ∷ qs) h = (
      ap (λ a. a == key (f r)) (same q) ∙ (ap (λ a. key q == a) (same r) ∙ h.0),
      map-HasOtherKey r qs h.1,
    )

    -- An update that leaves the keys alone.
    pub map-IsKeyed : (rs : List A) → IsKeyed rs → IsKeyed (map f rs)
    map-IsKeyed [] h = tt
    map-IsKeyed (r ∷ rs) h = (map-HasOtherKey r rs h.0, map-IsKeyed rs h.1)
