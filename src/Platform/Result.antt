-- ===== src/Platform/Result.antt =====
-- Chains of pure steps that may fail, as Go writes them: `if err != nil { return nil, err }`.
use nearby_backend.Prelude.{◌≡◌, refl, Bool, true, false}
use nearby_backend.Platform.Errors.{Error}
use nearby_backend.Platform.Database.{api, Outcome, ok, err}

module _ {ℓ κ} {A : Type ℓ} {B : Type κ} where
  infixl 5 ◌>>=◌
  abbrev pub ◌>>=◌ : Outcome A → (A → Outcome B) → Outcome B
  ◌>>=◌ (ok value) rest = rest value
  ◌>>=◌ (err failure) rest = err failure

  -- Where a chain succeeded, its first step did, and so did the rest on the step's value.
  pub >>=-eq-ok :
      (step : Outcome A) (rest : A → Outcome B) {result : B}
      → (step >>= rest) ≡ ok result
      → (value : A) × (step ≡ ok value) × (rest value ≡ ok result)
  >>=-eq-ok (err failure) rest h = absurd (cc)
  >>=-eq-ok (ok value) rest h = (value, refl, h)

-- `if test { return err }`.
abbrev pub refuse_if : Bool → Error → Outcome (Unit {0})
refuse_if true e = err (api e)
refuse_if false e = ok tt

module _ {ℓ} {B : Type ℓ} where
  infixl 5 ◌>>◌
  abbrev pub ◌>>◌ : Outcome (Unit {0}) → Outcome B → Outcome B
  ◌>>◌ step rest = step >>= λ _. rest

  pub refuse_if-ok :
      (test : Bool) (e : Error) (rest : Outcome B) {result : B}
      → (refuse_if test e >> rest) ≡ ok result
      → (test ≡ false) × (rest ≡ ok result)
  refuse_if-ok true e rest h = absurd (cc)
  refuse_if-ok false e rest h = (refl, h)
