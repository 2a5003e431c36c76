-- ===== src/Auth/Guesses.antt =====
-- Verification codes (internal/auth/verification.go): what is known of the code that is read.
use nearby_backend.Prelude.{
  ◌≡◌, ◌≤◌, ◌⊎◌, refl, sym, subst, ap, inl, inr, Bool, true, false, ◌&&◌, not, String, Option, none,
  some, List, [], ◌∷◌, find, is_some, All, All-Any, leb, ◌==◌, first_or, found-passes, found-Any,
  Bool-cases, arith,
}
use nearby_backend.Prelude.Keyed.{HasOtherKey, IsKeyed}
use nearby_backend.Platform.Database.{M, query}
use nearby_backend.Platform.Facts.{IsRespected, Triple, Gives, query-Triple}
use nearby_backend.Accounts.Tables.{Uuid, Instant, Digest, CodeRow, Store, one_row}
use nearby_backend.Auth.Queries.{is_live_for, get_live_code, count_attempt, consume_row}
use nearby_backend.Auth.Verification.{max_attempts}

abbrev HasOtherId : CodeRow → CodeRow → Type 0
HasOtherId = HasOtherKey (λ c. c.id)

-- The primary key of `verification_codes`.
abbrev pub IsNumbered : List CodeRow → Type 0
IsNumbered = IsKeyed (λ c. c.id)

-- The code with this id has had its attempts.
abbrev pub IsWorn : Uuid → CodeRow → Type 0
IsWorn id c = c.id ≡ id → max_attempts ≤ c.attempts

-- A guess that this code does not accept: it is dead, has had its attempts, has another digest, or is
-- too old.
abbrev pub IsNoMatch : String → Digest → Instant → CodeRow → Type 0
IsNoMatch address hash now c =
    is_live_for address c ≡ true
    → (max_attempts ≤ c.attempts) ⊎ ((hash == c.code_hash) ≡ false) ⊎ (leb now c.expires_at ≡ false)

-- A write of another session: it makes no code that would accept the guess, gives no attempt back, and
-- keeps ids apart.
pub record IsAside (address : String) (hash : Digest) (now : Instant) (f : Store → Store)
    : Type 0 where
  pub numbered : (s : Store) → IsNumbered s.codes → IsNumbered (f s).codes
  pub matchless :
      (s : Store)
      → All (IsNoMatch address hash now) s.codes
      → All (IsNoMatch address hash now) (f s).codes
  pub worn : (id : Uuid) (s : Store) → All (IsWorn id) s.codes → All (IsWorn id) (f s).codes

abbrev pub HasCodes : Store → Type 0
HasCodes s = IsNumbered s.codes

others-Worn : (c : CodeRow) (rs : List CodeRow) → All (HasOtherId c) rs → All (IsWorn c.id) rs
others-Worn c [] h = tt
others-Worn c (q ∷ qs) h = (λ e. absurd (ground arith), others-Worn c qs h.1)

found-Worn :
    (p : CodeRow → Bool) (rs : List CodeRow) (r : CodeRow)
    → IsNumbered rs
    → find p rs ≡ some r
    → max_attempts ≤ r.attempts
    → All (IsWorn r.id) rs
unfolding find
found-Worn p [] r k h n = tt
found-Worn p (x ∷ xs) r k h n = elim (first_or (p x) x r (find p xs) h) [
  | inl (e, same) ↦ (
    λ _. subst (λ q. max_attempts ≤ q.attempts) (sym same) n,
    subst (λ q. All (IsWorn q.id) xs) same (others-Worn x xs k.0),
  )
  | inr (e, g) ↦
      let (y, apart, same) = All-Any xs k.0 (found-Any p xs r g) in
      (λ here. absurd (ground (arith, ap (λ q. q.id) same)), found-Worn p xs r k.1 g n)
]

found-All :
    (P : CodeRow → Type 0) (p : CodeRow → Bool) (rs : List CodeRow) (r : CodeRow)
    → All P rs
    → find p rs ≡ some r
    → P r
found-All P p rs r h e =
    let (y, holds, same) = All-Any rs h (found-Any p rs r e) in subst P same holds

pub count_attempt-id : (id : Uuid) (c : CodeRow) → (count_attempt id c).id ≡ c.id
unfolding count_attempt
count_attempt-id id c = elim (Bool-cases (c.id == id)) [ inl e ↦ rw e refl | inr e ↦ rw e refl ]

pub consume_row-id :
    (which : CodeRow → Bool) (now : Instant) (c : CodeRow) → (consume_row which now c).id ≡ c.id
unfolding consume_row
consume_row-id which now c = elim (Bool-cases (which c && not (is_some c.consumed_at))) [
  | inl e ↦ rw e refl
  | inr e ↦ rw e refl
]

module _ (address : String) (hash : Digest) (now : Instant) where
  abbrev pub Aside : (Store → Store) → Type 0
  Aside = IsAside address hash now

  pub calm : IsRespected Aside HasCodes HasCodes
  calm f l s i h = l.numbered s h

  abbrev pub Holds : {A : Type 0} → (Store → Type 0) → M Store A → (A → Store → Type 0) → Type 0
  Holds = Triple Aside HasCodes

  abbrev pub Matchless : Store → Type 0
  Matchless s = All (IsNoMatch address hash now) s.codes

  -- What is known of the code that is read.
  abbrev pub IsHopeless : CodeRow → Store → Type 0
  IsHopeless row s =
      All (IsWorn row.id) s.codes
      ⊎ ((hash == row.code_hash) ≡ false)
      ⊎ (leb now row.expires_at ≡ false)

  pub IsHopeless-IsRespected : (row : CodeRow) → IsRespected Aside HasCodes (IsHopeless row)
  IsHopeless-IsRespected row f l s i (inl worn) = inl (l.worn row.id s worn)
  IsHopeless-IsRespected row f l s i (inr rest) = inr rest

  read_row :
      (s : Store) (r : Option CodeRow)
      → find (is_live_for address) s.codes ≡ r
      → HasCodes s
      → Matchless s
      → Gives Aside HasCodes calm IsHopeless (one_row r, s)
  read_row s none h i k = tt
  read_row s (some r) h i k = (
    i,
    hopeless (
        found-All (IsNoMatch address hash now) (is_live_for address) s.codes r k h
          (found-passes (is_live_for address) s.codes r h)),
  )
    where
      hopeless :
          (max_attempts ≤ r.attempts)
            ⊎ ((hash == r.code_hash) ≡ false)
            ⊎ (leb now r.expires_at ≡ false)
          → IsHopeless r s
      hopeless (inl n) = inl (found-Worn (is_live_for address) s.codes r i h n)
      hopeless (inr rest) = inr rest

  pub get-Holds : Holds Matchless (query (get_live_code address)) IsHopeless
  unfolding get_live_code
  get-Holds =
      query-Triple Aside HasCodes calm Matchless IsHopeless (get_live_code address)
        (λ f l s i h. l.matchless s h) (λ s i k. read_row s _ refl i k)
