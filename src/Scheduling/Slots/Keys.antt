-- ===== src/Scheduling/Slots/Keys.antt =====
-- The maps of `GenerateSlots`: candidates by start, and the set of bookable starts.
use nearby_backend.Prelude.{
  ℕ, inl, inr, List, [], ◌∷◌, ◌++◌, sym, subst, ==_iff, arith, ◌==◌, if◌then◌else◌, All, All-append,
  Bool-cases, contains,
}

abbrev pub Candidates : Type 0
Candidates = List (ℕ × List ℕ)

-- `candidates[key]`, with the empty list for a missing key.
unfoldable pub ids_at : ℕ → Candidates → List ℕ
ids_at key [] = []
ids_at key ((k, ids) ∷ rest) = let later = ids_at key rest in if k == key then ids else later

-- `candidates[key] = append(candidates[key], id)`.
unfoldable pub add_id : ℕ → ℕ → Candidates → Candidates
add_id key id [] = (key, id ∷ []) ∷ []
add_id key id ((k, ids) ∷ rest) =
    let later = add_id key id rest in
    if k == key then (k, ids ++ id ∷ []) ∷ rest else (k, ids) ∷ later

-- `if _, ok := candidates[key]; !ok { candidates[key] = nil }`.
unfoldable pub add_empty : ℕ → Candidates → Candidates
add_empty key [] = (key, []) ∷ []
add_empty key ((k, ids) ∷ rest) =
    let later = add_empty key rest in if k == key then (k, ids) ∷ rest else (k, ids) ∷ later

-- `bookable[key] = struct{}{}`.
unfoldable pub add_start : ℕ → List ℕ → List ℕ
unfolding contains
add_start key starts = if contains starts key then starts else starts ++ key ∷ []

-- What holds of every candidate: of each id under its key.
abbrev pub AllIds : (ℕ → ℕ → Type 0) → Candidates → Type 0
AllIds P = All (λ entry. All (P entry.0) entry.1)

module _ (P : ℕ → ℕ → Type 0) where
  pub add_id-AllIds :
      (key id : ℕ) (c : Candidates) → P key id → AllIds P c → AllIds P (add_id key id c)
  unfolding add_id
  add_id-AllIds key id [] p h = ((p, tt), tt)
  add_id-AllIds key id ((k, ids) ∷ rest) p h = elim (Bool-cases (k == key)) [
    | inl e ↦ rw e (
      All-append (P k) ids (id ∷ []) h.0 (subst (λ n. P n id) (sym ((==_iff k key).0 e)) p, tt),
      h.1,
    )
    | inr e ↦ rw e (h.0, add_id-AllIds key id rest p h.1)
  ]

  pub add_empty-AllIds : (key : ℕ) (c : Candidates) → AllIds P c → AllIds P (add_empty key c)
  unfolding add_empty
  add_empty-AllIds key [] h = (tt, tt)
  add_empty-AllIds key ((k, ids) ∷ rest) h = elim (Bool-cases (k == key)) [
    | inl e ↦ rw e h
    | inr e ↦ rw e (h.0, add_empty-AllIds key rest h.1)
  ]

-- What holds of every key.
abbrev pub AllKeys : (ℕ → Type 0) → Candidates → Type 0
AllKeys Q = All (λ entry. Q entry.0)

module _ (Q : ℕ → Type 0) where
  pub add_id-AllKeys :
      (key id : ℕ) (c : Candidates) → Q key → AllKeys Q c → AllKeys Q (add_id key id c)
  unfolding add_id
  add_id-AllKeys key id [] q h = (q, tt)
  add_id-AllKeys key id ((k, ids) ∷ rest) q h = ground (arith, add_id-AllKeys key id rest q h.1)

  pub add_empty-AllKeys :
      (key : ℕ) (c : Candidates) → Q key → AllKeys Q c → AllKeys Q (add_empty key c)
  unfolding add_empty
  add_empty-AllKeys key [] q h = (q, tt)
  add_empty-AllKeys key ((k, ids) ∷ rest) q h = ground (arith, add_empty-AllKeys key rest q h.1)

pub add_start-All :
    (Q : ℕ → Type 0) (key : ℕ) (starts : List ℕ)
    → Q key
    → All Q starts
    → All Q (add_start key starts)
unfolding add_start
add_start-All Q key starts q h = elim (Bool-cases (contains starts key)) [
  | inl e ↦ rw e h
  | inr e ↦ rw e (All-append Q starts (key ∷ []) h (q, tt))
]
