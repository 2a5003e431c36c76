-- ===== src/Catalog/Pricing/Selection.antt =====
-- The loop over the chosen ids in `BuildQuote`: each id is chosen once, belongs to the service and
-- is active, and the counts are those of the selection.
use nearby_backend.Prelude.{
  ℕ, suc, ◌+◌, ◌≡◌, refl, sym, ap, subst, ◌∙◌, ◌≢◌, ◌⊎◌, inl, inr, true, false, Option, none, some,
  List, [], ◌∷◌, ◌++◌, arith, ◌==◌, if◌then◌else◌, Bool-cases, All, Any, All-mono, contains, length,
}
use mathlib.Core.List.{append-nil, append_assoc}
use nearby_backend.Prelude.Sort.{Distinct, sum_by}
use nearby_backend.Platform.Database.{ok}
use nearby_backend.Platform.Result.{>>=-eq-ok, refuse_if-ok}
use nearby_backend.Catalog.Models.{Uuid, ServiceOption, OptionGroup, SelectedOption}
use nearby_backend.Catalog.Pricing.{
  option_in, option_by_id, Picking, selected_option, bump, active_option, pick, pick_all,
}

-- The service offers the option: it stands in one of the groups.
abbrev pub IsOffered : List OptionGroup → ServiceOption → Type 0
IsOffered groups o = Any (λ g. Any (λ p. p ≡ o) g.options) groups

option_in-offered :
    (id : Uuid) (found : Option ServiceOption) (os : List ServiceOption) (o : ServiceOption)
    → option_in id found os ≡ some o
    → (found ≡ some o) ⊎ (Any (λ p. p ≡ o) os × (o.id ≡ id))
unfolding option_in
option_in-offered id found [] o h = inl h
option_in-offered id found (p ∷ os) o h = elim (Bool-cases (p.id == id)) [
  | inl mine ↦ elim (option_in-offered id (some p) os o (rw mine at h)) [
    | inl same ↦ inr (inl (ground arith), ground arith)
    | inr later ↦ inr (inr later.0, later.1)
  ]
  | inr foreign ↦ elim (option_in-offered id found os o (rw foreign at h)) [
    | inl same ↦ inl same
    | inr later ↦ inr (inr later.0, later.1)
  ]
]

option_by_id-IsOffered :
    (id : Uuid) (found : Option ServiceOption) (groups : List OptionGroup) (o : ServiceOption)
    → option_by_id id found groups ≡ some o
    → (found ≡ some o) ⊎ (IsOffered groups o × (o.id ≡ id))
unfolding option_by_id
option_by_id-IsOffered id found [] o h = inl h
option_by_id-IsOffered id found (g ∷ gs) o h =
    elim (option_by_id-IsOffered id (option_in id found g.options) gs o h) [
      | inl here ↦ elim (option_in-offered id found g.options o here) [
        | inl same ↦ inl same
        | inr mine ↦ inr (inl mine.0, mine.1)
      ]
      | inr later ↦ inr (inr later.0, later.1)
    ]

-- The catalog's snapshot of one chosen id.
abbrev pub Resolves : List OptionGroup → Uuid → SelectedOption → Type 0
Resolves groups id s =
    (o : ServiceOption) × IsOffered groups o
    × (o.id ≡ id)
    × (o.is_active ≡ true)
    × (s ≡ selected_option o)

-- The selection answers the ids one by one, in their order.
abbrev pub Answers : List OptionGroup → List Uuid → List SelectedOption → Type 0
Answers groups [] [] = Unit
Answers groups [] (s ∷ ss) = ⊥
Answers groups (id ∷ ids) [] = ⊥
Answers groups (id ∷ ids) (s ∷ ss) = Resolves groups id s × Answers groups ids ss

-- How many of the selected options belong to a group.
abbrev pub in_group : Uuid → SelectedOption → ℕ
in_group g s = if g == s.group_id then 1 else 0

abbrev pub count_in : Uuid → List SelectedOption → ℕ
count_in g = sum_by (in_group g)

active_option-ok :
    (found : Option ServiceOption) (o : ServiceOption)
    → active_option found ≡ ok o
    → (found ≡ some o) × (o.is_active ≡ true)
unfolding active_option
active_option-ok none o h = absurd (cc)
active_option-ok (some x) o h = elim (Bool-cases x.is_active) [
  | inl on ↦ ground arith
  | inr off ↦ absurd (ground arith)
]

-- One chosen id: it is new, it resolves, and the variables of the loop grow by it.
abbrev Grows : List OptionGroup → Uuid → Picking → Picking → SelectedOption → Type 0
Grows groups id p p' s =
    Resolves groups id s
    × (p'.selected ≡ p.selected ++ s ∷ [])
    × ((g : Uuid) → p'.count_by_group g ≡ p.count_by_group g + in_group g s)
    × (p'.seen ≡ id ∷ p.seen)

counted :
    (counts : Uuid → ℕ) (o : ServiceOption) (g : Uuid)
    → bump o.group_id counts g ≡ counts g + in_group g (selected_option o)
counted counts o g = ground arith

grown :
    (groups : List OptionGroup) (id : Uuid) (p : Picking) (o : ServiceOption)
    → active_option (option_by_id id none groups) ≡ ok o
    → Grows groups id p
        (record {
          selected = p.selected ++ selected_option o ∷ [];
          count_by_group = bump o.group_id p.count_by_group;
          seen = id ∷ p.seen;
        })
        (selected_option o)
grown groups id p o h =
    let (found, on) = active_option-ok (option_by_id id none groups) o h in
    elim (option_by_id-IsOffered id none groups o found) [
      | inl impossible ↦ absurd (cc)
      | inr (here, same) ↦
          ((o, here, same, on, refl), refl, λ g. counted p.count_by_group o g, refl)
    ]

pick-ok :
    (groups : List OptionGroup) (id : Uuid) (p p' : Picking)
    → pick groups id p ≡ ok p'
    → (contains p.seen id ≡ false) × ((s : SelectedOption) × Grows groups id p p' s)
unfolding pick
pick-ok groups id p p' h =
    let (new, rest) = refuse_if-ok (contains p.seen id) _ _ h in
    let (o, active, made) = >>=-eq-ok (active_option (option_by_id id none groups)) _ rest in
    (
      new,
      (
        selected_option o,
        subst (λ q. Grows groups id p q (selected_option o)) (ground arith)
            (grown groups id p o active),
      ),
    )

-- What the whole loop has done.
pub record Picked (groups : List OptionGroup) (ids : List Uuid) (p p' : Picking)
    (sel : List SelectedOption) : Type 0 where
  pub selected : p'.selected ≡ p.selected ++ sel
  pub answers : Answers groups ids sel
  pub counts : (g : Uuid) → p'.count_by_group g ≡ p.count_by_group g + count_in g sel
  pub fresh : All (λ id. contains p.seen id ≡ false) ids
  pub once : Distinct (λ id. id) ids

unseen :
    (id : Uuid) (seen : List Uuid) (ids : List Uuid)
    → All (λ j. contains (id ∷ seen) j ≡ false) ids
    → All (λ j. contains seen j ≡ false) ids × All (λ j. j ≢ id) ids
unfolding contains
unseen id seen [] h = (tt, tt)
unseen id seen (j ∷ ids) h =
    let rest = unseen id seen ids h.1 in ((ground arith, rest.0), (ground arith, rest.1))

pub pick_all-ok :
    (groups : List OptionGroup) (ids : List Uuid) (p p' : Picking)
    → pick_all groups ids p ≡ ok p'
    → (sel : List SelectedOption) × Picked groups ids p p' sel
unfolding pick_all
pick_all-ok groups [] p p' h =
    let same : p ≡ p' = ground arith in
    (
      [],
      record {
        selected = ap (λ q. q.selected) (sym same) ∙ sym (append-nil p.selected);
        answers = tt;
        counts = λ g. omega (arith, ap (λ (q : Picking). q.count_by_group g) same);
        fresh = tt;
        once = tt;
      },
    )
pick_all-ok groups (id ∷ ids) p p' h =
    let (q, first, later) = >>=-eq-ok (pick groups id p) (pick_all groups ids) h in
    let (new, (s, grows)) = pick-ok groups id p q first in
    let (sel, rest) = pick_all-ok groups ids q p' later in
    let apart =
      unseen id p.seen ids (subst (λ l. All (λ j. contains l j ≡ false) ids) grows.3 rest.fresh) in
    (
      s ∷ sel,
      record {
        selected =
            rest.selected ∙ ap (λ l. l ++ sel) grows.1 ∙ append_assoc p.selected (s ∷ []) sel;
        answers = (grows.0, rest.answers);
        counts = λ g. omega (arith, rest.counts g, grows.2 g);
        fresh = (new, apart.0);
        once = (apart.1, rest.once);
      },
    )

-- A selection has as many options as there are ids, and each id has its option in it.
pub Answers-length :
    (groups : List OptionGroup) (ids : List Uuid) (sel : List SelectedOption)
    → Answers groups ids sel
    → length sel ≡ length ids
Answers-length groups [] [] h = refl
Answers-length groups [] (s ∷ ss) h = elim h [ ]
Answers-length groups (id ∷ ids) [] h = elim h [ ]
Answers-length groups (id ∷ ids) (s ∷ ss) h = ap suc (Answers-length groups ids ss h.1)

pub Answers-each :
    (groups : List OptionGroup) (ids : List Uuid) (sel : List SelectedOption)
    → Answers groups ids sel
    → All (λ id. Any (Resolves groups id) sel) ids
Answers-each groups [] [] h = tt
Answers-each groups [] (s ∷ ss) h = elim h [ ]
Answers-each groups (id ∷ ids) [] h = elim h [ ]
Answers-each groups (id ∷ ids) (s ∷ ss) h =
    (inl h.0, All-mono ids (λ j m. inr m) (Answers-each groups ids ss h.1))
