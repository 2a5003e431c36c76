-- ===== src/Catalog/Pricing/Totals.antt =====
-- The promise of a quote (`BuildQuote`): selection, group rules and totals together.
use nearby_backend.Prelude.{
  ℕ, ◌≤◌, ◌<◌, ◌≡◌, refl, sym, ap, subst, ◌∙◌, inl, inr, true, false, ◌&&◌, Option, none, some,
  List, [], ◌∷◌, arith, ltb, Bool-cases, All, Any, All-mono, length,
}
use nearby_backend.Prelude.Int.{
  ℤ, pos, ◌+ℤ◌, ◌≤ℤ◌, ◌<ℤ◌, ltb_ℤ, leb_ℤ, half32, wrap32, IsInt32, wrap32_id, wrap32-IsInt32,
  wrap32_add, +ℤ_assoc, +ℤ_left_comm, +ℤ_zero,
}
use nearby_backend.Prelude.Sort.{insert_by, sort_by, Distinct, sum_by, sort_by-sum, Any-sort_by}
use nearby_backend.Platform.Database.{ok}
use nearby_backend.Platform.Result.{>>=-eq-ok, refuse_if-ok}
use nearby_backend.Catalog.Models.{
  Uuid, SelectionType, single, multi, OptionGroup, Service, SelectedOption, Quote,
}
use nearby_backend.Catalog.Pricing.{
  Picking, nothing_picked, pick_all, minimum, check_max, is_single, check_group, check_group_rules,
  total_of, by_name, priced, build_quote,
}
use nearby_backend.Catalog.Pricing.Selection.{
  Resolves, Picked, pick_all-ok, Answers-length, Answers-each, in_group, count_in,
}

-- The sum of a number over the selection, with nothing wrapped.
abbrev pub sum_ℤ : (SelectedOption → ℤ) → List SelectedOption → ℤ
sum_ℤ delta [] = pos 0
sum_ℤ delta (o ∷ os) = delta o +ℤ sum_ℤ delta os

total_of-sum :
    (delta : SelectedOption → ℤ) (base : ℤ) (os : List SelectedOption)
    → IsInt32 base
    → total_of delta base os ≡ wrap32 (base +ℤ sum_ℤ delta os)
unfolding total_of
total_of-sum delta base [] h = sym (ap wrap32 (+ℤ_zero base) ∙ wrap32_id base h)
total_of-sum delta base (o ∷ os) h =
    total_of-sum delta (wrap32 (base +ℤ delta o)) os (wrap32-IsInt32 (base +ℤ delta o))
    ∙ wrap32_add (base +ℤ delta o) (sum_ℤ delta os)
    ∙ ap wrap32 (+ℤ_assoc base (delta o) (sum_ℤ delta os))

insert_by-sum_ℤ :
    (delta : SelectedOption → ℤ) (x : SelectedOption) (os : List SelectedOption)
    → sum_ℤ delta (insert_by by_name x os) ≡ delta x +ℤ sum_ℤ delta os
unfolding insert_by
insert_by-sum_ℤ delta x [] = refl
insert_by-sum_ℤ delta x (o ∷ os) = elim (Bool-cases (by_name x o)) [
  | inl e ↦ rw e
  | inr e ↦ rw e (
      ap (λ t. delta o +ℤ t) (insert_by-sum_ℤ delta x os)
      ∙ +ℤ_left_comm (delta o) (delta x) (sum_ℤ delta os))
]

-- The order of the options in the quote does not change a sum.
sort_by-sum_ℤ :
    (delta : SelectedOption → ℤ) (os : List SelectedOption)
    → sum_ℤ delta (sort_by by_name os) ≡ sum_ℤ delta os
unfolding sort_by
sort_by-sum_ℤ delta [] = refl
sort_by-sum_ℤ delta (o ∷ os) =
    insert_by-sum_ℤ delta o (sort_by by_name os) ∙ ap (λ t. delta o +ℤ t) (sort_by-sum_ℤ delta os)

-- The rules of a group, on the number of options that are selected in it.
pub record KeepsRules (g : OptionGroup) (count : ℕ) : Type 0 where
  pub at_least : g.min_select ≤ℤ pos count
  pub required : g.is_required ≡ true → 1 ≤ count
  pub one : g.selection_type ≡ single → count ≤ 1
  pub at_most : (most : ℤ) → g.max_select ≡ some most → pos count ≤ℤ most

not_above : (a b : ℤ) → ltb_ℤ a b ≡ false → b ≤ℤ a
not_above a b h = ground arith

minimum_bounds :
    (g : OptionGroup) (count : ℤ)
    → minimum g ≤ℤ count
    → (g.min_select ≤ℤ count) × (g.is_required ≡ true → pos 1 ≤ℤ count)
unfolding minimum
minimum_bounds g count h = elim (Bool-cases (g.is_required && ltb_ℤ g.min_select (pos 1))) [
  | inl raised ↦ ground arith
  | inr kept ↦ ground arith
]

check_max-ok :
    (g : OptionGroup) (count : ℤ) (limit : Option ℤ)
    → check_max g count limit ≡ ok tt
    → (most : ℤ) → limit ≡ some most
    → count ≤ℤ most
unfolding check_max
check_max-ok g count none h most e = absurd (cc)
check_max-ok g count (some m) h most e =
    let fits = not_above m count (refuse_if-ok (ltb_ℤ m count) _ (ok tt) h).0 in ground arith

single_count :
    (t : SelectionType) (count : ℕ) → (is_single t && ltb 1 count) ≡ false → t ≡ single → count ≤ 1
single_count single count h e = ground arith
single_count multi count h e = absurd (cc)

check_group-KeepsRules :
    (g : OptionGroup) (count : ℕ)
    → count < half32
    → check_group g count ≡ ok tt
    → KeepsRules g count
unfolding check_group
check_group-KeepsRules g count small h =
    let exact : wrap32 (pos count) ≡ pos count = wrap32_id (pos count) (small, omega arith) in
    let (low, rest) = refuse_if-ok (ltb_ℤ (wrap32 (pos count)) (minimum g)) _ _ h in
    let (lone, last) = refuse_if-ok (is_single g.selection_type && ltb 1 count) _ _ rest in
    let bounds =
      minimum_bounds g (pos count)
        (subst (λ c. minimum g ≤ℤ c) exact (not_above (wrap32 (pos count)) (minimum g) low)) in
    record {
      at_least = bounds.0;
      required = λ r. omega (arith, bounds.1 r);
      one = single_count g.selection_type count lone;
      at_most = λ most e.
          subst (λ c. c ≤ℤ most) exact
            (check_max-ok g (wrap32 (pos count)) g.max_select last most e);
    }

check_group_rules-KeepsRules :
    (groups : List OptionGroup) (counts : Uuid → ℕ)
    → ((g : Uuid) → counts g < half32)
    → check_group_rules groups counts ≡ ok tt
    → All (λ g. KeepsRules g (counts g.id)) groups
unfolding check_group_rules
check_group_rules-KeepsRules [] counts small h = tt
check_group_rules-KeepsRules (g ∷ gs) counts small h =
    let (u, first, rest) = >>=-eq-ok (check_group g (counts g.id)) _ h in
    (
      check_group-KeepsRules g (counts g.id) (small g.id) first,
      check_group_rules-KeepsRules gs counts small rest,
    )

-- The totals of a priced selection.
pub record IsPriced (service : Service) (sel : List SelectedOption) (q : Quote) : Type 0 where
  pub options : q.options ≡ sort_by by_name sel
  pub currency : q.currency ≡ service.currency
  pub price : q.price_cents ≡ total_of (λ o. o.price_delta_cents) service.price_cents sel
  pub duration :
      q.duration_minutes ≡ total_of (λ o. o.duration_delta_minutes) service.duration_minutes sel
  pub not_negative : pos 0 ≤ℤ q.price_cents
  pub some_time : pos 0 <ℤ q.duration_minutes

above : (a b : ℤ) → leb_ℤ a b ≡ false → b <ℤ a
above a b h = ground arith

priced-IsPriced :
    (service : Service) (sel : List SelectedOption) (q : Quote)
    → priced service sel ≡ ok q
    → IsPriced service sel q
unfolding priced
priced-IsPriced service sel q h =
    let (enough, rest) = refuse_if-ok _ _ _ h in
    let (lasting, made) = refuse_if-ok _ _ _ rest in
    subst (IsPriced service sel) (ground arith) (record {
      options = refl;
      currency = refl;
      price = refl;
      duration = refl;
      not_negative = not_above _ (pos 0) enough;
      some_time = above _ (pos 0) lasting;
    })

-- What a quote promises of the selection that was asked for.
pub record IsFair (service : Service) (groups : List OptionGroup) (chosen : List Uuid) (q : Quote)
    : Type 0 where
  pub once : Distinct (λ id. id) chosen
  pub each : All (λ id. Any (Resolves groups id) q.options) chosen
  pub no_more : length q.options ≡ length chosen
  pub rules : All (λ g. KeepsRules g (count_in g.id q.options)) groups
  pub currency : q.currency ≡ service.currency
  pub price :
      q.price_cents ≡ wrap32 (service.price_cents +ℤ sum_ℤ (λ o. o.price_delta_cents) q.options)
  pub duration :
      q.duration_minutes
      ≡ wrap32 (service.duration_minutes +ℤ sum_ℤ (λ o. o.duration_delta_minutes) q.options)
  pub not_negative : pos 0 ≤ℤ q.price_cents
  pub some_time : pos 0 <ℤ q.duration_minutes

length-sum : (os : List SelectedOption) → length os ≡ sum_by (λ o. 1) os
length-sum [] = refl
length-sum (o ∷ os) = omega (arith, length-sum os)

length-sort : (os : List SelectedOption) → length (sort_by by_name os) ≡ length os
length-sort os =
    length-sum (sort_by by_name os) ∙ sort_by-sum by_name (λ o. 1) os ∙ sym (length-sum os)

count_in-le : (g : Uuid) (os : List SelectedOption) → count_in g os ≤ length os
count_in-le g [] = omega arith
count_in-le g (o ∷ os) = ground (arith, count_in-le g os)

sorted_total :
    (delta : SelectedOption → ℤ) (base total : ℤ) (sel os : List SelectedOption)
    → IsInt32 base
    → os ≡ sort_by by_name sel
    → total ≡ total_of delta base sel
    → total ≡ wrap32 (base +ℤ sum_ℤ delta os)
sorted_total delta base total sel os h e t =
    t
    ∙ total_of-sum delta base sel h
    ∙ ap (λ s. wrap32 (base +ℤ s)) (sym (ap (sum_ℤ delta) e ∙ sort_by-sum_ℤ delta sel))

assemble :
    (service : Service) (groups : List OptionGroup) (chosen : List Uuid) (p : Picking)
    (sel : List SelectedOption) (q : Quote)
    → IsInt32 service.price_cents
    → IsInt32 service.duration_minutes
    → Picked groups chosen nothing_picked p sel
    → All (λ g. KeepsRules g (p.count_by_group g.id)) groups
    → IsPriced service sel q
    → IsFair service groups chosen q
assemble service groups chosen p sel q hp hd picked rules made = record {
  once = picked.once;
  each =
      subst (λ os. All (λ id. Any (Resolves groups id) os) chosen) (sym made.options)
        (All-mono chosen (λ id m. Any-sort_by by_name (Resolves groups id) sel m)
          (Answers-each groups chosen sel picked.answers));
  no_more =
      ap length made.options ∙ length-sort sel ∙ Answers-length groups chosen sel picked.answers;
  rules =
      All-mono groups
        (λ g k.
          subst (KeepsRules g)
            (omega (
              arith,
              picked.counts g.id,
              ap (count_in g.id) made.options,
              sort_by-sum by_name (in_group g.id) sel,
            ))
            k)
        rules;
  currency = made.currency;
  price =
      sorted_total (λ o. o.price_delta_cents) service.price_cents q.price_cents sel q.options hp
        made.options made.price;
  duration =
      sorted_total (λ o. o.duration_delta_minutes) service.duration_minutes q.duration_minutes sel
        q.options hd made.options made.duration;
  not_negative = made.not_negative;
  some_time = made.some_time;
}

-- A quote is fair. Each id was chosen once, belongs to an active option of the service, and has that
-- option's catalog values in the quote, which lists nothing else; every group's minimum, maximum,
-- required and single rules hold of the selection; the price and the duration are the service's plus
-- those of the options, as `int32` arithmetic wraps them, the price is not negative and the duration
-- is positive. The service's own values are `int32`, and fewer than 2³¹ options are chosen.
pub build_quote-IsFair :
    (service : Service) (groups : List OptionGroup) (chosen : List Uuid) (q : Quote)
    → IsInt32 service.price_cents
    → IsInt32 service.duration_minutes
    → length chosen < half32
    → build_quote service groups chosen ≡ ok q
    → IsFair service groups chosen q
unfolding build_quote
build_quote-IsFair service groups chosen q hp hd few h =
    let (p, first, rest) = >>=-eq-ok (pick_all groups chosen nothing_picked) _ h in
    let (u, checked, last) = >>=-eq-ok (check_group_rules groups p.count_by_group) _ rest in
    let (sel, picked) = pick_all-ok groups chosen nothing_picked p first in
    let small = λ (g : Uuid).
      let bound : p.count_by_group g < half32 = omega (
        arith,
        picked.counts g,
        count_in-le g sel,
        Answers-length groups chosen sel picked.answers,
      ) in
      bound in
    assemble service groups chosen p sel q hp hd picked
      (check_group_rules-KeepsRules groups p.count_by_group small checked)
      (priced-IsPriced service sel q (subst (λ s. priced service s ≡ ok q) picked.selected last))
