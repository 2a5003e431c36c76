-- ===== src/Catalog/Pricing.antt =====
-- Prices and durations of a service with chosen options (internal/catalog/pricing.go).
pub mod Selection
pub mod Totals
use Prim.Native.String.{◌++◌ as append_text}
use nearby_backend.Prelude.{
  ℕ, zero, suc, ◌+◌, String, Bool, true, false, ◌&&◌, Option, none, some, List, [], ◌∷◌, ◌++◌, ◌==◌,
  if◌then◌else◌, contains, ltb,
}
use nearby_backend.Prelude.Int.{ℤ, pos, ◌+ℤ◌, ltb_ℤ, leb_ℤ, wrap32}
use nearby_backend.Prelude.Sort.{sort_by}
use nearby_backend.Prelude.Text.{text_le, decimal, quoted}
use nearby_backend.Platform.Errors.{Error, validation}
use nearby_backend.Platform.Database.{Outcome, ok, err, api}
use nearby_backend.Platform.Result.{◌>>=◌, ◌>>◌, refuse_if}
use nearby_backend.Catalog.Models.{
  Uuid, SelectionType, single, multi, ServiceOption, OptionGroup, Service, SelectedOption, Quote,
}

-- `optionsByID[id]`: the map is filled group by group, and a later option overwrites an earlier one.
unfoldable pub option_in : Uuid → Option ServiceOption → List ServiceOption → Option ServiceOption
option_in id found [] = found
option_in id found (o ∷ os) = option_in id (if o.id == id then some o else found) os

unfoldable pub option_by_id : Uuid → Option ServiceOption → List OptionGroup → Option ServiceOption
unfolding option_in
option_by_id id found [] = found
option_by_id id found (g ∷ gs) = option_by_id id (option_in id found g.options) gs

-- The variables of the loop over the chosen ids.
pub record Picking : Type 0 where
  pub selected : List SelectedOption
  pub count_by_group : Uuid → ℕ
  pub seen : List Uuid

abbrev pub selected_option : ServiceOption → SelectedOption
selected_option o = record {
  option_id = o.id;
  group_id = o.group_id;
  name = o.name;
  price_delta_cents = o.price_delta_cents;
  duration_delta_minutes = o.duration_delta_minutes;
}

-- `countByGroup[id]++`.
abbrev pub bump : Uuid → (Uuid → ℕ) → Uuid → ℕ
bump id counts g = if g == id then suc (counts g) else counts g

-- The lookup `optionsByID[id]` and the two refusals that follow it.
unfoldable pub active_option : Option ServiceOption → Outcome ServiceOption
active_option none =
    err (api (validation "One of the selected options does not belong to this service"))
active_option (some o) = do
  refuse_if (if o.is_active then false else true) (
      validation
        (append_text "The option " (append_text (quoted o.name) " is no longer available")))
  ok o

unfoldable pub pick : List OptionGroup → Uuid → Picking → Outcome Picking
unfolding option_by_id active_option
pick groups id p = do
  refuse_if (contains p.seen id) (validation "The same option was selected more than once")
  o ← active_option (option_by_id id none groups)
  ok (record {
    selected = p.selected ++ selected_option o ∷ [];
    count_by_group = bump o.group_id p.count_by_group;
    seen = id ∷ p.seen;
  })

unfoldable pub pick_all : List OptionGroup → List Uuid → Picking → Outcome Picking
pick_all groups [] p = ok p
pick_all groups (id ∷ ids) p = do p' ← pick groups id p; pick_all groups ids p'

unfoldable pub plural : ℤ → String
plural n =
    if leb_ℤ n (pos 1) && leb_ℤ (pos 1) n then "1 option" else append_text (decimal n) " options"

-- The bounds on a group's count: `minimum`, and the two that may be absent.
unfoldable pub minimum : OptionGroup → ℤ
minimum g = if g.is_required && ltb_ℤ g.min_select (pos 1) then pos 1 else g.min_select

abbrev pub is_single : SelectionType → Bool
is_single single = true
is_single multi = false

unfoldable pub check_max : OptionGroup → ℤ → Option ℤ → Outcome (Unit {0})
check_max g count none = ok tt
check_max g count (some most) =
    refuse_if (ltb_ℤ most count)
      (validation (append_text g.name (append_text ": choose at most " (plural most))))
    >> ok tt

unfoldable pub check_group : OptionGroup → ℕ → Outcome (Unit {0})
unfolding minimum check_max
check_group g count = do
  refuse_if (ltb_ℤ (wrap32 (pos count)) (minimum g))
      (validation (append_text g.name (append_text ": choose at least " (plural (minimum g)))))
  refuse_if (is_single g.selection_type && ltb 1 count)
      (validation (append_text g.name ": choose only one option"))
  check_max g (wrap32 (pos count)) g.max_select

unfoldable pub check_group_rules : List OptionGroup → (Uuid → ℕ) → Outcome (Unit {0})
check_group_rules [] counts = ok tt
check_group_rules (g ∷ gs) counts = check_group g (counts g.id) >> check_group_rules gs counts

-- `price += option.PriceDeltaCents`, on `int32`; the duration likewise.
unfoldable pub total_of : (SelectedOption → ℤ) → ℤ → List SelectedOption → ℤ
total_of delta sum [] = sum
total_of delta sum (o ∷ os) = total_of delta (wrap32 (sum +ℤ delta o)) os

abbrev pub by_name : SelectedOption → SelectedOption → Bool
by_name o p = text_le o.name p.name

abbrev pub nothing_picked : Picking
nothing_picked = record { selected = []; count_by_group = λ g. 0; seen = [] }

-- What is left to do when the selection is known.
unfoldable pub priced : Service → List SelectedOption → Outcome Quote
unfolding total_of
priced service selected = do
  let price = total_of (λ o. o.price_delta_cents) service.price_cents selected
  let duration = total_of (λ o. o.duration_delta_minutes) service.duration_minutes selected
  refuse_if (ltb_ℤ price (pos 0))
      (validation "That combination of options is not purchasable; please contact the provider")
  refuse_if (leb_ℤ duration (pos 0))
      (validation "That combination of options leaves no time to perform the service")
  ok (record {
    price_cents = price;
    duration_minutes = duration;
    currency = service.currency;
    options = sort_by by_name selected;
  })

unfoldable pub build_quote : Service → List OptionGroup → List Uuid → Outcome Quote
unfolding pick_all check_group_rules priced
build_quote service groups chosen = do
  p ← pick_all groups chosen nothing_picked
  check_group_rules groups p.count_by_group
  priced service p.selected
