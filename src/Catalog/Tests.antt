-- ===== src/Catalog/Tests.antt =====
-- Quotes for a concrete service.
use nearby_backend.Prelude.{◌≡◌, refl, true, some, [], ◌∷◌, arith, contains}
use nearby_backend.Prelude.Int.{pos, negsuc, wrap32, ◌+ℤ◌}
use nearby_backend.Prelude.Sort.{sort_by}
use nearby_backend.Platform.Database.{ok}
use nearby_backend.Catalog.Models.{single, ServiceOption, OptionGroup, Service, Quote}
use nearby_backend.Catalog.Pricing.{pick, check_group, build_quote}
use nearby_backend.Catalog.Pricing.Totals.{IsFair, build_quote-IsFair}

abbrev pub wash : Service
wash = record {
  id = 1;
  provider_id = 5;
  category_id = 2;
  name = "Wash";
  price_cents = pos 2000;
  currency = "ETB";
  duration_minutes = pos 30;
  buffer_minutes = pos 10;
  is_active = true;
}

abbrev wax : ServiceOption
wax = record {
  id = 11;
  group_id = 10;
  name = "Wax";
  price_delta_cents = negsuc 99;
  duration_delta_minutes = pos 15;
  is_active = true;
}

abbrev finishes : OptionGroup
finishes = record {
  id = 10;
  service_id = 1;
  name = "Finish";
  selection_type = single;
  is_required = true;
  min_select = pos 0;
  max_select = some (pos 1);
  options = wax ∷ [];
}

abbrev pub waxed : Quote
waxed = record {
  price_cents = pos 1900;
  duration_minutes = pos 45;
  currency = "ETB";
  options =
      record {
        option_id = 11;
        group_id = 10;
        name = "Wax";
        price_delta_cents = negsuc 99;
        duration_delta_minutes = pos 15;
      }
      ∷ [];
}

waxed_runs : build_quote wash (finishes ∷ []) (11 ∷ []) ≡ ok waxed
unfolding build_quote pick contains check_group wrap32 ◌+ℤ◌ sort_by
waxed_runs = refl

build_quote-IsFair_example : IsFair wash (finishes ∷ []) (11 ∷ []) waxed
build_quote-IsFair_example =
    build_quote-IsFair wash (finishes ∷ []) (11 ∷ []) waxed (omega arith, omega arith)
      (omega arith, omega arith) (omega arith) waxed_runs
