-- ===== src/Catalog/Models.antt =====
-- The values of the catalog (internal/catalog/models.go and the types of pricing.go). Amounts are
-- `int32` in the source and integers here; arithmetic on them is wrapped where it is done.
use nearby_backend.Prelude.{ℕ, String, Bool, Option, List}
use nearby_backend.Prelude.Int.{ℤ}

abbrev pub Uuid : Type 0
Uuid = ℕ

pub data SelectionType : Type 0 where
  single multi : SelectionType

-- `Option` in the source.
pub record ServiceOption : Type 0 where
  pub id : Uuid
  pub group_id : Uuid
  pub name : String
  pub price_delta_cents : ℤ
  pub duration_delta_minutes : ℤ
  pub is_active : Bool

pub record OptionGroup : Type 0 where
  pub id : Uuid
  pub service_id : Uuid
  pub name : String
  pub selection_type : SelectionType
  pub is_required : Bool
  pub min_select : ℤ
  pub max_select : Option ℤ
  pub options : List ServiceOption

-- The fields of `Service` that pricing, scheduling and booking read.
pub record Service : Type 0 where
  pub id : Uuid
  pub provider_id : Uuid
  pub category_id : Uuid
  pub name : String
  pub price_cents : ℤ
  pub currency : String
  pub duration_minutes : ℤ
  pub buffer_minutes : ℤ
  pub is_active : Bool

pub record ServiceWithProvider : Type 0 where
  pub service : Service
  pub open service use *
  pub provider_status : String
  pub booking_mode : String
  pub timezone : String
  pub min_lead_minutes : ℤ

pub record SelectedOption : Type 0 where
  pub option_id : Uuid
  pub group_id : Uuid
  pub name : String
  pub price_delta_cents : ℤ
  pub duration_delta_minutes : ℤ

pub record Quote : Type 0 where
  pub price_cents : ℤ
  pub duration_minutes : ℤ
  pub currency : String
  pub options : List SelectedOption
