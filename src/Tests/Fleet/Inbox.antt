-- ===== src/Tests/Fleet/Inbox.antt =====
-- The inbox lists, and the reads of one application and one target.
use mathlib.Core.List.{Perm}
use keleustes.Base.{◌++◌, ◌≡◌, refl, none, some, str, ◌==◌, ◌<?◌, List, [], ◌∷◌, map, sort_by}
use keleustes.Base.Result.{ok}
use keleustes.Api.Wire
use keleustes.Api.Wire.{blocked, progressing, MatrixRow}
use keleustes.Api.Port.{ApplicationsPage}
use keleustes.Api.CrdSource.Mapping.{application_to_api, promotion_to_api, contains}
use keleustes.Api.CrdSource.Matrix.{target_less}
use keleustes.Api.CrdSource.Reads.{list_promotions, list_applications, get_application, get_matrix}
use keleustes.Api.CrdSource.Phases.{list_promotions_partition}
use keleustes.Api.CrdSource.Lookups.{no_filter}
use keleustes.Tests.Fleet.{shop, two_promotions, find_condition, fleet}

abbrev inbox : List Wire.Promotion
inbox = map promotion_to_api two_promotions

all_listed : list_promotions fleet [] ≡ ok inbox
unfolding list_promotions ◌==◌
all_listed = refl

list_promotions_partition_example :
    (active stopped history : List Wire.Promotion) × (list_promotions fleet (str "active")
      ≡ ok active)
    × (list_promotions fleet (str "blocked") ≡ ok stopped)
    × (list_promotions fleet (str "history") ≡ ok history)
    × Perm (stopped ++ (history ++ active)) inbox
list_promotions_partition_example = list_promotions_partition fleet inbox all_listed

abbrev shop_view : Wire.Application
shop_view = application_to_api find_condition shop

shop_got : get_application fleet (str "shop") ≡ ok shop_view
unfolding get_application ◌==◌
shop_got = refl

abbrev shop_page : ApplicationsPage
shop_page = record { items = shop_view ∷ []; as_of = 11 }

shop_listed : list_applications fleet no_filter ≡ ok shop_page
unfolding list_applications ◌==◌
shop_listed = refl

abbrev pub shop_matrix : Wire.Matrix
shop_matrix = record {
  as_of = 11;
  columns =
      record { env = some (str "prod"); region = some (str "east") }
      ∷ record { env = some (str "prod"); region = some (str "west") }
      ∷ [];
  rows =
      record {
        application = str "shop";
        cells =
            record {
              drift = none;
              env = some (str "prod");
              region = some (str "east");
              status = blocked;
            }
            ∷ record {
              drift = none;
              env = some (str "prod");
              region = some (str "west");
              status = blocked;
            }
            ∷ [];
        ulid = none;
      }
      ∷ [];
}

pub matrix_got : get_matrix fleet (str "shop") ≡ ok shop_matrix
unfolding get_matrix ◌==◌ sort_by target_less ◌<?◌ contains
matrix_got = refl

abbrev shop_row : MatrixRow
shop_row = record {
  application = str "shop";
  cells =
      record { drift = none; env = some (str "prod"); region = some (str "east"); status = blocked }
      ∷ record {
        drift = none;
        env = some (str "prod");
        region = some (str "west");
        status = blocked;
      }
      ∷ [];
  ulid = none;
}
