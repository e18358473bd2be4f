-- ===== src/Storefront/Catalog.antt =====
-- internal/storefront/application/catalog.go. The reader is an argument; `kernel.ID(cmd.StoreID)` keeps
-- the text.
mod Tests
use florist_core.Prelude.{String, List, map, str_eq, if◌then◌else◌}
use florist_core.Prelude.Int.{ℤ}
use florist_core.Kernel.Errors.{Result, ok, ◌>>=◌}

pub record CatalogItem : Type 0 where
  pub batch_id : String
  pub ingredient_id : String
  pub store_id : String
  pub remaining_qty : ℤ
  pub freshness : String
  pub expires_at : String
  pub price_copecks : ℤ
  pub currency : String

pub record BatchCatalogRow : Type 0 where
  pub batch_id : String
  pub ingredient_id : String
  pub store_id : String
  pub remaining_qty : ℤ
  pub freshness : String
  pub expires_at : String
  pub price_copecks : ℤ
  pub currency : String

pub record BatchCatalogReader : Type 0 where
  pub find_available_by_ingredient : String → String → Result (List BatchCatalogRow)
  pub find_all_available : String → Result (List BatchCatalogRow)

pub record GetCatalogCommand : Type 0 where
  pub store_id : String
  pub ingredient_id : String

-- The body of the loop.
abbrev pub catalog_item : BatchCatalogRow → CatalogItem
catalog_item r = record {
  batch_id = r.batch_id;
  ingredient_id = r.ingredient_id;
  store_id = r.store_id;
  remaining_qty = r.remaining_qty;
  freshness = r.freshness;
  expires_at = r.expires_at;
  price_copecks = r.price_copecks;
  currency = r.currency;
}

unfoldable pub get_catalog : BatchCatalogReader → GetCatalogCommand → Result (List CatalogItem)
get_catalog reader cmd = do
  rows ←
      if str_eq cmd.ingredient_id ""
      then reader.find_all_available cmd.store_id
      else reader.find_available_by_ingredient cmd.store_id cmd.ingredient_id
  ok (map catalog_item rows)
