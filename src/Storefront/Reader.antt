-- ===== src/Storefront/Reader.antt =====
-- internal/storefront/infrastructure/postgres/catalog_reader.go over the table of the inventory. The text of
-- a UUID, `to_char(…, 'YYYY-MM-DD')` and the order of texts are the database's. `ORDER BY expires_at` names
-- the column of the answer, which is the text, before that of the table. A query hands out all its rows or
-- fails.
-- The queries select purchase_price_copecks and purchase_price_currency, which no migration makes: what these columns
-- hold is an argument, and without them, as on the migrated table, both queries fail.
mod Tests
use florist_core.Prelude.{
  Bool, true, not, String, Option, none, some, List, [], ◌∷◌, map, ◌==◌, ◌&&◌, if◌then◌else◌,
}
use florist_core.Prelude.Int.{ℤ}
use florist_core.Kernel.Errors.{wrapped}
use florist_core.Kernel.Types.{Uuid, StoreId, IngredientId, Time}
use florist_core.Inventory.Batch.{Freshness, fresh, aging, critical, expired}
use florist_core.Inventory.Repository.{BatchRow, Tables, where_rows, is_active, is_available}
use florist_core.Storefront.Catalog.{BatchCatalogRow}
use florist_core.Db.{Action, pool_exec, wrap_error}

-- How the database writes a date and compares texts, and the price columns of a row, where the table has them.
pub record CatalogTable : Type 0 where
  pub to_char : Time → String
  pub leb_text : String → String → Bool
  pub price_columns : Option (BatchRow → ℤ × String)

abbrev freshness_text : Freshness → String
freshness_text fresh = "fresh"
freshness_text aging = "aging"
freshness_text critical = "critical"
freshness_text expired = "expired"

abbrev pub is_listed : StoreId → BatchRow → Bool
is_listed store_id r = r.store_id == store_id && not r.written_off && is_active r

module _ (dt : CatalogTable) where
  abbrev pub date_of : BatchRow → String
  date_of r = dt.to_char r.expires_at

  unfoldable pub insert_by_date : BatchRow → List BatchRow → List BatchRow
  insert_by_date r [] = r ∷ []
  insert_by_date r (x ∷ xs) =
      if dt.leb_text (date_of r) (date_of x) then r ∷ x ∷ xs else x ∷ insert_by_date r xs

  unfoldable pub sort_by_date : List BatchRow → List BatchRow
  unfolding insert_by_date
  sort_by_date [] = []
  sort_by_date (r ∷ rows) = insert_by_date r (sort_by_date rows)

  module _ (text_of_id : Uuid → String) where
    -- The columns of a row, as `scanRows` reads them.
    abbrev pub catalog_row : (BatchRow → ℤ × String) → BatchRow → BatchCatalogRow
    catalog_row price_of r = record {
      batch_id = text_of_id r.id;
      ingredient_id = text_of_id r.ingredient_id;
      store_id = text_of_id r.store_id;
      remaining_qty = r.remaining_qty;
      freshness = freshness_text r.freshness;
      expires_at = date_of r;
      price_copecks = (price_of r).0;
      currency = (price_of r).1;
    }

    -- `Query` with the loop of `scanRows`.
    abbrev query_rows :
        Option (BatchRow → ℤ × String)
        → List BatchRow
        → Tables
        → Option (List BatchCatalogRow × Tables)
    query_rows none rows t = none
    query_rows (some price_of) rows t = some (map (catalog_row price_of) rows, t)

    abbrev pub scan_rows : {X : Type 0} → (BatchRow → Bool) → Action Tables X (List BatchCatalogRow)
    scan_rows test =
        wrap_error (wrapped "catalog query") (
          pool_exec (λ t. query_rows dt.price_columns (sort_by_date (where_rows test t.batches)) t))

    unfoldable pub find_all_available :
        {X : Type 0} → StoreId → Action Tables X (List BatchCatalogRow)
    unfolding where_rows sort_by_date
    find_all_available store_id = scan_rows (is_listed store_id)

    unfoldable pub find_available_by_ingredient :
        {X : Type 0} → StoreId → IngredientId → Action Tables X (List BatchCatalogRow)
    unfolding where_rows sort_by_date
    find_available_by_ingredient store_id ingredient_id =
        scan_rows (is_available store_id ingredient_id)
