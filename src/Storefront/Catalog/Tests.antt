-- ===== src/Storefront/Catalog/Tests.antt =====
-- A catalogue of one row.
use florist_core.Prelude.{◌≡◌, refl, [], ◌∷◌}
use florist_core.Prelude.Int.{pos}
use florist_core.Kernel.Errors.{ok, err, driver}
use florist_core.Storefront.Catalog.{BatchCatalogRow, BatchCatalogReader, catalog_item, get_catalog}

abbrev roses : BatchCatalogRow
roses = record {
  batch_id = "1";
  ingredient_id = "3";
  store_id = "2";
  remaining_qty = pos 7;
  freshness = "fresh";
  expires_at = "tomorrow";
  price_copecks = pos 500;
  currency = "RUB";
}

-- Only the query without an ingredient works.
abbrev reader : BatchCatalogReader
reader = record {
  find_available_by_ingredient = λ _ _. err driver;
  find_all_available = λ _. ok (roses ∷ []);
}

all_listed :
    get_catalog reader (record { store_id = "2"; ingredient_id = "" })
    ≡ ok (catalog_item roses ∷ [])
unfolding get_catalog
all_listed = refl

filtered : get_catalog reader (record { store_id = "2"; ingredient_id = "3" }) ≡ err driver
unfolding get_catalog
filtered = refl
