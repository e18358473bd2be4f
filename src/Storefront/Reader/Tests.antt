-- ===== src/Storefront/Reader/Tests.antt =====
-- The catalogue over three rows.
use florist_core.Prelude.{
  ◌≡◌, refl, false, Bool, ◌||◌, String, none, some, [], ◌∷◌, map, str_eq, if◌then◌else◌,
}
use florist_core.Prelude.Int.{pos, leb_ℤ}
use florist_core.Kernel.Errors.{ok, err, driver, wrapped}
use florist_core.Kernel.Types.{Uuid, Time}
use florist_core.Inventory.Batch.{fresh}
use florist_core.Inventory.Repository.{BatchRow, Tables}
use florist_core.Storefront.Reader.{CatalogTable, catalog_row, find_all_available}
use florist_core.Db.{Session, pool_exec}

abbrev first_day : Time → Bool
first_day t = leb_ℤ t (pos 9)

-- Two days, of which the first ends at 9.
abbrev to_char : Time → String
to_char t = if first_day t then "2026-05-01" else "2026-05-02"

abbrev leb_text : String → String → Bool
leb_text a b = str_eq a "2026-05-01" || str_eq b "2026-05-02"

-- The table with the columns that the queries name.
abbrev two_days : CatalogTable
two_days = record {
  to_char = to_char;
  leb_text = leb_text;
  price_columns = some (λ r. (r.purchase_price, r.currency));
}

-- The table that the migrations make.
abbrev migrated : CatalogTable
migrated = record two_days { price_columns = none }

abbrev row : Uuid → Time → BatchRow
row id expires_at = record {
  id = id;
  store_id = 2;
  ingredient_id = 3;
  received_qty = pos 10;
  remaining_qty = pos 4;
  purchase_price = pos 50;
  currency = "RUB";
  received_at = pos 0;
  expires_at = expires_at;
  freshness = fresh;
  written_off = false;
  write_off_reason = none;
  version = pos 1;
}

abbrev text_of_id : Uuid → String
text_of_id _ = "u"

abbrev session : Session Tables (Unit {0})
session =
    let t : Tables = record {
      batches = row 1 (pos 20) ∷ row 2 (pos 8) ∷ row 3 (pos 5) ∷ [];
      outbox = [];
    } in
    record { committed = t; working = t; outside = tt; replies = [] }

-- The first to expire does not come first within its day.
same_day :
    (find_all_available two_days text_of_id 2 session).0
    ≡ ok (
        map
          (catalog_row two_days text_of_id (λ r. (r.purchase_price, r.currency)))
          (row 2 (pos 8) ∷ row 3 (pos 5) ∷ row 1 (pos 20) ∷ []))
unfolding find_all_available pool_exec
same_day = refl

lost :
    (find_all_available two_days text_of_id 2 (record session { replies = false ∷ [] })).0
    ≡ err (wrapped "catalog query" driver)
unfolding find_all_available pool_exec
lost = refl

no_such_column :
    (find_all_available migrated text_of_id 2 session).0 ≡ err (wrapped "catalog query" driver)
unfolding find_all_available pool_exec
no_such_column = refl
