-- ===== src/Inventory/Repository/Tests.antt =====
-- Two clients and one batch.
use florist_core.Prelude.{◌≡◌, ◌≢◌, ◌++◌, refl, false, none, List, [], ◌∷◌, map, All, arith}
use mathlib.Core.List.{Perm}
use florist_core.Prelude.Int.{pos, ◌+ℤ◌}
use florist_core.Kernel.Errors.{ok, err, driver, wrapped, inventory_optimistic_lock}
use florist_core.Inventory.Batch.{Batch, fresh, aging}
use florist_core.Inventory.Repository.{
  BatchRow, Tables, row_to_batch, find_row, save, find_by_id, find_active, find_by_store,
  save_statement, upsert, where_rows, find_available_by_ingredient, sort_by_expiry,
}
use florist_core.Inventory.Repository.Fields.{IsWithin}
use florist_core.Inventory.Repository.ReadBack.{SameBirth, IsReadBack}
use florist_core.Inventory.Repository.Save.{second_save_refused}
use florist_core.Inventory.Repository.Find.{IsByExpiry, IsOnOffer, find-save, find_available_fefo}
use florist_core.Db.{Session, pool_exec}

abbrev row : BatchRow
row = record {
  id = 1;
  store_id = 2;
  ingredient_id = 3;
  received_qty = pos 10;
  remaining_qty = pos 10;
  purchase_price = pos 50;
  currency = "RUB";
  received_at = pos 0;
  expires_at = pos 1000;
  freshness = fresh;
  written_off = false;
  write_off_reason = none;
  version = pos 1;
}

abbrev sooner : BatchRow
sooner = record row { id = 4; expires_at = pos 500 }

abbrev session : Session Tables (Unit {0})
session = record {
  committed = record { batches = row ∷ sooner ∷ []; outbox = [] };
  working = record { batches = row ∷ sooner ∷ []; outbox = [] };
  outside = tt;
  replies = [];
}

-- The batch as the first client has changed it, and as the second one has.
abbrev mine : Batch
mine = record (row_to_batch row) { remaining_qty = pos 7 }

abbrev yours : Batch
yours = record (row_to_batch row) { freshness = aging }

yours-IsWithin : IsWithin yours
unfolding row_to_batch ◌+ℤ◌
yours-IsWithin = (
  ground arith,
  ground arith,
  ground arith,
  ground arith,
  ground arith,
  ground arith,
  ground arith,
)

row_there : find_row mine.id (row ∷ sooner ∷ []) ≢ none
unfolding find_row row_to_batch
row_there = ground arith

same_version : yours.version ≡ mine.version
unfolding row_to_batch
same_version = refl

same_id : yours.id ≡ mine.id
unfolding row_to_batch
same_id = refl

mine_saved : (save mine session).0 ≡ ok tt
unfolding save pool_exec save_statement upsert row_to_batch ◌+ℤ◌
mine_saved = refl

mine_born : SameBirth mine (find_row mine.id (row ∷ sooner ∷ []))
unfolding find_row row_to_batch
mine_born = (refl, refl, refl, refl, refl, refl, refl, refl)

lost :
    (save mine (record session { replies = false ∷ [] })).0
    ≡ err (wrapped "BatchRepository.Save" driver)
unfolding save pool_exec
lost = refl

found_active : (find_active session).0 ≡ (ok (row_to_batch row ∷ row_to_batch sooner ∷ []))
unfolding find_active pool_exec where_rows
found_active = refl

found_in_store : (find_by_store 2 session).0 ≡ (ok (row_to_batch sooner ∷ row_to_batch row ∷ []))
unfolding find_by_store pool_exec where_rows sort_by_expiry
found_in_store = refl

second_save_refused_example :
    (save yours (save mine session).1).0
    ≡ err (wrapped "BatchRepository.Save" inventory_optimistic_lock)
second_save_refused_example =
    second_save_refused mine yours session refl refl yours-IsWithin same_id same_version row_there
      mine_saved

find-save_example :
    (got : Batch) × ((find_by_id mine.id (save mine session).1).0 ≡ ok got) × IsReadBack mine got
find-save_example = find-save mine session refl refl mine_born mine_saved

find_available_fefo_example :
    (rows : List BatchRow) × (others : List BatchRow) × ((find_available_by_ingredient 2 3
        session).0
      ≡ ok (map row_to_batch rows))
    × IsByExpiry rows
    × All (IsOnOffer 2 3) rows
    × Perm (rows ++ others) (row ∷ sooner ∷ [])
    × All (λ r. ¬ IsOnOffer 2 3 r) others
find_available_fefo_example = find_available_fefo 2 3 session refl
