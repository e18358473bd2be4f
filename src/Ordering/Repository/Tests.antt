-- ===== src/Ordering/Repository/Tests.antt =====
-- The repository of the ordering batches over two rows.
use florist_core.Prelude.{◌≡◌, refl, none, some, [], ◌∷◌, true, false}
use florist_core.Prelude.Int.{pos}
use florist_core.Kernel.Errors.{ok, err, wrapped, no_rows}
use florist_core.Ordering.Allocation.{Batch}
use florist_core.Ordering.BatchTables.{BatchRow, Tables}
use florist_core.Ordering.Repository.{update, get_by_id}
use florist_core.Ordering.Repository.Refine.{IsUpdated, update_refines}
use florist_core.Ordering.Repository.Working.{IsEachFetched, get_by_sku_each}
use florist_core.Db.{Session, pool_exec}

abbrev roses : BatchRow
roses = record {
  id = 1;
  sku = "ROSE";
  qty = pos 20;
  eta = some (pos 500);
  version = pos 3;
  created_at = pos 10;
  updated_at = pos 10;
}

-- A batch in stock, which comes after all that have a date.
abbrev in_stock : BatchRow
in_stock = record roses { id = 2; eta = none; version = pos 0 }

abbrev tables : Tables
tables = record {
  batches = in_stock ∷ roses ∷ [];
  allocations =
      record { batch_id = 1; order_id = 70; qty = pos 4; created_at = pos 11 }
      ∷ record { batch_id = 2; order_id = 71; qty = pos 5; created_at = pos 12 }
      ∷ [];
}

abbrev session : Session Tables (Unit {0})
session = record { committed = tables; working = tables; outside = tt; replies = [] }

-- The fourth statement, an insertion of an allocation, fails.
abbrev failing : Session Tables (Unit {0})
failing = record session { replies = true ∷ true ∷ true ∷ false ∷ [] }

-- The batch of the roses as it was read, with one order more.
abbrev allocated : Batch
allocated = record {
  id = 1;
  sku = "ROSE";
  qty = pos 20;
  eta = some (pos 500);
  allocations = (70, pos 4) ∷ (72, pos 6) ∷ [];
  version = pos 3;
}

abbrev tulips : Batch
tulips = record {
  id = 9;
  sku = "TULIP";
  qty = pos 7;
  eta = none;
  allocations = (73, pos 1) ∷ [];
  version = pos 0;
}

stored : (get_by_id 1 session).0 ≡ ok (record allocated { allocations = (70, pos 4) ∷ [] })
unfolding get_by_id pool_exec
stored = refl

missing : (get_by_id 8 session).0 ≡ err (wrapped "BatchRepository.GetByID" no_rows)
unfolding get_by_id pool_exec
missing = refl

update_refines_example : IsUpdated allocated tables (update (pos 20) (pos 21) allocated failing)
update_refines_example =
    update_refines (pos 20) (pos 21) allocated failing refl (refl, (refl, tt)) (refl, (refl, tt))

get_by_sku_each_example : IsEachFetched "ROSE" session
get_by_sku_each_example = get_by_sku_each "ROSE" session refl refl (refl, (refl, tt))
