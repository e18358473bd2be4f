-- ===== src/Ordering/Repository.antt =====
-- `BatchRepository` of internal/ordering/infrastructure/postgres/batch_repository.go over its tables.
-- `time.Now()` and `NOW()` are arguments. A map is walked in the order of its entries. A query hands
-- out all its rows or fails.
pub mod Store
pub mod Update
pub mod Refine
pub mod Save
pub mod Rows
pub mod Eta
pub mod Working
mod Tests
use florist_core.Prelude.{
  ℕ, zero, suc, Bool, String, Option, none, some, List, [], ◌∷◌, ◌++◌, map, append, ◌==◌, ◌&&◌, not,
  ◌||◌, str_eq, if◌then◌else◌,
}
use florist_core.Prelude.Map.{Map, lookup, insert}
use florist_core.Prelude.Int.{ℤ, pos, ◌+ℤ◌, eq_ℤ, ltb_ℤ}
use florist_core.Kernel.Errors.{Error, Result, ok, err, wrapped, no_rows, ordering_optimistic_lock}
use florist_core.Kernel.Types.{BatchId, OrderId, Time}
use florist_core.Ordering.Allocation.{Batch, reconstruct_batch}
use florist_core.Ordering.BatchTables.{
  BatchRow, BatchAllocationRow, Tables, new_row_of, insert_batch, insert_allocation, update_rows,
  update_batch, without, delete_allocations, find_row, allocations_of, where_sku, eta_before,
  before, insert_by_eta, sort_by_eta, contains, allocations_of_any,
}
use florist_core.Db.{
  Session, Action, Statement, pure, raise, ◌>>=◌, ◌>>◌, wrap_error, pool_exec, tx_exec, with_tx,
}

-- The loop of `rowToDomain`: a later row of one order overwrites an earlier one.
unfoldable pub allocs_into : Map ℤ → List BatchAllocationRow → Map ℤ
allocs_into m [] = m
allocs_into m (a ∷ others) = allocs_into (insert a.order_id a.qty m) others

unfoldable pub row_to_domain : BatchRow → List BatchAllocationRow → Batch
unfolding allocs_into reconstruct_batch
row_to_domain row allocs =
    reconstruct_batch row.id row.sku row.qty row.eta (some (allocs_into [] allocs)) row.version

abbrev pub or_empty : Option (List BatchAllocationRow) → List BatchAllocationRow
or_empty none = []
or_empty (some rows) = rows

-- `allocsByBatch[key]`, where a missing key reads as no rows
abbrev pub group_at : BatchId → Map (List BatchAllocationRow) → List BatchAllocationRow
group_at id groups = or_empty (lookup id groups)

-- The loop that groups the allocations.
unfoldable pub group_into :
    Map (List BatchAllocationRow) → List BatchAllocationRow → Map (List BatchAllocationRow)
group_into groups [] = groups
group_into groups (a ∷ others) =
    group_into (insert a.batch_id (append (group_at a.batch_id groups) a) groups) others

-- The last loop of `GetBySKU`.
abbrev pub to_domain : Map (List BatchAllocationRow) → List BatchRow → List Batch
to_domain groups rows = map (λ (row : BatchRow). row_to_domain row (group_at row.id groups)) rows

module _ {X : Type 0} where
  -- The loop of `saveAllocations`.
  unfoldable pub save_allocations : Time → BatchId → Map ℤ → Action Tables X (Unit {0})
  save_allocations now id [] = pure tt
  save_allocations now id ((order_id, qty) ∷ m) =
      wrap_error (wrapped "BatchRepository.saveAllocations") (
        tx_exec (
          insert_allocation
            (record { batch_id = id; order_id = order_id; qty = qty; created_at = now })))
      >> save_allocations now id m

  unfoldable pub save_tx : Time → Time → Batch → Action Tables X (Unit {0})
  unfolding save_allocations
  save_tx now then_now b =
      wrap_error (wrapped "BatchRepository.SaveTx insert batch") (tx_exec (insert_batch now b))
      >> save_allocations then_now b.id b.allocations

  abbrev pub save_body : Time → Time → Batch → Action Tables X (Unit {0})
  save_body now then_now b =
      wrap_error (wrapped "BatchRepository.Save insert batch") (tx_exec (insert_batch now b))
      >> save_allocations then_now b.id b.allocations

  unfoldable pub save : Time → Time → Batch → Action Tables X (Unit {0})
  unfolding save_allocations
  save now then_now b = with_tx (wrapped "BatchRepository.Save begin tx") (save_body now then_now b)

  -- `if tag.RowsAffected() == 0`
  abbrev pub lock_check : ℕ → Action Tables X (Unit {0})
  lock_check n =
      if n == 0
      then raise (wrapped "BatchRepository.UpdateTx" ordering_optimistic_lock)
      else pure tt

  unfoldable pub update_tx : Time → Time → Batch → Action Tables X (Unit {0})
  unfolding save_allocations
  update_tx now then_now b = do
    n ← wrap_error (wrapped "BatchRepository.UpdateTx") (tx_exec (update_batch now b))
    lock_check n
    wrap_error (wrapped "BatchRepository.UpdateTx delete allocations")
        (tx_exec (delete_allocations b.id))
    save_allocations then_now b.id b.allocations

  unfoldable pub update : Time → Time → Batch → Action Tables X (Unit {0})
  unfolding update_tx
  update now then_now b =
      with_tx (wrapped "BatchRepository.Update begin tx") (update_tx now then_now b)

  -- `RunTx`
  abbrev pub run_tx : Action Tables X (Unit {0}) → Action Tables X (Unit {0})
  run_tx fn = with_tx (wrapped "BatchRepository.RunTx") fn

  abbrev pub found : Option BatchRow → Action Tables X BatchRow
  found none = raise no_rows
  found (some r) = pure r

  unfoldable pub get_by_id : BatchId → Action Tables X Batch
  unfolding find_row allocations_of row_to_domain
  get_by_id id = do
    row ←
        wrap_error (wrapped "BatchRepository.GetByID")
          (pool_exec (λ t. some (find_row id t.batches, t)) >>= found)
    allocs ←
        wrap_error (wrapped "BatchRepository.GetByID allocations")
          (pool_exec (λ t. some (allocations_of id t.allocations, t)))
    pure (row_to_domain row allocs)

  unfoldable pub with_allocations : List BatchRow → Action Tables X (List Batch)
  unfolding allocations_of_any group_into row_to_domain
  with_allocations [] = pure []
  with_allocations (row ∷ rows) = do
    allocs ←
        wrap_error (wrapped "BatchRepository.GetBySKU allocations")
          (pool_exec (λ t. some (allocations_of_any (row ∷ rows) t.allocations, t)))
    pure (to_domain (group_into [] allocs) (row ∷ rows))

  unfoldable pub get_by_sku : String → Action Tables X (List Batch)
  unfolding where_sku sort_by_eta with_allocations
  get_by_sku sku = do
    rows ←
        wrap_error (wrapped "BatchRepository.GetBySKU")
          (pool_exec (λ t. some (sort_by_eta (where_sku sku t.batches), t)))
    with_allocations rows
