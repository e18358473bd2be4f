-- ===== src/Ordering/Allocation.antt =====
-- The batch of internal/ordering/domain/batch.go, which allocates its quantity to orders. Identifiers
-- are the sixteen bytes of a `kernel.ID`, read as a number.
pub mod Stock
pub mod Calls
mod Tests
use florist_core.Prelude.{Bool, String, Option, none, some, List, [], ◌∷◌, if◌then◌else◌}
use florist_core.Prelude.Map.{Map, lookup, insert, erase}
use florist_core.Prelude.Int.{ℤ, pos, ◌+ℤ◌, ◌-ℤ◌, leb_ℤ, wrap64}
use florist_core.Kernel.Errors.{Error, insufficient_qty, order_not_allocated}
use florist_core.Kernel.Types.{BatchId, OrderId, Time}

pub record Batch : Type 0 where
  pub id : BatchId
  pub sku : String
  pub qty : ℤ
  pub eta : Option Time
  pub allocations : Map ℤ
  pub version : ℤ

pub new_batch : BatchId → String → ℤ → Option Time → Batch
new_batch id sku qty eta = record {
  id = id;
  sku = sku;
  qty = qty;
  eta = eta;
  allocations = [];
  version = pos 0;
}

-- `ReconstructBatch`: a `nil` map becomes an empty one.
unfoldable pub reconstruct_batch : BatchId → String → ℤ → Option Time → Option (Map ℤ) → ℤ → Batch
reconstruct_batch id sku qty eta allocations version = record {
  id = id;
  sku = sku;
  qty = qty;
  eta = eta;
  allocations = elim allocations [ none ↦ [] | some m ↦ m ];
  version = version;
}

-- The loop of `AvailableQty`.
pub allocated_from : ℤ → Map ℤ → ℤ
allocated_from acc [] = acc
allocated_from acc ((_, qty) ∷ m) = allocated_from (wrap64 (acc +ℤ qty)) m

pub available_qty : Batch → ℤ
available_qty b = wrap64 (b.qty -ℤ allocated_from (pos 0) b.allocations)

pub can_allocate : ℤ → Batch → Bool
can_allocate qty b = leb_ℤ qty (available_qty b)

pub allocate : OrderId → ℤ → Batch → Batch × Option Error
unfolding can_allocate
allocate order_id qty b =
    if can_allocate qty b
    then (record b { allocations = insert order_id qty b.allocations }, none)
    else (b, some insufficient_qty)

pub deallocate : OrderId → Batch → Batch × Option Error
deallocate order_id b = elim (lookup order_id b.allocations) [
  | none ↦ (b, some order_not_allocated)
  | some _ ↦ (record b { allocations = erase order_id b.allocations }, none)
]
