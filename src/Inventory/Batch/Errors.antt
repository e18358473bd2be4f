-- ===== src/Inventory/Batch/Errors.antt =====
-- What a refused call of a batch does, and which calls are refused.
use florist_core.Prelude.{◌≡◌, ◌≢◌, ◌↔◌, some, none, arith}
use florist_core.Prelude.Int.{ℤ, ◌≤ℤ◌, ◌<ℤ◌}
use florist_core.Kernel.Errors.{Error, batch_expired, insufficient_batch}
use florist_core.Kernel.Types.{Time}
use florist_core.Inventory.Batch.{Batch, expired, consume}
use florist_core.Inventory.Batch.Ops.{Op, apply}

-- A call that returns an error has changed nothing of the batch, its events included.
pub apply_error_unchanged :
    (op : Op) (b : Batch) {e : Error} → (apply op b).1 ≡ some e → (apply op b).0 ≡ b
unfolding apply
apply_error_unchanged op b h = ground arith

-- `Consume` is refused with `ErrBatchExpired` exactly on an expired batch, with
-- `ErrInsufficientBatch` exactly where a batch that is not expired holds less than is asked for, and
-- succeeds exactly in all other cases.
pub consume_answers :
    (now : Time) (qty : ℤ) (b : Batch)
    → (((consume now qty b).1 ≡ some batch_expired) ↔ (b.freshness ≡ expired))
      × (((consume now qty b).1 ≡ some insufficient_batch)
          ↔ ((b.freshness ≢ expired) × (b.remaining_qty <ℤ qty)))
      × (((consume now qty b).1 ≡ none) ↔ ((b.freshness ≢ expired) × (qty ≤ℤ b.remaining_qty)))
unfolding consume
consume_answers now qty b = ground arith
