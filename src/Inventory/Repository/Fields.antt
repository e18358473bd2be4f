-- ===== src/Inventory/Repository/Fields.antt =====
-- What the columns of inventory_batches make of the fields of a batch: times are cut down to whole microseconds, and
-- numbers and texts have their bounds.
use florist_core.Prelude.{◌≡◌, true, arith, ◌%◌, ◌≤◌, ◌^◌, ◌-◌}
use florist_core.Prelude.Int.{pos, negsuc, pos_part, neg_part, ◌+ℤ◌, ◌≤ℤ◌, ◌<ℤ◌}
use Prim.Native.String.{count}
use florist_core.Kernel.Types.{Time}
use florist_core.Inventory.Batch.{Batch}
use florist_core.Inventory.Repository.{is_storable, to_micros}

-- The last whole microsecond that is not after a time.
abbrev pub IsCutDown : Time → Time → Type 0
IsCutDown t cut =
    (cut ≤ℤ t) × (t <ℤ cut +ℤ pos 1000) × (pos_part cut % 1000 ≡ 0) × (neg_part cut % 1000 ≡ 0)

pub to_micros-IsCutDown : (t : Time) → IsCutDown t (to_micros t)
unfolding ◌+ℤ◌
to_micros-IsCutDown (pos n) = (ground arith, ground arith, ground arith, ground arith)
to_micros-IsCutDown (negsuc n) = (ground arith, ground arith, ground arith, ground arith)

-- A batch within the bounds of its columns, of which the quantities and the versions are 32 bits wide: received
-- with at least one item, holding none or more, with a version that can be counted up, and a currency of at
-- most three letters.
abbrev pub IsWithin : Batch → Type 0
IsWithin b =
    (pos 1 ≤ℤ b.received_qty)
    × (b.received_qty <ℤ pos (2 ^ 31))
    × (pos 0 ≤ℤ b.remaining_qty)
    × (b.remaining_qty <ℤ pos (2 ^ 31))
    × (negsuc (2 ^ 31 - 1) ≤ℤ b.version)
    × (b.version +ℤ pos 1 <ℤ pos (2 ^ 31))
    × (count b.purchase_price.currency ≤ 3)

pub is_storable-IsWithin : (b : Batch) → IsWithin b → is_storable b ≡ true
unfolding ◌+ℤ◌
is_storable-IsWithin b h = ground arith
