-- ===== src/Inventory/Recalc/Tests.antt =====
-- A batch that expires at hour 100, seen an hour before.
use florist_core.Prelude.{ℕ, ◌≡◌, ◌≤◌, ◌+◌, ◌*◌, refl, none, [], ◌∷◌, false}
use florist_core.Prelude.Int.{pos, ◌-ℤ◌}
use florist_core.Kernel.Types.{Time, hour}
use florist_core.Inventory.Batch.{Batch, new_batch, fresh, aging, expired, mark_aging}
use florist_core.Inventory.Batch.Ageing.{rank}
use florist_core.Inventory.Recalc.{recalc_one, recalc_one-rank, called_for, worse}
use florist_core.Inventory.Repository.{BatchRow, Tables}
use florist_core.Db.{Session}

abbrev at : ℕ → Time
at h = pos (h * hour)

abbrev ten : Batch
ten = new_batch 1 (at 0) 2 3 (pos 10) (record { amount = pos 50; currency = "RUB" }) (at 0) (at 100)

once : (recalc_one (at 99) ten).0.freshness ≡ aging
unfolding recalc_one new_batch mark_aging ◌-ℤ◌
once = refl

recalc_one-rank_example :
    let called = rank (called_for (at 99) ten) in
    let after_one = (recalc_one (at 99) ten).0 in
    let reached = worse (rank ten.freshness) called in
    (rank after_one.freshness ≤ reached)
    × (reached ≤ rank after_one.freshness + 1)
    × (rank (recalc_one (at 99) after_one).0.freshness ≡ reached)
recalc_one-rank_example = recalc_one-rank (at 99) ten

abbrev row : BatchRow
row = record {
  id = 1;
  store_id = 2;
  ingredient_id = 3;
  received_qty = pos 10;
  remaining_qty = pos 6;
  purchase_price = pos 50;
  currency = "RUB";
  received_at = at 0;
  expires_at = at 100;
  freshness = fresh;
  written_off = false;
  write_off_reason = none;
  version = pos 4;
}

-- A fresh batch, one that has expired unnoticed, and one that is known to have expired.
abbrev session : Session Tables (Unit {0})
session =
    let tables : Tables = record {
      batches =
          row
          ∷ record row { id = 2; expires_at = at 90 }
          ∷ record row { id = 3; freshness = expired }
          ∷ [];
      outbox = [];
    } in
    record { committed = tables; working = tables; outside = tt; replies = [] }
