-- ===== src/Api/Dispatch/Tests.antt =====
-- The events of one batch, handed to the handler over a table with that batch.
use florist_core.Prelude.{
  ℕ, ◌+◌, ◌*◌, arith, ◌≡◌, refl, Bool, true, All, none, List, [], ◌∷◌, false,
}
use florist_core.Prelude.Int.{pos, ◌+ℤ◌}
use florist_core.Kernel.Money.{Money}
use florist_core.Kernel.Types.{BatchId, Time, hour}
use florist_core.Inventory.Batch.{new_batch, event_name, fresh}
use florist_core.Inventory.Batch.Ops.{Op, consume_op, mark_aging_op, writeoff_op, pop_op, published}
use florist_core.Inventory.Repository.{BatchRow, Tables, find_row}
use florist_core.Api.Dispatch.{Served, on_event, poll}
use florist_core.Api.Dispatch.Polling.{recalcs, looked, poll_refreshes}
use florist_core.Inventory.Recalc.Table.{IsStorable, map_row}
use florist_core.Inventory.Recalc.Run.{IsReady}
use florist_core.Outbox.Table.{OutboxRow, pending, ids}
use florist_core.Outbox.Worker.{
  World, is_eligible, eligible, insert_by_age, sort_by_age, take, mark, selected, claim, returning,
}
use florist_core.Outbox.Worker.Calls.{IsDone, length}
use florist_core.Api.Dispatch.Routes.{calls_for_recalc, IsDispatched, published-IsDispatched}
use florist_core.Db.{Session}

abbrev row : BatchRow
row = record {
  id = 1;
  store_id = 2;
  ingredient_id = 3;
  received_qty = pos 10;
  remaining_qty = pos 6;
  purchase_price = pos 50;
  currency = "RUB";
  received_at = pos 0;
  expires_at = pos 100;
  freshness = fresh;
  written_off = false;
  write_off_reason = none;
  version = pos 4;
}

abbrev session : Session Tables (Unit {0})
session =
    let tables : Tables = record { batches = row ∷ []; outbox = [] } in
    record { committed = tables; working = tables; outside = tt; replies = [] }

abbrev price : Money
price = record { amount = pos 50; currency = "RUB" }

abbrev ops : List Op
ops =
    consume_op (pos 1) (pos 4)
    ∷ mark_aging_op (pos 2)
    ∷ writeoff_op (pos 3) (pos 1) "wilted"
    ∷ pop_op
    ∷ []

abbrev served : Served (Unit {0})
served = record { session = session; runs = 0 }

-- An hour passes between two runs.
abbrev clock : ℕ → Time
clock k = pos (200 + k * hour)

row-IsStorable : IsStorable 3 row
unfolding ◌+ℤ◌
row-IsStorable = ground arith

row-IsStorable_once : IsStorable 1 row
unfolding ◌+ℤ◌
row-IsStorable_once = ground arith

published-IsDispatched_example :
    All
      (λ ev.
        IsDispatched clock 0 served
          (calls_for_recalc ev)
          (on_event clock served (event_name ev) "{}"))
      (published ops (new_batch 1 (pos 0) 2 3 (pos 10) price (pos 0) (pos 100)))
published-IsDispatched_example =
    published-IsDispatched clock 0 served "{}" 1 (pos 0) 2 3 (pos 10) price (pos 0) (pos 100) ops
      (refl, refl, ((refl, tt), (row-IsStorable_once, tt)))

abbrev consumed : OutboxRow
consumed = record {
  id = 7;
  aggregate_type = "batch";
  aggregate_id = "1";
  event_type = "inventory.batch_consumed";
  payload = "{}";
  status = pending;
  attempts = 0;
  max_attempts = 5;
  created_at = pos 10;
  processed_at = none;
}

abbrev world : World (Served (Unit {0}))
world = record {
  rows =
      consumed
      ∷ record consumed { id = 8; event_type = "ordering.order_confirmed" }
      ∷ record consumed { id = 9; event_type = "inventory.batch_written_off" }
      ∷ [];
  outside = served;
  replies = [];
}

abbrev scan_all : OutboxRow → Bool
scan_all _ = true

ready : IsReady (length (returning (ids (selected world.rows)) (claim world.rows))) session
unfolding is_eligible eligible insert_by_age sort_by_age take selected mark claim returning
ready = (refl, refl, ((refl, tt), (row-IsStorable, tt)))

poll_refreshes_example :
    let claimed = returning (ids (selected world.rows)) (claim world.rows) in
    let before = world.outside.session.committed in
    let w' = poll clock (pos 200) scan_all world in
    ((j : BatchId)
      → find_row j w'.outside.session.committed.batches
        ≡ map_row (looked clock world.outside.runs (recalcs claimed)) (find_row j before.batches))
    × (w'.outside.session.committed.outbox ≡ before.outbox)
    × All (IsDone (ids (selected world.rows))) w'.rows
poll_refreshes_example = poll_refreshes clock (pos 200) scan_all world (λ _. refl) refl ready
