-- ===== src/Inventory/Batch.antt =====
-- The aggregate of internal/inventory/domain/batch.go with its events (events.go). A method on
-- `*Batch` returns the new record beside its `error`; `time.Now()` is the argument `now`.
pub mod Ops
pub mod Errors
pub mod Invariant
pub mod Ageing
pub mod Ledger
mod Tests
use florist_core.Prelude.{Bool, true, false, String, Option, none, some, List, [], if◌then◌else◌}
use florist_core.Prelude.Int.{ℤ, pos, ◌+ℤ◌, ◌-ℤ◌, ltb_ℤ, wrap64}
use florist_core.Kernel.Errors.{Error, batch_expired, insufficient_batch, batch_already_expired}
use florist_core.Kernel.Money.{Money}
use florist_core.Kernel.Types.{
  BatchId, StoreId, IngredientId, Time, BaseEvent, new_base_event, record_event, pull_events,
}

-- `FreshnessState`, a string that the table's CHECK holds to these four.
pub data Freshness : Type 0 where
  fresh aging critical expired : Freshness

-- The structs of events.go.
pub data DomainEvent : Type 0 where
  batch_received : BaseEvent → BatchId → IngredientId → StoreId → ℤ → DomainEvent
  batch_expired_event : BaseEvent → BatchId → IngredientId → StoreId → ℤ → DomainEvent
  batch_written_off : BaseEvent → BatchId → ℤ → String → DomainEvent
  batch_freshness_changed : BaseEvent → BatchId → Freshness → DomainEvent
  batch_consumed : BaseEvent → BatchId → IngredientId → StoreId → ℤ → ℤ → DomainEvent

-- `EventName()`
unfoldable pub event_name : DomainEvent → String
event_name (batch_received base _ _ _ _) = base.name
event_name (batch_expired_event base _ _ _ _) = base.name
event_name (batch_written_off base _ _ _) = base.name
event_name (batch_freshness_changed base _ _) = base.name
event_name (batch_consumed base _ _ _ _ _) = base.name

pub record Batch : Type 0 where
  pub id : BatchId
  pub store_id : StoreId
  pub ingredient_id : IngredientId
  pub received_qty : ℤ
  pub remaining_qty : ℤ
  pub purchase_price : Money
  pub received_at : Time
  pub expires_at : Time
  pub freshness : Freshness
  pub version : ℤ
  pub written_off : Bool
  pub write_off_reason : String
  pub events : List DomainEvent

-- `id` is the value of `kernel.NewBatchID()`.
unfoldable pub new_batch : BatchId → Time → StoreId → IngredientId → ℤ → Money → Time → Time → Batch
new_batch id now store_id ingredient_id qty price received_at expires_at = record {
  id = id;
  store_id = store_id;
  ingredient_id = ingredient_id;
  received_qty = qty;
  remaining_qty = qty;
  purchase_price = price;
  received_at = received_at;
  expires_at = expires_at;
  freshness = fresh;
  version = pos 0;
  written_off = false;
  write_off_reason = "";
  events = record_event [] (
      batch_received (new_base_event "inventory.batch_received" now) id ingredient_id store_id qty);
}

abbrev pub is_expired : Freshness → Bool
is_expired expired = true
is_expired _ = false

unfoldable pub is_usable : Batch → Bool
is_usable b = if is_expired b.freshness then false else true

unfoldable pub consume : Time → ℤ → Batch → Batch × Option Error
consume now qty b =
    if is_expired b.freshness
    then (b, some batch_expired)
    else if ltb_ℤ b.remaining_qty qty
    then (b, some insufficient_batch)
    else (
      let left = wrap64 (b.remaining_qty -ℤ qty) in
          record b {
            remaining_qty = left;
            events = record_event b.events (
                batch_consumed (new_base_event "inventory.batch_consumed" now) b.id b.ingredient_id
                  b.store_id qty left);
          },
      none,
    )

unfoldable pub release : ℤ → Batch → Batch
release qty b = record b { remaining_qty = wrap64 (b.remaining_qty +ℤ qty) }

abbrev pub mark_aging_from : Freshness → Time → Batch → Batch
mark_aging_from fresh now b = record b {
  freshness = aging;
  events =
      record_event b.events (
        batch_freshness_changed (new_base_event "inventory.batch_freshness_changed" now) b.id
          aging);
}
mark_aging_from _ _ b = b

unfoldable pub mark_aging : Time → Batch → Batch
mark_aging now b = mark_aging_from b.freshness now b

abbrev pub mark_critical_from : Freshness → Batch → Batch
mark_critical_from aging b = record b { freshness = critical }
mark_critical_from fresh b = record b { freshness = critical }
mark_critical_from _ b = b

unfoldable pub mark_critical : Batch → Batch
mark_critical b = mark_critical_from b.freshness b

unfoldable pub expire : Time → Batch → Batch × Option Error
expire now b = if is_expired b.freshness then (b, some batch_already_expired) else (
  record b {
    freshness = expired;
    events = record_event b.events (
        batch_expired_event (new_base_event "inventory.batch_expired" now) b.id b.ingredient_id
          b.store_id b.remaining_qty);
  },
  none,
)

unfoldable pub writeoff : Time → ℤ → String → Batch → Batch × Option Error
writeoff now qty reason b =
    if is_expired b.freshness
    then (b, some batch_expired)
    else if ltb_ℤ b.remaining_qty qty
    then (b, some insufficient_batch)
    else (
      record b {
        remaining_qty = wrap64 (b.remaining_qty -ℤ qty);
        events =
            record_event b.events (
              batch_written_off (new_base_event "inventory.batch_written_off" now) b.id qty reason);
      },
      none,
    )

-- The events, and the batch without them.
unfoldable pub pop_events : Batch → List DomainEvent × Batch
pop_events b = let (events, rest) = pull_events b.events in (events, record b { events = rest })

pub record RehydrateParams : Type 0 where
  pub id : BatchId
  pub store_id : StoreId
  pub ingredient_id : IngredientId
  pub received_qty : ℤ
  pub remaining_qty : ℤ
  pub purchase_price : Money
  pub received_at : Time
  pub expires_at : Time
  pub freshness : Freshness
  pub written_off : Bool
  pub write_off_reason : String
  pub version : ℤ

unfoldable pub rehydrate_batch : RehydrateParams → Batch
rehydrate_batch p = record {
  id = p.id;
  store_id = p.store_id;
  ingredient_id = p.ingredient_id;
  received_qty = p.received_qty;
  remaining_qty = p.remaining_qty;
  purchase_price = p.purchase_price;
  received_at = p.received_at;
  expires_at = p.expires_at;
  freshness = p.freshness;
  version = p.version;
  written_off = p.written_off;
  write_off_reason = p.write_off_reason;
  events = [];
}
