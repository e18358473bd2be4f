-- ===== src/Ordering/Order.antt =====
-- The aggregate of internal/ordering/domain/order.go with its events (events.go). A method on
-- `*Order` returns the new record beside its `error`; `time.Now()` and fresh identifiers are
-- arguments.
pub mod Ops
pub mod Items
pub mod Status
pub mod Lifecycle
mod Tests
use florist_core.Prelude.{
  Bool, true, false, String, Option, none, some, List, [], ◌∷◌, append, ◌==◌, if◌then◌else◌,
}
use florist_core.Prelude.Int.{ℤ, pos}
use florist_core.Kernel.Errors.{
  Error, Result, ok, err, message, order_not_draft, order_not_confirmed, order_already_cancelled,
  order_item_not_found, empty_order,
}
use florist_core.Kernel.Money
use florist_core.Kernel.Money.{Money}
use florist_core.Kernel.Types.{
  Uuid, OrderId, ProductId, StoreId, Time, BaseEvent, new_base_event, record_event, pull_events,
}

-- `OrderStatus`
pub data OrderStatus : Type 0 where
  draft confirmed in_production assembled shipped cancelled : OrderStatus

-- The structs of events.go.
pub data DomainEvent : Type 0 where
  order_created : BaseEvent → OrderId → StoreId → DomainEvent
  order_confirmed : BaseEvent → OrderId → DomainEvent
  order_cancelled : BaseEvent → OrderId → String → OrderStatus → DomainEvent
  order_shipped : BaseEvent → OrderId → DomainEvent

pub event_name : DomainEvent → String
event_name (order_created base _ _) = base.name
event_name (order_confirmed base _) = base.name
event_name (order_cancelled base _ _ _) = base.name
event_name (order_shipped base _) = base.name

pub record OrderItem : Type 0 where
  pub id : Uuid
  pub product_id : ProductId
  pub qty : ℤ
  pub unit_price : Money

-- `OrderItem.Total`; `int64(i.Qty)` keeps an `int`.
pub item_total : OrderItem → Money
item_total i = Money.multiply i.unit_price i.qty

pub record CustomerSnapshot : Type 0 where
  pub name : String
  pub phone : String
  pub email : String

pub record Order : Type 0 where
  pub id : OrderId
  pub store_id : StoreId
  pub customer : CustomerSnapshot
  pub items : List OrderItem
  pub status : OrderStatus
  pub version : ℤ
  pub created_at : Time
  pub confirmed_at : Option Time
  pub cancelled_at : Option Time
  pub events : List DomainEvent

-- The event has no store: `OrderCreatedEvent{BaseEvent: …, OrderID: o.id}` leaves `StoreID` zero.
pub new_order : OrderId → Time → StoreId → CustomerSnapshot → Order
new_order id now store_id customer = record {
  id = id;
  store_id = store_id;
  customer = customer;
  items = [];
  status = draft;
  version = pos 0;
  created_at = now;
  confirmed_at = none;
  cancelled_at = none;
  events = record_event [] (order_created (new_base_event "order.created" now) id 0);
}

abbrev pub is_draft : OrderStatus → Bool
is_draft draft = true
is_draft _ = false

-- `RequireDraft`
pub require_draft : Order → Option Error
require_draft o = if is_draft o.status then none else some order_not_draft

pub add_item : Uuid → ProductId → ℤ → Money → Order → Order × Option Error
add_item id product_id qty unit_price o =
    if is_draft o.status
    then (
      record o {
        items =
            append o.items
              (record { id = id; product_id = product_id; qty = qty; unit_price = unit_price });
      },
      none,
    )
    else (o, some order_not_draft)

-- The loop of `RemoveItem`: the first line of the product goes, `none` if there is none.
pub remove_first : ProductId → List OrderItem → Option (List OrderItem)
remove_first product_id [] = none
remove_first product_id (item ∷ items) =
    let rest = remove_first product_id items in
    if item.product_id == product_id
    then some items
    else elim rest [ none ↦ none | some kept ↦ some (item ∷ kept) ]

pub remove_item : ProductId → Order → Order × Option Error
remove_item product_id o =
    if is_draft o.status
    then elim (remove_first product_id o.items) [
      | none ↦ (o, some order_item_not_found)
      | some items ↦ (record o { items = items }, none)
    ]
    else (o, some order_not_draft)

abbrev is_empty {ℓ} : {A : Type ℓ} → List A → Bool
is_empty [] = true
is_empty (_ ∷ _) = false

unfoldable pub confirm : Time → Order → Order × Option Error
confirm now o =
    if is_draft o.status
    then (if is_empty o.items then (o, some empty_order) else (
      record o {
        status = confirmed;
        confirmed_at = some now;
        events =
            record_event o.events (order_confirmed (new_base_event "order.confirmed" now) o.id);
      },
      none,
    ))
    else (o, some order_not_draft)

abbrev is_confirmed : OrderStatus → Bool
is_confirmed confirmed = true
is_confirmed _ = false

pub mark_in_production : Order → Order × Option Error
mark_in_production o =
    if is_confirmed o.status
    then (record o { status = in_production }, none)
    else (o, some order_not_confirmed)

abbrev is_in_production : OrderStatus → Bool
is_in_production in_production = true
is_in_production _ = false

pub mark_assembled : Order → Order × Option Error
mark_assembled o =
    if is_in_production o.status
    then (record o { status = assembled }, none)
    else (o, some (message "order must be in production to mark as assembled"))

abbrev is_assembled : OrderStatus → Bool
is_assembled assembled = true
is_assembled _ = false

pub ship : Order → Order × Option Error
ship o =
    if is_assembled o.status
    then (record o { status = shipped }, none)
    else (o, some (message "order must be assembled before shipping"))

abbrev is_cancelled : OrderStatus → Bool
is_cancelled cancelled = true
is_cancelled _ = false

abbrev is_shipped : OrderStatus → Bool
is_shipped shipped = true
is_shipped _ = false

-- The event is built after `o.status` has been set, and reads it.
pub cancel : Time → String → Order → Order × Option Error
cancel now reason o =
    if is_cancelled o.status
    then (o, some order_already_cancelled)
    else if is_shipped o.status
    then (o, some (message "cannot cancel a shipped order"))
    else (
      let o' = record o { status = cancelled; cancelled_at = some now } in
          record o' {
            events =
                record_event o'.events
                  (order_cancelled (new_base_event "order.cancelled" now) o'.id reason o'.status);
          },
      none,
    )

-- The events, and the order without them.
unfoldable pub pop_events : Order → List DomainEvent × Order
pop_events o = let (events, rest) = pull_events o.events in (events, record o { events = rest })
