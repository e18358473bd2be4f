-- ===== src/Ordering/OrderRepository.antt =====
-- `OrderRepository` of internal/ordering/infrastructure/postgres/order_repository.go over its tables. The
-- methods `SaveTx`, `UpdateTx` and `RunTx` stand there inside the body of `nilableStr`, and are read as
-- methods of their own. What it calls of the domain and the domain does not have is an argument, as are
-- `NOW()` and the text of an identifier. A query hands out all its rows or fails.
pub mod Steps
pub mod Store
pub mod Refine
pub mod Update
pub mod Port
pub mod Flow
mod Tests
use Prim.Native.String.{◌++◌ as ◌<>◌}
use florist_core.Prelude.{
  ℕ, Bool, String, Option, none, some, List, [], ◌∷◌, map, ◌==◌, str_eq, if◌then◌else◌,
}
use florist_core.Prelude.Int.{ℤ}
use florist_core.Kernel.Errors.{Error, wrapped, order_not_found, ordering_optimistic_lock}
use florist_core.Kernel.Types.{Uuid, OrderId, StoreId, ProductId, Time, unchecked_money}
use florist_core.Kernel.Money.{Money}
use florist_core.Ordering.Order.{
  Order, OrderItem, OrderStatus, draft, confirmed, in_production, assembled, shipped, cancelled,
}
use florist_core.Ordering.OrderTables.{
  OrderRow, OrderItemRow, Tables, OrderChange, insert_order, update_order, upsert_item, find_row,
  items_of,
}
use florist_core.Db.{Action, pure, raise, ◌>>=◌, ◌>>◌, wrap_error, pool_exec, tx_exec, with_tx}

-- `string(o.Status())`
abbrev pub status_text : OrderStatus → String
status_text draft = "draft"
status_text confirmed = "confirmed"
status_text in_production = "in_production"
status_text assembled = "assembled"
status_text shipped = "shipped"
status_text cancelled = "cancelled"

-- `domain.OrderItem` as `findItems` fills it.
pub record OrderItemParams : Type 0 where
  pub id : Uuid
  pub product_id : ProductId
  pub ingredient_id : Uuid
  pub qty : ℤ
  pub unit : String
  pub unit_price : Money
  pub batch_id : Uuid
  pub reserved : Bool

-- `domain.RehydrateOrderParams`
pub record RehydrateOrderParams : Type 0 where
  pub id : OrderId
  pub store_id : StoreId
  pub customer_id : Uuid
  pub status : String
  pub total_price : Money
  pub notes : String
  pub items : List OrderItemParams
  pub version : ℤ

-- What is called of the domain's types and is not in the domain.
pub record OrderMethods : Type 0 where
  pub customer_id : Order → Uuid
  pub total_price : Order → Money
  pub notes : Order → String
  pub ingredient_id : OrderItem → Uuid
  pub unit : OrderItem → String
  pub batch_id : OrderItem → Uuid
  pub reserved : OrderItem → Bool
  pub rehydrate_order : RehydrateOrderParams → Order

unfoldable pub ptr_str : Option String → String
ptr_str none = ""
ptr_str (some s) = s

unfoldable pub nilable_str : String → Option String
nilable_str s = if str_eq s "" then none else some s

-- `if item.BatchID != (kernel.ID{}) { batchID = item.BatchID }`
abbrev pub nilable_id : Uuid → Option Uuid
nilable_id id = if id == 0 then none else some id

abbrev pub id_or_zero : Option Uuid → Uuid
id_or_zero none = 0
id_or_zero (some id) = id

-- The body of the loop of `findItems`.
abbrev pub item_params : OrderItemRow → OrderItemParams
item_params rw = record {
  id = rw.id;
  product_id = rw.product_id;
  ingredient_id = rw.ingredient_id;
  qty = rw.qty;
  unit = rw.unit;
  unit_price = unchecked_money rw.unit_price rw.currency;
  batch_id = id_or_zero rw.batch_id;
  reserved = rw.reserved;
}

abbrev pub order_params : OrderRow → List OrderItemParams → RehydrateOrderParams
order_params rw items = record {
  id = rw.id;
  store_id = rw.store_id;
  customer_id = rw.customer_id;
  status = rw.status;
  total_price = unchecked_money rw.total_price rw.currency;
  notes = ptr_str rw.notes;
  items = items;
  version = rw.version;
}

module _ (m : OrderMethods) where
  -- The arguments of `INSERT INTO orders`; the times are the defaults of the columns.
  abbrev pub order_row : Time → Order → OrderRow
  order_row now o = record {
    id = o.id;
    store_id = o.store_id;
    customer_id = m.customer_id o;
    status = status_text o.status;
    total_price = (m.total_price o).amount;
    currency = (m.total_price o).currency;
    notes = nilable_str (m.notes o);
    version = o.version;
    created_at = now;
    updated_at = now;
  }

  -- The arguments of `UPDATE orders`.
  abbrev pub order_change : Time → Order → OrderChange
  order_change now o = record {
    status = status_text o.status;
    total_price = (m.total_price o).amount;
    notes = nilable_str (m.notes o);
    updated_at = now;
  }

  -- The arguments of `INSERT INTO order_items`.
  abbrev pub item_row : OrderId → OrderItem → OrderItemRow
  item_row order_id item = record {
    id = item.id;
    order_id = order_id;
    product_id = item.product_id;
    ingredient_id = m.ingredient_id item;
    qty = item.qty;
    unit = m.unit item;
    unit_price = item.unit_price.amount;
    currency = item.unit_price.currency;
    batch_id = nilable_id (m.batch_id item);
    reserved = m.reserved item;
  }

  module _ {X : Type 0} where
    -- The loop of `upsertItems`.
    unfoldable pub upsert_items : OrderId → List OrderItem → Action Tables X (Unit {0})
    upsert_items order_id [] = pure tt
    upsert_items order_id (item ∷ items) =
        wrap_error (wrapped "OrderRepository.upsertItems")
          (tx_exec (upsert_item (item_row order_id item)))
        >> upsert_items order_id items

    -- The statement and the lines of `Save` and `SaveTx`, which differ in the text of an error.
    abbrev pub insert_all : String → Time → Order → Action Tables X (Unit {0})
    insert_all label now o =
        wrap_error (wrapped label) (tx_exec (insert_order (order_row now o)))
        >> upsert_items o.id o.items

    unfoldable pub save_tx : Time → Order → Action Tables X (Unit {0})
    unfolding upsert_items nilable_str
    save_tx now o = insert_all "OrderRepository.SaveTx" now o

    unfoldable pub save : Time → Order → Action Tables X (Unit {0})
    unfolding upsert_items nilable_str
    save now o =
        with_tx (wrapped "OrderRepository.Save begin tx")
          (insert_all "OrderRepository.Save insert order" now o)

    -- `if tag.RowsAffected() == 0`
    abbrev pub lock_check : String → ℕ → Action Tables X (Unit {0})
    lock_check label n = if n == 0 then raise (wrapped label ordering_optimistic_lock) else pure tt

    abbrev pub update_all : String → Time → Order → Action Tables X (Unit {0})
    update_all label now o =
        (wrap_error (wrapped label) (tx_exec (update_order (order_change now o) o.id o.version))
          >>= lock_check label)
        >> upsert_items o.id o.items

    unfoldable pub update_tx : Time → Order → Action Tables X (Unit {0})
    unfolding upsert_items nilable_str
    update_tx now o = update_all "OrderRepository.UpdateTx" now o

    unfoldable pub update : Time → Order → Action Tables X (Unit {0})
    unfolding upsert_items nilable_str
    update now o =
        with_tx (wrapped "OrderRepository.Update begin tx")
          (update_all "OrderRepository.Update" now o)

    -- `RunTx`
    abbrev pub run_tx : Action Tables X (Unit {0}) → Action Tables X (Unit {0})
    run_tx fn = with_tx (wrapped "OrderRepository.RunTx begin") fn

    abbrev pub find_items : OrderId → Action Tables X (List OrderItemParams)
    find_items id =
        wrap_error (wrapped "OrderRepository.findItems")
          (pool_exec (λ t. some (map item_params (items_of id t.items), t)))

    -- `errors.Is(err, pgx.ErrNoRows)`
    abbrev pub found : String → Option OrderRow → Action Tables X OrderRow
    found id_text none = raise (wrapped ("OrderRepository.FindByID " <> id_text) order_not_found)
    found id_text (some row) = pure row

    abbrev pub load : OrderRow → Action Tables X Order
    load rw = find_items rw.id >>= λ items. pure (m.rehydrate_order (order_params rw items))

    unfoldable pub find_by_id : (OrderId → String) → OrderId → Action Tables X Order
    unfolding find_row items_of ptr_str
    find_by_id text_of_id id =
        (wrap_error (wrapped "OrderRepository.FindByID")
            (pool_exec (λ t. some (find_row id t.orders, t)))
          >>= found (text_of_id id))
        >>= load
