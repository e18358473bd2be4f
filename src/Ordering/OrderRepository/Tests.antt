-- ===== src/Ordering/OrderRepository/Tests.antt =====
-- The repository of orders with one confirmed order of two lines.
use florist_core.Prelude.{
  ◌≡◌, refl, false, String, none, [], ◌∷◌, map, str_eq, str_eq_iff, if◌then◌else◌, arith,
}
use florist_core.Prelude.Int.{pos}
use florist_core.Kernel.Errors.{ok, err, wrapped, order_not_found, ordering_optimistic_lock}
use florist_core.Kernel.Types.{Uuid, OrderId}
use florist_core.Ordering.Order.{
  Order, OrderItem, OrderStatus, CustomerSnapshot, draft, confirmed, cancelled, event_name,
}
use florist_core.Ordering.OrderTables.{
  OrderRow, OrderItemRow, Tables, update_rows, upsert_row, find_row, items_of,
}
use florist_core.Ordering.OrderRepository.{
  OrderMethods, OrderItemParams, RehydrateOrderParams, nilable_str, status_text, upsert_items, save,
  update, find_by_id,
}
use florist_core.Ordering.OrderRepository.Store.{params_of}
use florist_core.Ordering.OrderRepository.Refine.{IsSaved, order_save_refines, find_by_id-save}
use florist_core.Ordering.OrderRepository.Update.{IsOrderUpdated, order_update_keeps_lines}
use florist_core.Ordering.OrderRepository.Port.{order_repository}
use florist_core.Ordering.OrderRepository.Flow.{HasFailed, confirm_order_fails, place_order_fails}
use florist_core.Ordering.Confirm.{ConfirmOrderHandler, available_now, confirm_order}
use florist_core.Storefront.Orders.{PlaceOrderHandler, PlaceOrderCommand, place_order}
use florist_core.Db.{Session, pure, with_tx, tx_exec, pool_exec}

abbrev no_customer : CustomerSnapshot
no_customer = record { name = ""; phone = ""; email = "" }

abbrev status_of : String → OrderStatus
status_of text =
    if str_eq text "draft" then draft else if str_eq text "confirmed" then confirmed else cancelled

abbrev item_of : OrderItemParams → OrderItem
item_of p = record { id = p.id; product_id = p.product_id; qty = p.qty; unit_price = p.unit_price }

abbrev rehydrate : RehydrateOrderParams → Order
rehydrate p = record {
  id = p.id;
  store_id = p.store_id;
  customer = no_customer;
  items = map item_of p.items;
  status = status_of p.status;
  version = p.version;
  created_at = pos 0;
  confirmed_at = none;
  cancelled_at = none;
  events = [];
}

abbrev methods : OrderMethods
methods = record {
  customer_id = λ _. 7;
  total_price = λ _. record { amount = pos 750; currency = "RUB" };
  notes = λ _. "";
  ingredient_id = λ _. 30;
  unit = λ _. "pcs";
  batch_id = λ _. 0;
  reserved = λ _. false;
  rehydrate_order = rehydrate;
}

rehydrate_keeps :
    (p : RehydrateOrderParams) → (rehydrate p).status ≡ draft → p.status ≡ status_text draft
rehydrate_keeps p h = ground (arith, str_eq_iff p.status "draft")

abbrev line : Uuid → OrderItem
line id = record {
  id = id;
  product_id = 40;
  qty = pos 3;
  unit_price = record { amount = pos 250; currency = "RUB" };
}

abbrev order : Order
order = record {
  id = 1;
  store_id = 2;
  customer = no_customer;
  items = line 11 ∷ line 12 ∷ [];
  status = confirmed;
  version = pos 0;
  created_at = pos 0;
  confirmed_at = none;
  cancelled_at = none;
  events = [];
}

abbrev empty : Session Tables (Unit {0})
empty =
    let t : Tables = record { orders = []; items = [] } in
    record { committed = t; working = t; outside = tt; replies = [] }

abbrev row : OrderRow
row = record {
  id = 1;
  store_id = 2;
  customer_id = 7;
  status = "confirmed";
  total_price = pos 750;
  currency = "RUB";
  notes = none;
  version = pos 0;
  created_at = pos 4;
  updated_at = pos 4;
}

abbrev item_row : Uuid → OrderItemRow
item_row id = record {
  id = id;
  order_id = 1;
  product_id = 40;
  ingredient_id = 30;
  qty = pos 3;
  unit = "pcs";
  unit_price = pos 250;
  currency = "RUB";
  batch_id = none;
  reserved = false;
}

abbrev filled : Session Tables (Unit {0})
filled =
    let t : Tables = record { orders = row ∷ []; items = item_row 11 ∷ item_row 12 ∷ [] } in
    record { committed = t; working = t; outside = tt; replies = [] }

abbrev text_of_id : OrderId → String
text_of_id _ = "1"

stored : (save methods (pos 4) order empty).1.committed ≡ filled.committed
unfolding save upsert_items nilable_str upsert_row with_tx tx_exec
stored = refl

missing :
    (find_by_id methods text_of_id 5 filled).0
    ≡ err (wrapped "OrderRepository.FindByID 1" order_not_found)
unfolding find_by_id find_row pool_exec
missing = refl

-- The second line is removed from the order and stays in the table.
left_over :
    (update methods (pos 9) (record order { items = line 11 ∷ [] }) filled).1.committed.items
    ≡ item_row 11 ∷ item_row 12 ∷ []
unfolding update upsert_items nilable_str update_rows upsert_row with_tx tx_exec
left_over = refl

stale :
    (update methods (pos 9) (record order { version = pos 1 }) filled).0
    ≡ err (wrapped "OrderRepository.Update" ordering_optimistic_lock)
unfolding update nilable_str update_rows with_tx tx_exec
stale = refl

order_save_refines_example :
    IsSaved methods order empty.committed (save methods (pos 4) order empty)
unfolding items_of
order_save_refines_example =
    order_save_refines methods (pos 4) order empty refl refl (refl, refl, (refl, refl, tt))

find_by_id-save_example :
    (find_by_id methods text_of_id 1 (save methods (pos 4) order empty).1).0
    ≡ ok (rehydrate (params_of methods order))
unfolding save upsert_items nilable_str upsert_row items_of with_tx tx_exec
find_by_id-save_example =
    find_by_id-save methods text_of_id (pos 4) order empty refl refl (refl, refl, (refl, refl, tt))
      refl refl

order_update_keeps_lines_example :
    IsOrderUpdated methods
      (pos 9)
      (record order { items = line 11 ∷ [] })
      filled.committed
      (update methods (pos 9) (record order { items = line 11 ∷ [] }) filled)
order_update_keeps_lines_example =
    order_update_keeps_lines methods (pos 9) (record order { items = line 11 ∷ [] }) filled refl
      (refl, tt)

abbrev confirmation : ConfirmOrderHandler Tables (Unit {0})
confirmation = record {
  orders = order_repository methods (pos 9) text_of_id;
  availability = record {
    check_product = λ _ _ _. pure (record { status = available_now; substitution_ids = [] });
    check_product-IsQuery = λ _ _ _ s. (refl, refl, refl);
  };
  reservations = record {
    reserve_for_order = λ _. pure tt;
    release_for_order = λ _. pure tt;
    reserve_keeps = λ _ s. (refl, refl);
  };
  parse_id = λ _. ok 1;
  marshal = λ ev. ok (event_name ev);
  aggregate_of = λ _. none;
  put = λ row t. t;
}

confirm_order_fails_example : HasFailed filled.committed (
    confirm_order
      (record confirmation { orders = order_repository methods (pos 9) text_of_id })
      (pos 9)
      "1"
      filled)
confirm_order_fails_example =
    confirm_order_fails methods (pos 9) text_of_id confirmation (pos 9) "1" filled rehydrate_keeps
      refl (refl, tt)

abbrev placing : PlaceOrderHandler Tables (Unit {0})
placing = record {
  orders = order_repository methods (pos 9) text_of_id;
  confirmation = confirmation;
  parse_id = λ _. ok 2;
  text_of_id = text_of_id;
  new_order = λ store_id items. record order { store_id = store_id; items = items; status = draft };
}

abbrev command : PlaceOrderCommand
command = record { store_id = "2"; items = record { product_id = "40"; qty = pos 3 } ∷ [] }

place_order_fails_example : HasFailed filled.committed (
    place_order
      (record placing { orders = order_repository methods (pos 9) text_of_id })
      (pos 9)
      command
      filled)
place_order_fails_example =
    place_order_fails methods (pos 9) text_of_id placing (pos 9) command filled (λ _ _. refl) refl
