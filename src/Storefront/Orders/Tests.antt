-- ===== src/Storefront/Orders/Tests.antt =====
-- The placing of an order of one line.
use florist_core.Prelude.{
  ◌≡◌, refl, ◌⊎◌, String, none, some, List, [], ◌∷◌, true, false, str_eq, if◌then◌else◌,
}
use florist_core.Prelude.Int.{pos}
use florist_core.Kernel.Errors.{Result, ok, err, driver, wrapped}
use florist_core.Kernel.Types.{Uuid, StoreId}
use florist_core.Ordering.Order.{Order, OrderItem, draft, event_name, confirm}
use florist_core.Ordering.Confirm.{OrderRepository, available_now, confirm_order}
use florist_core.Ordering.Confirm.Inside.{tx_exec-IsInside}
use florist_core.Outbox.Publisher.{NewRow, publish_tx}
use florist_core.Storefront.Orders.{PlaceOrderCommand, PlaceOrderHandler, place_order}
use florist_core.Storefront.Http.{Request, command_of, place_order_handler}
use florist_core.Storefront.Http.Reports.{IsReplied, place_order_handler_reports}
use florist_core.Http.{Response}
use florist_core.Db.{Action, Session, Statement, pure, tx_exec, run_tx}
use florist_core.Db.Atomic.{tx_exec-IsPending}

abbrev Store : Type 0
Store = List Order × List NewRow

abbrev parse : String → Result Uuid
parse text = if str_eq text "" then err driver else ok 40

abbrev new_order : StoreId → List OrderItem → Order
new_order store_id items = record {
  id = 1;
  store_id = store_id;
  customer = record { name = ""; phone = ""; email = "" };
  items = items;
  status = draft;
  version = pos 0;
  created_at = pos 5;
  confirmed_at = none;
  cancelled_at = none;
  events = [];
}

abbrev command : PlaceOrderCommand
command = record { store_id = "2"; items = record { product_id = "40"; qty = pos 3 } ∷ [] }

abbrev placed : Order
placed = new_order 40 (
    record {
      id = 0;
      product_id = 40;
      qty = pos 3;
      unit_price = record { amount = pos 0; currency = "" };
    }
    ∷ [])

abbrev insert : Order → Statement Store (Unit {0})
insert o t = some (tt, (o ∷ t.0, t.1))

abbrev write : Order → Action Store (Unit {0}) (Unit {0})
write o = tx_exec (insert o)

abbrev orders : OrderRepository Store (Unit {0})
orders = record {
  find_by_id = λ _. pure placed;
  save_tx = write;
  update_tx = write;
  find_by_id-IsQuery = λ _ s. (refl, refl, refl);
  save_tx-IsPending = λ o. tx_exec-IsPending (insert o);
  save_tx-IsInside = λ o. tx_exec-IsInside (insert o);
  update_tx-IsPending = λ o. tx_exec-IsPending (insert o);
  update_tx-IsInside = λ o. tx_exec-IsInside (insert o);
}

abbrev handler : PlaceOrderHandler Store (Unit {0})
handler = record {
  orders = orders;
  confirmation = record {
    orders = orders;
    availability = record {
      check_product = λ _ _ _. pure (record { status = available_now; substitution_ids = [] });
      check_product-IsQuery = λ _ _ _ s. (refl, refl, refl);
    };
    reservations = record {
      reserve_for_order = λ _. pure tt;
      release_for_order = λ _. pure tt;
      reserve_keeps = λ _ s. (refl, refl);
    };
    parse_id = parse;
    marshal = λ ev. ok (event_name ev);
    aggregate_of = λ _. none;
    put = λ row t. (t.0, row ∷ t.1);
  };
  parse_id = parse;
  text_of_id = λ _. "1";
  new_order = new_order;
}

-- The update of the confirmed order fails.
abbrev failing : Session Store (Unit {0})
failing = record {
  committed = ([], []);
  working = ([], []);
  outside = tt;
  replies = true ∷ true ∷ true ∷ true ∷ false ∷ [];
}

-- The draft stays, although the caller has no identifier of it.
left_behind :
    ((place_order handler (pos 9) command failing).0
      ≡ err (wrapped "PlaceOrderHandler: confirm" driver))
    × ((place_order handler (pos 9) command failing).1.committed ≡ (placed ∷ [], []))
unfolding place_order confirm_order run_tx tx_exec confirm publish_tx
left_behind = (refl, refl)

abbrev request : Request
request = record { store_id = "2"; items = record { product_id = "40"; qty = pos 3 } ∷ [] }

abbrev serve : Session Store (Unit {0}) → Response String × Session Store (Unit {0})
serve = place_order_handler handler (λ _. "driver") (λ _. ok request) (pos 9) "{}"

place_order_handler_reports_example :
    let (response, s') = serve failing in
    ((response.status ≡ 400) × (s' ≡ failing))
    ⊎ ((req : Request) × (ok request ≡ ok req)
        × IsReplied handler (pos 9) (command_of req) failing (response, s'))
place_order_handler_reports_example =
    place_order_handler_reports handler (λ _. "driver") (λ _. ok request) (pos 9) "{}" failing refl
