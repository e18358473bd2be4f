-- ===== src/Ordering/Confirm/Tests.antt =====
-- The confirmation of an order of two lines.
use florist_core.Prelude.{
  String, ◌≡◌, refl, none, some, List, [], ◌∷◌, true, false, str_eq, ◌==◌, if◌then◌else◌,
}
use florist_core.Prelude.Int.{pos}
use florist_core.Kernel.Errors.{ok, err, driver, wrapped}
use florist_core.Kernel.Types.{OrderId}
use florist_core.Ordering.Order.{Order, draft, event_name, confirm}
use florist_core.Ordering.Confirm.{
  ConfirmOrderHandler, OrderRepository, AvailabilityService, ReservationService, available_now,
  unavailable, confirm_order,
}
use florist_core.Ordering.Confirm.Inside.{tx_exec-IsInside}
use florist_core.Ordering.Confirm.Outcome.{IsConfirmedBy, confirm_order_atomic}
use florist_core.Outbox.Publisher.{NewRow, publish_tx}
use florist_core.Ordering.Http.{confirm_order_handler}
use florist_core.Http.{Response, http_error}
use florist_core.Db.{Action, Session, pure, tx_exec, run_tx}
use florist_core.Db.Atomic.{tx_exec-IsPending}

-- The orders, and the outbox; outside, the orders that hold stock.
abbrev Store : Type 0
Store = List Order × List NewRow

abbrev Held : Type 0
Held = List OrderId

abbrev order : Order
order = record {
  id = 1;
  store_id = 2;
  customer = record { name = "Anna"; phone = "1"; email = "a@b" };
  items =
      record {
        id = 11;
        product_id = 40;
        qty = pos 3;
        unit_price = record { amount = pos 250; currency = "RUB" };
      }
      ∷ [];
  status = draft;
  version = pos 0;
  created_at = pos 5;
  confirmed_at = none;
  cancelled_at = none;
  events = [];
}

abbrev write : Order → Action Store Held (Unit {0})
write o = tx_exec (λ t. some (tt, (o ∷ t.0, t.1)))

abbrev orders : OrderRepository Store Held
orders = record {
  find_by_id = λ _. pure order;
  save_tx = write;
  update_tx = write;
  find_by_id-IsQuery = λ _ s. (refl, refl, refl);
  save_tx-IsPending = λ o. tx_exec-IsPending _;
  save_tx-IsInside = λ o. tx_exec-IsInside _;
  update_tx-IsPending = λ o. tx_exec-IsPending _;
  update_tx-IsInside = λ o. tx_exec-IsInside _;
}

-- Everything but product 41 is there.
abbrev availability : AvailabilityService Store Held
availability = record {
  check_product = λ _ product_id _. pure (record {
    status = if product_id == 41 then unavailable else available_now;
    substitution_ids = [];
  });
  check_product-IsQuery = λ _ _ _ s. (refl, refl, refl);
}

abbrev hold : OrderId → Action Store Held (Unit {0})
hold id s = (ok tt, record s { outside = id ∷ s.outside })

abbrev reservations : ReservationService Store Held
reservations = record {
  reserve_for_order = hold;
  release_for_order = λ _. pure tt;
  reserve_keeps = λ _ s. (refl, refl);
}

abbrev handler : ConfirmOrderHandler Store Held
handler = record {
  orders = orders;
  availability = availability;
  reservations = reservations;
  parse_id = λ text. if str_eq text "" then err driver else ok 1;
  marshal = λ ev. ok (event_name ev);
  aggregate_of = λ _. none;
  put = λ row t. (t.0, row ∷ t.1);
}

abbrev session : Session Store Held
session = record { committed = ([], []); working = ([], []); outside = []; replies = [] }

-- The update of the order fails.
abbrev failing : Session Store Held
failing = record session { replies = true ∷ false ∷ [] }

bad_id :
    (confirm_order handler (pos 9) "" session).0
    ≡ err (wrapped "ConfirmOrderHandler: invalid order id" driver)
unfolding confirm_order
bad_id = refl

confirmed_once : (confirm_order handler (pos 9) "1" session).1.outside ≡ 1 ∷ []
unfolding confirm_order run_tx confirm publish_tx tx_exec
confirmed_once = refl

confirm_order_atomic_example :
    IsConfirmedBy handler (pos 9) "1" failing (confirm_order handler (pos 9) "1" failing)
confirm_order_atomic_example = confirm_order_atomic handler (pos 9) "1" failing refl

abbrev serve : Session Store Held → Response String × Session Store Held
serve = confirm_order_handler handler (λ _. "driver") (λ body. ok body) (pos 9) "1" "{}"

lost_update : (serve failing).0 ≡ http_error "{\"error\":\"driver\"}" 500
unfolding confirm_order_handler confirm_order run_tx confirm tx_exec
lost_update = refl
