-- ===== src/Storefront/Orders.antt =====
-- internal/storefront/application/place_order.go over the repository of orders and the handler that
-- confirms. `domain.NewOrder` is called there with a store and lines, which no function of the domain
-- takes, so it is an argument, as are the parser of identifiers and their text.
pub mod Outcome
mod Tests
use florist_core.Prelude.{String, List, [], ◌∷◌}
use florist_core.Prelude.Int.{ℤ, pos}
use florist_core.Kernel.Errors.{Result, ok, wrapped, ◌>>=◌ as ◌⟫=◌, wrap_result}
use florist_core.Kernel.Types.{Uuid, OrderId, ProductId, StoreId, Time}
use florist_core.Ordering.Order.{Order, OrderItem}
use florist_core.Ordering.Confirm.{OrderRepository, ConfirmOrderHandler, confirm_order}
use florist_core.Db.{Action, pure, ◌>>=◌, ◌>>◌, run_tx, wrap_error, lift}

pub record PlaceOrderItem : Type 0 where
  pub product_id : String
  pub qty : ℤ

pub record PlaceOrderCommand : Type 0 where
  pub store_id : String
  pub items : List PlaceOrderItem

-- Its `txRunner` is `run_tx`.
pub record PlaceOrderHandler (T X : Type 0) : Type 1 where
  pub orders : OrderRepository T X
  pub confirmation : ConfirmOrderHandler T X
  pub parse_id : String → Result Uuid
  pub text_of_id : OrderId → String
  pub new_order : StoreId → List OrderItem → Order

-- `domain.OrderItem{ProductID: pid, Qty: it.Qty}`: the identifier and the price stay zero.
abbrev pub order_item : ProductId → ℤ → OrderItem
order_item pid qty = record {
  id = 0;
  product_id = pid;
  qty = qty;
  unit_price = record { amount = pos 0; currency = "" };
}

-- The loop over the command's items.
abbrev pub order_items : (String → Result Uuid) → List PlaceOrderItem → Result (List OrderItem)
order_items parse [] = ok []
order_items parse (it ∷ rest) =
    wrap_result (wrapped "PlaceOrderHandler: invalid product id") (parse it.product_id) ⟫= λ pid.
    order_items parse rest ⟫= λ items. ok (order_item pid it.qty ∷ items)

module _ {T X : Type 0} (h : PlaceOrderHandler T X) where
  abbrev pub save_draft : Order → Action T X (Unit {0})
  save_draft o = wrap_error (wrapped "PlaceOrderHandler: save draft") (run_tx (h.orders.save_tx o))

  abbrev pub confirm_draft : Time → Order → Action T X (Unit {0})
  confirm_draft now o =
      wrap_error (wrapped "PlaceOrderHandler: confirm")
        (confirm_order h.confirmation now (h.text_of_id o.id))

  abbrev pub place_draft : Time → Order → Action T X OrderId
  place_draft now o = save_draft o >> (confirm_draft now o >> pure o.id)

  unfoldable pub place_order : Time → PlaceOrderCommand → Action T X OrderId
  unfolding confirm_order
  place_order now cmd = do
    store_id ←
        wrap_error (wrapped "PlaceOrderHandler: invalid store id") (lift (h.parse_id cmd.store_id))
    items ← lift (order_items h.parse_id cmd.items)
    place_draft now (h.new_order store_id items)
