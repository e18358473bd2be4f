-- ===== src/Ordering/Confirm.antt =====
-- `ConfirmOrderHandler` of internal/ordering/application/confirm_order.go over the ports of
-- internal/ordering/application/repository.go. The parser of identifiers is an argument. The
-- services get no transaction: what they write stands outside of the session's tables.
pub mod Checks
pub mod Outcome
pub mod Inside
mod Tests
use florist_core.Prelude.{
  Bool, true, false, String, Option, none, some, List, [], ◌∷◌, ◌≡◌, if◌then◌else◌,
}
use florist_core.Prelude.Int.{ℤ}
use florist_core.Kernel.Errors.{
  Error, Result, ok, err, wrapped, order_not_draft, insufficient_stock,
}
use florist_core.Kernel.Types.{Uuid, OrderId, ProductId, StoreId, Time}
use florist_core.Ordering.Order.{
  Order, OrderItem, DomainEvent, event_name, is_draft, confirm, pop_events,
}
use florist_core.Outbox.Publisher.{NewRow, publish_some}
use florist_core.Outbox.Publisher.Complete.{insert_tx}
use florist_core.Db.{Action, Session, pure, raise, check, ◌>>=◌, ◌>>◌, run_tx, wrap_error, lift}
use florist_core.Db.Atomic.{IsPending}

-- A call that only reads.
abbrev pub IsQuery : {T X A : Type 0} → Action T X A → Type 0
IsQuery {T} {X} m =
    (s : Session T X)
    → ((m s).1.committed ≡ s.committed)
      × ((m s).1.working ≡ s.working)
      × ((m s).1.outside ≡ s.outside)

-- A call that leaves what is outside of the session's tables alone.
abbrev pub IsInside : {T X A : Type 0} → Action T X A → Type 0
IsInside {T} {X} m = (s : Session T X) → (m s).1.outside ≡ s.outside

-- The methods that the handlers call; the `Tx` ones "write into a transaction that is open already,
-- without a commit of their own".
pub record OrderRepository (T X : Type 0) : Type 1 where
  pub find_by_id : OrderId → Action T X Order
  pub save_tx : Order → Action T X (Unit {0})
  pub update_tx : Order → Action T X (Unit {0})
  pub find_by_id-IsQuery : (id : OrderId) → IsQuery (find_by_id id)
  pub save_tx-IsPending : (o : Order) → IsPending (save_tx o)
  pub save_tx-IsInside : (o : Order) → IsInside (save_tx o)
  pub update_tx-IsPending : (o : Order) → IsPending (update_tx o)
  pub update_tx-IsInside : (o : Order) → IsInside (update_tx o)

pub data AvailabilityStatus : Type 0 where
  available_now available_with_substitution preorder_only unavailable : AvailabilityStatus

pub record AvailabilityResult : Type 0 where
  pub status : AvailabilityStatus
  pub substitution_ids : List Uuid

abbrev allows : AvailabilityStatus → Bool
allows available_now = true
allows available_with_substitution = true
allows _ = false

abbrev pub can_confirm : AvailabilityResult → Bool
can_confirm r = allows r.status

pub record AvailabilityService (T X : Type 0) : Type 1 where
  pub check_product : StoreId → ProductId → ℤ → Action T X AvailabilityResult
  pub check_product-IsQuery :
      (store_id : StoreId) (product_id : ProductId) (qty : ℤ)
      → IsQuery (check_product store_id product_id qty)

pub record ReservationService (T X : Type 0) : Type 1 where
  pub reserve_for_order : OrderId → Action T X (Unit {0})
  pub release_for_order : OrderId → Action T X (Unit {0})
  pub reserve_keeps :
      (id : OrderId) (s : Session T X)
      → ((reserve_for_order id s).1.committed ≡ s.committed)
        × ((reserve_for_order id s).1.working ≡ s.working)

-- `ConfirmOrderHandler` with what its publisher and `kernel.ParseID` need. Its `txRunner` is `run_tx`.
pub record ConfirmOrderHandler (T X : Type 0) : Type 1 where
  pub orders : OrderRepository T X
  pub availability : AvailabilityService T X
  pub reservations : ReservationService T X
  pub parse_id : String → Result OrderId
  pub marshal : DomainEvent → Result String
  pub aggregate_of : DomainEvent → Option (String × String)
  pub put : NewRow → T → T

module _ {T X : Type 0} (h : ConfirmOrderHandler T X) where
  abbrev pub stock_check : AvailabilityResult → Action T X (Unit {0})
  stock_check res = if can_confirm res then pure tt else raise insufficient_stock

  -- The loop over the items.
  abbrev pub check_items : StoreId → List OrderItem → Action T X (Unit {0})
  check_items store_id [] = pure tt
  check_items store_id (item ∷ items) =
      (h.availability.check_product store_id item.product_id item.qty >>= stock_check)
      >> check_items store_id items

  abbrev pub publish_events : List DomainEvent → Action T X (Unit {0})
  publish_events = publish_some event_name h.marshal h.aggregate_of (insert_tx h.put)

  -- The rest of the transaction, after `order.Confirm()`.
  abbrev pub store_confirmed : Order × Option Error → Action T X (Unit {0})
  store_confirmed (o, e) = check e >> (h.orders.update_tx o >> publish_events (pop_events o).0)

  abbrev pub confirm_body : Time → Order → Action T X (Unit {0})
  confirm_body now o = h.reservations.reserve_for_order o.id >> store_confirmed (confirm now o)

  -- `if order.Status() != domain.OrderStatusDraft`
  abbrev pub draft_check : Order → Action T X (Unit {0})
  draft_check o =
      if is_draft o.status then pure tt else raise (wrapped "ConfirmOrderHandler" order_not_draft)

  abbrev pub confirm_found : Time → Order → Action T X (Unit {0})
  confirm_found now o =
      draft_check o >> (check_items o.store_id o.items >> run_tx (confirm_body now o))

  unfoldable pub confirm_order : Time → String → Action T X (Unit {0})
  unfolding confirm pop_events
  confirm_order now order_id = do
    id ← wrap_error (wrapped "ConfirmOrderHandler: invalid order id") (lift (h.parse_id order_id))
    o ← h.orders.find_by_id id
    confirm_found now o
