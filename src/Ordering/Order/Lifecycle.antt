-- ===== src/Ordering/Order/Lifecycle.antt =====
-- An order over its whole life.
use florist_core.Prelude.{◌≡◌, refl, ◌≢◌, ◌⊎◌, none, List, [], ◌∷◌, arith, All, All-append, append}
use florist_core.Kernel.Types.{Time, OrderId, StoreId, new_base_event}
use florist_core.Ordering.Order.{
  Order, CustomerSnapshot, draft, shipped, cancelled, DomainEvent, order_confirmed, order_cancelled,
  order_shipped, new_order,
}
use florist_core.Ordering.Order.Ops.{
  Op, confirm_op, mark_in_production_op, mark_assembled_op, ship_op, cancel_op, apply, run,
}

pub record IsSound (o : Order) : Type 0 where
  pub stocked : o.status ≢ draft → o.status ≢ cancelled → o.items ≢ []
  pub confirmation : o.status ≢ draft → o.status ≢ cancelled → o.confirmed_at ≢ none
  pub unconfirmed : o.status ≡ draft → o.confirmed_at ≡ none
  pub cancellation : (o.status ≡ cancelled → o.cancelled_at ≢ none)
  pub uncancelled : (o.status ≢ cancelled → o.cancelled_at ≡ none)

apply-IsSound : (op : Op) (o : Order) → IsSound o → IsSound (apply op o).0
unfolding apply
apply-IsSound op o v = ground arith

run-IsSound_from : (ops : List Op) (o : Order) → IsSound o → IsSound (run ops o)
unfolding run
run-IsSound_from [] o v = v
run-IsSound_from (op ∷ ops) o v = run-IsSound_from ops (apply op o).0 (apply-IsSound op o v)

-- However a new order is used, one past the draft that is not cancelled has items and a confirmation
-- time, a draft has no confirmation time, and there is a cancellation time exactly on cancelled ones.
pub run-IsSound :
    (ops : List Op) (id : OrderId) (now : Time) (s : StoreId) (c : CustomerSnapshot)
    → IsSound (run ops (new_order id now s c))
unfolding new_order
run-IsSound ops id now s c = run-IsSound_from ops (new_order id now s c) (ground arith)

-- What an event tells: a cancellation names `cancelled` itself as the status before it, and there is
-- no event of a shipment.
abbrev pub Tells : DomainEvent → Type 0
Tells (order_cancelled _ _ _ prev) = prev ≡ cancelled
Tells (order_shipped _ _) = ⊥
Tells _ = Unit

append-Tells :
    (es : List DomainEvent) (e : DomainEvent) → All Tells es → Tells e → All Tells (append es e)
append-Tells es e h k = All-append Tells es (e ∷ []) h (k, tt)

apply-Tells : (op : Op) (o : Order) → All Tells o.events → All Tells (apply op o).0.events
unfolding apply
apply-Tells (confirm_op now) o h =
    let sent =
      append-Tells o.events (order_confirmed (new_base_event "order.confirmed" now) o.id) h tt in
    ground arith
apply-Tells (cancel_op now reason) o h =
    let sent =
      append-Tells o.events
        (order_cancelled (new_base_event "order.cancelled" now) o.id reason cancelled) h refl in
    ground arith
apply-Tells _ o h = ground arith

run-Tells_from : (ops : List Op) (o : Order) → All Tells o.events → All Tells (run ops o).events
unfolding run
run-Tells_from [] o h = h
run-Tells_from (op ∷ ops) o h = run-Tells_from ops (apply op o).0 (apply-Tells op o h)

-- At no point of any order's life does it hold a shipment event, and each cancellation event that it
-- holds gives `cancelled` as the status before the cancellation.
pub run-Tells :
    (ops : List Op) (id : OrderId) (now : Time) (s : StoreId) (c : CustomerSnapshot)
    → All Tells (run ops (new_order id now s c)).events
unfolding new_order
run-Tells ops id now s c = run-Tells_from ops (new_order id now s c) (tt, tt)

-- The way of a sale: four calls.
abbrev pub sale : Time → List Op
sale now = confirm_op now ∷ mark_in_production_op ∷ mark_assembled_op ∷ ship_op ∷ []

-- A draft with items is shipped by confirming, producing, assembling and shipping it, with its items
-- as they were; a draft without items is unchanged by the same calls.
pub sale_ships :
    (now : Time) (o : Order)
    → o.status ≡ draft
    → ((o.items ≢ [])
        × ((run (sale now) o).status ≡ shipped)
        × ((run (sale now) o).items ≡ o.items))
      ⊎ ((o.items ≡ []) × (run (sale now) o ≡ o))
unfolding run apply
sale_ships now o d = ground arith
