-- ===== src/Ordering/Order/Tests.antt =====
-- An order from draft to its end.
use florist_core.Prelude.{◌≡◌, refl, none, some, [], ◌∷◌, map, All}
use florist_core.Prelude.Int.{pos, ◌*ℤ◌, wrap64}
use florist_core.Kernel.Errors.{order_not_draft, message}
use florist_core.Kernel.Money.{Money, multiply}
use florist_core.Kernel.Types.{Uuid}
use florist_core.Ordering.Order.{
  Order, OrderItem, CustomerSnapshot, draft, shipped, new_order, item_total, event_name,
  require_draft,
}
use florist_core.Ordering.Order.Ops.{add_item_op, confirm_op, cancel_op, ship_op, apply, run}
use florist_core.Ordering.Order.Lifecycle.{IsSound, Tells, run-IsSound, run-Tells}

abbrev anna : CustomerSnapshot
anna = record { name = "Anna"; phone = "1"; email = "a@b" }

abbrev price : Money
price = record { amount = pos 250; currency = "RUB" }

abbrev line : Uuid → OrderItem
line id = record { id = id; product_id = 40; qty = pos 3; unit_price = price }

abbrev two_lines : Order
two_lines = record {
  id = 1;
  store_id = 2;
  customer = anna;
  items = line 11 ∷ line 12 ∷ [];
  status = draft;
  version = pos 0;
  created_at = pos 5;
  confirmed_at = none;
  cancelled_at = none;
  events = [];
}

abbrev on_its_way : Order
on_its_way = record two_lines { status = shipped; confirmed_at = some (pos 6) }

item_sum : item_total (line 11) ≡ record { amount = pos 750; currency = "RUB" }
unfolding item_total multiply wrap64 ◌*ℤ◌
item_sum = refl

names :
    map event_name
      (run
        (add_item_op 11 40 (pos 3) price ∷ confirm_op (pos 6) ∷ cancel_op (pos 7) "late" ∷ [])
        (new_order 1 (pos 5) 2 anna)).events
    ≡ "order.created" ∷ "order.confirmed" ∷ "order.cancelled" ∷ []
unfolding run apply new_order event_name
names = refl

shut : require_draft on_its_way ≡ some order_not_draft
unfolding require_draft
shut = refl

not_assembled :
    (apply ship_op two_lines).1 ≡ some (message "order must be assembled before shipping")
unfolding apply
not_assembled = refl

run-IsSound_example :
    IsSound
      (run (add_item_op 11 40 (pos 3) price ∷ confirm_op (pos 6) ∷ []) (new_order 1 (pos 5) 2 anna))
run-IsSound_example =
    run-IsSound (add_item_op 11 40 (pos 3) price ∷ confirm_op (pos 6) ∷ []) 1 (pos 5) 2 anna

run-Tells_example :
    All Tells
      (run
        (add_item_op 11 40 (pos 3) price ∷ cancel_op (pos 6) "late" ∷ [])
        (new_order 1 (pos 5) 2 anna)).events
run-Tells_example =
    run-Tells (add_item_op 11 40 (pos 3) price ∷ cancel_op (pos 6) "late" ∷ []) 1 (pos 5) 2 anna
