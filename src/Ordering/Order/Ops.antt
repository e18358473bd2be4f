-- ===== src/Ordering/Order/Ops.antt =====
-- The methods of `*Order` as one type of calls, for what holds over any sequence of them.
use florist_core.Prelude.{String, Option, none, List, [], ◌∷◌}
use florist_core.Prelude.Int.{ℤ}
use florist_core.Kernel.Errors.{Error}
use florist_core.Kernel.Money.{Money}
use florist_core.Kernel.Types.{Uuid, ProductId, Time}
use florist_core.Ordering.Order.{
  Order, add_item, remove_item, confirm, mark_in_production, mark_assembled, ship, cancel,
  pop_events,
}

pub data Op : Type 0 where
  add_item_op : Uuid → ProductId → ℤ → Money → Op
  remove_item_op : ProductId → Op
  confirm_op : Time → Op
  mark_in_production_op : Op
  mark_assembled_op : Op
  ship_op : Op
  cancel_op : Time → String → Op
  pop_op : Op

unfoldable pub apply : Op → Order → Order × Option Error
unfolding add_item remove_item confirm mark_in_production mark_assembled ship cancel pop_events
apply (add_item_op id product_id qty unit_price) o = add_item id product_id qty unit_price o
apply (remove_item_op product_id) o = remove_item product_id o
apply (confirm_op now) o = confirm now o
apply mark_in_production_op o = mark_in_production o
apply mark_assembled_op o = mark_assembled o
apply ship_op o = ship o
apply (cancel_op now reason) o = cancel now reason o
apply pop_op o = ((pop_events o).1, none)

-- The order after the calls, whatever each of them returned.
unfoldable pub run : List Op → Order → Order
run [] o = o
run (op ∷ ops) o = run ops (apply op o).0
