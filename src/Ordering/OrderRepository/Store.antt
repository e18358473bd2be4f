-- ===== src/Ordering/OrderRepository/Store.antt =====
-- The two tables as one store of orders, each as `FindByID` reads it.
use mathlib.Core.Path.{fun_ext}
use florist_core.Prelude.{
  ◌≡◌, refl, sym, ◌∙◌, ap, false, Bool-cases, inl, inr, String, Option, none, some, List, [], ◌∷◌,
  ◌++◌, map, append, append_assoc, append_nil, ◌==◌, ◌||◌, if◌then◌else◌, arith, str_eq_iff,
}
use florist_core.Kernel.Types.{Uuid, OrderId, Time}
use florist_core.Ordering.Order.{Order, OrderItem}
use florist_core.Ordering.OrderTables.{
  OrderRow, OrderItemRow, Tables, has_order, has_item, find_row, items_of, upsert_row,
}
use florist_core.Ordering.OrderRepository.{
  OrderMethods, OrderItemParams, RehydrateOrderParams, status_text, ptr_str, nilable_str,
  nilable_id, id_or_zero, item_params, order_params, order_row,
}
use florist_core.Ordering.OrderRepository.Steps.{upsert_all, item_rows, after_insert}

abbrev pub view_row : Option OrderRow → List OrderItemRow → Option RehydrateOrderParams
view_row none items = none
view_row (some rw) items = some (order_params rw (map item_params items))

-- The store that the tables stand for: what is read of an order, or none.
abbrev pub view : Tables → OrderId → Option RehydrateOrderParams
view t id = view_row (find_row id t.orders) (items_of id t.items)

-- The store with one order put in.
abbrev pub put :
    OrderId
    → RehydrateOrderParams
    → (OrderId → Option RehydrateOrderParams)
    → OrderId
    → Option RehydrateOrderParams
put id p store j = if j == id then some p else store j

module _ (m : OrderMethods) where
  abbrev pub params_of_item : OrderItem → OrderItemParams
  params_of_item item = record {
    id = item.id;
    product_id = item.product_id;
    ingredient_id = m.ingredient_id item;
    qty = item.qty;
    unit = m.unit item;
    unit_price = item.unit_price;
    batch_id = m.batch_id item;
    reserved = m.reserved item;
  }

  -- An order as it is to be read back.
  abbrev pub params_of : Order → RehydrateOrderParams
  params_of o = record {
    id = o.id;
    store_id = o.store_id;
    customer_id = m.customer_id o;
    status = status_text o.status;
    total_price = m.total_price o;
    notes = m.notes o;
    items = map params_of_item o.items;
    version = o.version;
  }

-- No line has an identifier of the table, or that of another line.
abbrev pub IsFresh : List OrderItemRow → List OrderItemRow → Type 0
IsFresh [] items = Unit
IsFresh (row ∷ rows) items =
    (has_item row.id items ≡ false) × (has_item row.id rows ≡ false) × IsFresh rows items

upsert_row_new :
    (row : OrderItemRow) (items : List OrderItemRow)
    → has_item row.id items ≡ false
    → upsert_row row items ≡ append items row
unfolding upsert_row
upsert_row_new row [] h = refl
upsert_row_new row (x ∷ items) h = ground (arith, upsert_row_new row items)

has_item-append :
    (id : Uuid) (items : List OrderItemRow) (row : OrderItemRow)
    → has_item id (append items row) ≡ (has_item id items || row.id == id)
has_item-append id [] row = ground arith
has_item-append id (x ∷ items) row = ground (arith, has_item-append id items row)

IsFresh-append :
    (rows items : List OrderItemRow) (row : OrderItemRow)
    → has_item row.id rows ≡ false
    → IsFresh rows items
    → IsFresh rows (append items row)
IsFresh-append [] items row h k = tt
IsFresh-append (r ∷ rows) items row h k = (
  ground (arith, has_item-append r.id items row),
  k.1,
  IsFresh-append rows items row (ground arith) k.2,
)

upsert_all_new :
    (rows items : List OrderItemRow) → IsFresh rows items → upsert_all rows items ≡ items ++ rows
upsert_all_new [] items h = sym (append_nil items)
upsert_all_new (row ∷ rows) items h =
    ap (upsert_all rows) (upsert_row_new row items h.0)
    ∙ upsert_all_new rows (append items row) (IsFresh-append rows items row h.1 h.2)
    ∙ append_assoc items (row ∷ []) rows

items_of-append :
    (id : OrderId) (xs ys : List OrderItemRow)
    → items_of id (xs ++ ys) ≡ items_of id xs ++ items_of id ys
unfolding items_of
items_of-append id [] ys = refl
items_of-append id (x ∷ xs) ys = ground (arith, items_of-append id xs ys)

items_of-item_rows :
    (m : OrderMethods) (j id : OrderId) (items : List OrderItem)
    → items_of j (item_rows m id items) ≡ (if j == id then item_rows m id items else [])
unfolding items_of
items_of-item_rows m j id [] = ground arith
items_of-item_rows m j id (x ∷ items) = ground (arith, items_of-item_rows m j id items)

find_row_absent :
    (j : OrderId) (orders : List OrderRow) → has_order j orders ≡ false → find_row j orders ≡ none
unfolding find_row
find_row_absent j [] h = refl
find_row_absent j (r ∷ orders) h = ground (arith, find_row_absent j orders)

find_row-append :
    (j : OrderId) (orders : List OrderRow) (row : OrderRow)
    → has_order row.id orders ≡ false
    → find_row j (append orders row) ≡ (if j == row.id then some row else find_row j orders)
unfolding find_row
find_row-append j [] row h = ground arith
find_row-append j (r ∷ orders) row h = ground (arith, find_row-append j orders row)

pub notes_back : (s : String) → ptr_str (nilable_str s) ≡ s
unfolding ptr_str nilable_str
notes_back s = ground (arith, str_eq_iff s "")

id_back : (id : Uuid) → id_or_zero (nilable_id id) ≡ id
id_back id = ground arith

items_back :
    (m : OrderMethods) (id : OrderId) (items : List OrderItem)
    → map item_params (item_rows m id items) ≡ map (params_of_item m) items
items_back m id [] = refl
items_back m id (x ∷ items) =
    ap (λ b. record (params_of_item m x) { batch_id = b } ∷ map item_params (item_rows m id items))
      (id_back (m.batch_id x))
    ∙ ap (λ l. params_of_item m x ∷ l) (items_back m id items)

order_back :
    (m : OrderMethods) (now : Time) (o : Order)
    → order_params (order_row m now o) (map item_params (item_rows m o.id o.items)) ≡ params_of m o
order_back m now o =
    ap (λ l. order_params (order_row m now o) l) (items_back m o.id o.items)
    ∙ ap (λ s. record (params_of m o) { notes = s }) (notes_back (m.notes o))

-- The store after an order with fresh lines is put in.
pub view-after_insert :
    (m : OrderMethods) (now : Time) (o : Order) (t : Tables)
    → has_order o.id t.orders ≡ false
    → items_of o.id t.items ≡ []
    → IsFresh (item_rows m o.id o.items) t.items
    → view (after_insert m now o t) ≡ put o.id (params_of m o) (view t)
view-after_insert m now o t new none_left fresh = fun_ext λ j.
    rw
      (
        find_row-append j t.orders (order_row m now o) new,
        upsert_all_new (item_rows m o.id o.items) t.items fresh,
        items_of-append j t.items (item_rows m o.id o.items),
        items_of-item_rows m j o.id o.items,
      )
      (elim (Bool-cases (j == o.id)) [
        | inr e ↦ rw (e, append_nil (items_of j t.items)) refl
        | inl e ↦
            let same : j ≡ o.id = ground arith in
            let left : items_of j t.items ≡ [] = ap (λ i. items_of i t.items) same ∙ none_left in
            rw (e, left) (ap some (order_back m now o))
      ])
