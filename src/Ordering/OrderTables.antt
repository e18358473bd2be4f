-- ===== src/Ordering/OrderTables.antt =====
-- The tables `orders` and `order_items` of migrations/001_init.up.sql with the statements of
-- internal/ordering/infrastructure/postgres/order_repository.go. A status is the column's text. What the
-- database may refuse besides the two checks, the keys and a line without its order is a statement that is not
-- carried out.
use florist_core.Prelude.{
  ℕ, suc, Bool, false, not, String, Option, none, some, List, [], ◌∷◌, append, ◌==◌, ◌&&◌, ◌||◌,
  str_eq, if◌then◌else◌,
}
use florist_core.Prelude.Int.{ℤ, pos, ◌+ℤ◌, eq_ℤ, leb_ℤ}
use florist_core.Kernel.Types.{Uuid, OrderId, StoreId, ProductId, Time}
use florist_core.Db.{Statement}

pub record OrderRow : Type 0 where
  pub id : OrderId
  pub store_id : StoreId
  pub customer_id : Uuid
  pub status : String
  pub total_price : ℤ
  pub currency : String
  pub notes : Option String
  pub version : ℤ
  pub created_at : Time
  pub updated_at : Time

pub record OrderItemRow : Type 0 where
  pub id : Uuid
  pub order_id : OrderId
  pub product_id : ProductId
  pub ingredient_id : Uuid
  pub qty : ℤ
  pub unit : String
  pub unit_price : ℤ
  pub currency : String
  pub batch_id : Option Uuid
  pub reserved : Bool

pub record Tables : Type 0 where
  pub orders : List OrderRow
  pub items : List OrderItemRow

-- `CHECK (status IN ('pending', 'confirmed', 'cancelled', 'shipped', 'completed'))`
abbrev pub is_allowed : String → Bool
is_allowed status =
    str_eq status "pending"
    || (str_eq status "confirmed"
        || (str_eq status "cancelled" || (str_eq status "shipped" || str_eq status "completed")))

abbrev pub has_order : OrderId → List OrderRow → Bool
has_order id [] = false
has_order id (r ∷ rows) = r.id == id || has_order id rows

-- `INSERT INTO orders`, with the default times of the row.
abbrev pub insert_order : OrderRow → Statement Tables (Unit {0})
insert_order row t =
    if is_allowed row.status && not (has_order row.id t.orders)
    then some (tt, record t { orders = append t.orders row })
    else none

-- What an update of an order sets.
pub record OrderChange : Type 0 where
  pub status : String
  pub total_price : ℤ
  pub notes : Option String
  pub updated_at : Time

abbrev pub changed : OrderChange → OrderRow → OrderRow
changed c r = record r {
  status = c.status;
  total_price = c.total_price;
  notes = c.notes;
  version = r.version +ℤ pos 1;
  updated_at = c.updated_at;
}

-- `UPDATE orders SET … WHERE id = $4 AND version = $5`: the rows affected, and the table.
unfoldable pub update_rows : OrderChange → OrderId → ℤ → List OrderRow → ℕ × List OrderRow
update_rows c id version [] = (0, [])
update_rows c id version (r ∷ rows) =
    let (n, rest) = update_rows c id version rows in
    if r.id == id && eq_ℤ r.version version then (suc n, changed c r ∷ rest) else (n, r ∷ rest)

abbrev pub accept : OrderChange → Tables → ℕ × List OrderRow → Option (ℕ × Tables)
accept c t (n, rows) =
    if n == 0 || is_allowed c.status then some (n, record t { orders = rows }) else none

abbrev pub update_order : OrderChange → OrderId → ℤ → Statement Tables ℕ
update_order c id version t = accept c t (update_rows c id version t.orders)

-- `INSERT INTO order_items … ON CONFLICT (id) DO UPDATE SET batch_id = …, reserved = …`
unfoldable pub upsert_row : OrderItemRow → List OrderItemRow → List OrderItemRow
upsert_row row [] = row ∷ []
upsert_row row (r ∷ rows) =
    let rest = upsert_row row rows in
    if r.id == row.id
    then record r { batch_id = row.batch_id; reserved = row.reserved } ∷ rows
    else r ∷ rest

abbrev pub has_item : Uuid → List OrderItemRow → Bool
has_item id [] = false
has_item id (r ∷ rows) = r.id == id || has_item id rows

-- The check of the quantity comes before the conflict is looked for, the order is asked for by an insertion
-- only.
abbrev pub upsert_item : OrderItemRow → Statement Tables (Unit {0})
upsert_item row t =
    if not (leb_ℤ row.qty (pos 0)) && (has_item row.id t.items || has_order row.order_id t.orders)
    then some (tt, record t { items = upsert_row row t.items })
    else none

-- `SELECT … FROM orders WHERE id = $1`
unfoldable pub find_row : OrderId → List OrderRow → Option OrderRow
find_row id [] = none
find_row id (r ∷ rows) = if r.id == id then some r else find_row id rows

-- `SELECT … FROM order_items WHERE order_id = $1`
unfoldable pub items_of : OrderId → List OrderItemRow → List OrderItemRow
items_of id [] = []
items_of id (r ∷ rows) = let rest = items_of id rows in if r.order_id == id then r ∷ rest else rest
