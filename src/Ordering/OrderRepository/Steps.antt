-- ===== src/Ordering/OrderRepository/Steps.antt =====
-- What the success of each step of the repository of orders says, and what no step of it does.
use florist_core.Prelude.{
  ℕ, ◌≡◌, ◌≢◌, refl, ◌∙◌, ap, true, false, String, some, List, [], ◌∷◌, map, append, arith,
}
use florist_core.Prelude.Int.{ℤ}
use florist_core.Kernel.Errors.{ok, wrapped}
use florist_core.Kernel.Types.{OrderId, Time}
use florist_core.Ordering.Order.{Order, OrderItem}
use florist_core.Ordering.OrderTables.{
  OrderRow, OrderItemRow, Tables, OrderChange, is_allowed, has_order, insert_order, update_order,
  update_rows, upsert_item, upsert_row,
}
use florist_core.Ordering.OrderRepository.{
  OrderMethods, status_text, order_row, order_change, item_row, upsert_items, insert_all,
  lock_check, update_all,
}
use florist_core.Db.{Action, Session, ◌>>=◌, wrap_error, tx_exec}
use florist_core.Db.Atomic.{
  IsPending, bind-IsPending, bind_ok, wrapped_exec_ok, wrapped_exec-IsPending,
}

-- The lines, one after the other.
abbrev pub upsert_all : List OrderItemRow → List OrderItemRow → List OrderItemRow
upsert_all [] items = items
upsert_all (row ∷ rows) items = upsert_all rows (upsert_row row items)

abbrev pub with_items : (List OrderItemRow → List OrderItemRow) → Tables → Tables
with_items f t = record t { items = f t.items }

inserted_ok :
    (row : OrderRow) (t t' : Tables)
    → insert_order row t ≡ some (tt, t')
    → (is_allowed row.status ≡ true)
      × (has_order row.id t.orders ≡ false)
      × (t' ≡ record t { orders = append t.orders row })
inserted_ok row t t' h = ground arith

upserted_ok :
    (row : OrderItemRow) (t t' : Tables)
    → upsert_item row t ≡ some (tt, t')
    → t' ≡ with_items (upsert_row row) t
upserted_ok row t t' h = ground arith

updated_ok :
    (c : OrderChange) (id : OrderId) (version : ℤ) (t t' : Tables) (n : ℕ)
    → update_order c id version t ≡ some (n, t')
    → n ≢ 0
    → (is_allowed c.status ≡ true)
      × ((update_rows c id version t.orders).0 ≢ 0)
      × (t' ≡ record t { orders = (update_rows c id version t.orders).1 })
updated_ok c id version t t' n h k = ground arith

module _ (m : OrderMethods) where
  -- The rows of the lines of an order.
  abbrev pub item_rows : OrderId → List OrderItem → List OrderItemRow
  item_rows id items = map (item_row m id) items

  -- The tables after an order is put in.
  abbrev pub after_insert : Time → Order → Tables → Tables
  after_insert now o t = record {
    orders = append t.orders (order_row m now o);
    items = upsert_all (item_rows o.id o.items) t.items;
  }

  -- The tables after an order is updated.
  abbrev pub after_update : Time → Order → Tables → Tables
  after_update now o t = record {
    orders = (update_rows (order_change m now o) o.id o.version t.orders).1;
    items = upsert_all (item_rows o.id o.items) t.items;
  }

module _ (m : OrderMethods) {X : Type 0} where
  abbrev pub insert_step : String → Time → Order → Action Tables X (Unit {0})
  insert_step label now o = wrap_error (wrapped label) (tx_exec (insert_order (order_row m now o)))

  abbrev pub update_step : String → Time → Order → Action Tables X ℕ
  update_step label now o =
      wrap_error (wrapped label) (tx_exec (update_order (order_change m now o) o.id o.version))

  upsert_items_ok :
      (id : OrderId) (items : List OrderItem) (s : Session Tables X)
      → (upsert_items m id items s).0 ≡ ok tt
      → (upsert_items m id items s).1.working
        ≡ with_items (upsert_all (item_rows m id items)) s.working
  unfolding upsert_items
  upsert_items_ok id [] s h = refl
  upsert_items_ok id (item ∷ items) s h =
      let label = wrapped "OrderRepository.upsertItems" in
      let row = item_row m id item in
      let first = wrap_error label (tx_exec {X = X} (upsert_item row)) in
      let (_, done, rest, same) = bind_ok first (λ _. upsert_items m id items) tt s h in
      let put_in = wrapped_exec_ok label (upsert_item row) tt s done in
      ap (λ z. z.working) same
      ∙ upsert_items_ok id items (first s).1 rest
      ∙ ap (with_items (upsert_all (item_rows m id items)))
          (upserted_ok row s.working (first s).1.working put_in)

  upsert_items-IsPending :
      (id : OrderId) (items : List OrderItem) → IsPending {X = X} (upsert_items m id items)
  unfolding upsert_items
  upsert_items-IsPending id [] = λ s. refl
  upsert_items-IsPending id (item ∷ items) =
      bind-IsPending _ _ (wrapped_exec-IsPending _ _) (λ _. upsert_items-IsPending id items)

  pub insert_all_ok :
      (label : String) (now : Time) (o : Order) (s : Session Tables X)
      → (insert_all m label now o s).0 ≡ ok tt
      → (is_allowed (status_text o.status) ≡ true)
        × (has_order o.id s.working.orders ≡ false)
        × ((insert_all m label now o s).1.working ≡ after_insert m now o s.working)
  insert_all_ok label now o s h =
      let step = insert_step label now o in
      let (_, done, rest, same) = bind_ok step (λ _. upsert_items m o.id o.items) tt s h in
      let put_in = wrapped_exec_ok (wrapped label) (insert_order (order_row m now o)) tt s done in
      let (allowed, new, e) = inserted_ok (order_row m now o) s.working (step s).1.working put_in in
      (
        allowed,
        new,
        ap (λ z. z.working) same
            ∙ upsert_items_ok o.id o.items (step s).1 rest
            ∙ ap (with_items (upsert_all (item_rows m o.id o.items))) e,
      )

  pub insert_all-IsPending :
      (label : String) (now : Time) (o : Order) → IsPending {X = X} (insert_all m label now o)
  insert_all-IsPending label now o =
      bind-IsPending {B = Unit {0}} (insert_step label now o) (λ _. upsert_items m o.id o.items)
        (wrapped_exec-IsPending (wrapped label) (insert_order (order_row m now o)))
        (λ _. upsert_items-IsPending o.id o.items)

  lock_check_ok :
      (label : String) (n : ℕ) (s : Session Tables X) {x : Unit {0}}
      → (lock_check m label n s).0 ≡ ok x
      → (n ≢ 0) × ((lock_check m label n s).1 ≡ s)
  lock_check_ok label n s h = ground arith

  lock_check-IsPending : (label : String) (n : ℕ) → IsPending {X = X} (lock_check m label n)
  lock_check-IsPending label n s = ground arith

  pub update_all_ok :
      (label : String) (now : Time) (o : Order) (s : Session Tables X)
      → (update_all m label now o s).0 ≡ ok tt
      → (is_allowed (status_text o.status) ≡ true)
        × ((update_rows (order_change m now o) o.id o.version s.working.orders).0 ≢ 0)
        × ((update_all m label now o s).1.working ≡ after_update m now o s.working)
  update_all_ok label now o s h =
      let step = update_step label now o in
      let checked = step >>= lock_check m label in
      let (_, done, rest, same) = bind_ok checked (λ _. upsert_items m o.id o.items) tt s h in
      let (n, counted, passed, same2) = bind_ok step (lock_check m label) tt s done in
      let (met, same3) = lock_check_ok label n (step s).1 passed in
      let set =
        wrapped_exec_ok (wrapped label) (update_order (order_change m now o) o.id o.version) n s
          counted in
      let (allowed, hit, e) =
        updated_ok (order_change m now o) o.id o.version s.working (step s).1.working n set met in
      (
        allowed,
        hit,
        ap (λ z. z.working) same
            ∙ upsert_items_ok o.id o.items (checked s).1 rest
            ∙ ap (λ z. with_items (upsert_all (item_rows m o.id o.items)) z.working) (same2 ∙ same3)
            ∙ ap (with_items (upsert_all (item_rows m o.id o.items))) e,
      )

  pub update_all-IsPending :
      (label : String) (now : Time) (o : Order) → IsPending {X = X} (update_all m label now o)
  update_all-IsPending label now o =
      let checked : IsPending (update_step label now o >>= lock_check m label) =
        bind-IsPending {B = Unit {0}} (update_step label now o) (lock_check m label)
          (wrapped_exec-IsPending (wrapped label)
            (update_order (order_change m now o) o.id o.version))
          (lock_check-IsPending label) in
      bind-IsPending {B = Unit {0}} (update_step label now o >>= lock_check m label)
        (λ _. upsert_items m o.id o.items) checked (λ _. upsert_items-IsPending o.id o.items)
