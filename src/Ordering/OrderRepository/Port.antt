-- ===== src/Ordering/OrderRepository/Port.antt =====
-- The repository of orders as the port that the application's handlers take.
use florist_core.Prelude.{ℕ, map, ◌≡◌, refl, String, Option, none, some, List, [], ◌∷◌, arith}
use florist_core.Kernel.Errors.{Error, Result, ok, err, wrapped}
use florist_core.Kernel.Types.{OrderId, Time}
use florist_core.Ordering.Order.{Order, OrderItem}
use florist_core.Ordering.OrderTables.{
  Tables, OrderRow, insert_order, update_order, upsert_item, find_row, items_of,
}
use florist_core.Ordering.OrderRepository.{
  OrderMethods, order_row, order_change, item_row, upsert_items, lock_check, save_tx, update_tx,
  find_items, found, load, find_by_id, item_params,
}
use florist_core.Ordering.OrderRepository.Steps.{
  insert_step, update_step, insert_all-IsPending, update_all-IsPending,
}
use florist_core.Ordering.Confirm.{OrderRepository, IsQuery, IsInside}
use florist_core.Ordering.Confirm.Checks.{bind-IsQuery}
use florist_core.Ordering.Confirm.Inside.{bind-IsInside, tx_exec-IsInside}
use florist_core.Db.{Action, Session, ◌>>=◌, wrap_error, relabel, pool_exec, tx_exec}
use florist_core.Db.Atomic.{IsPending}

wrap_error-IsInside :
    {T X A : Type 0} (label : Error → Error) (q : Action T X A)
    → IsInside q
    → IsInside (wrap_error label q)
wrap_error-IsInside {T} {X} {A} label q h s = go (q s) (h s)
  where
    go :
        (r : Result A × Session T X)
        → r.1.outside ≡ s.outside
        → (relabel label r).1.outside ≡ s.outside
    go (ok a, s') e = e
    go (err x, s') e = e

-- A statement that only reads.
read-IsQuery :
    {T X A : Type 0} (label : Error → Error) (f : T → A)
    → IsQuery {X = X} (wrap_error label (pool_exec (λ t. some (f t, t))))
unfolding pool_exec
read-IsQuery label f s = ground arith

module _ (m : OrderMethods) {X : Type 0} where
  upsert_items-IsInside :
      (id : OrderId) (items : List OrderItem) → IsInside {X = X} (upsert_items m id items)
  unfolding upsert_items
  upsert_items-IsInside id [] = λ s. refl
  upsert_items-IsInside id (item ∷ items) =
      let label = wrapped "OrderRepository.upsertItems" in
      bind-IsInside {B = Unit {0}} (wrap_error label (tx_exec (upsert_item (item_row m id item))))
        (λ _. upsert_items m id items)
        (wrap_error-IsInside label (tx_exec (upsert_item (item_row m id item)))
          (tx_exec-IsInside (upsert_item (item_row m id item))))
        (λ _. upsert_items-IsInside id items)

  lock_check-IsInside : (label : String) (n : ℕ) → IsInside {X = X} (lock_check m label n)
  lock_check-IsInside label n s = ground arith

  pub save_tx-IsPending : (now : Time) (o : Order) → IsPending {X = X} (save_tx m now o)
  unfolding save_tx
  save_tx-IsPending now o = insert_all-IsPending m "OrderRepository.SaveTx" now o

  pub update_tx-IsPending : (now : Time) (o : Order) → IsPending {X = X} (update_tx m now o)
  unfolding update_tx
  update_tx-IsPending now o = update_all-IsPending m "OrderRepository.UpdateTx" now o

  pub save_tx-IsInside : (now : Time) (o : Order) → IsInside {X = X} (save_tx m now o)
  unfolding save_tx
  save_tx-IsInside now o =
      let q = tx_exec {X = X} (insert_order (order_row m now o)) in
      bind-IsInside {B = Unit {0}} (insert_step m "OrderRepository.SaveTx" now o)
        (λ _. upsert_items m o.id o.items)
        (wrap_error-IsInside (wrapped "OrderRepository.SaveTx") q
          (tx_exec-IsInside (insert_order (order_row m now o))))
        (λ _. upsert_items-IsInside o.id o.items)

  pub update_tx-IsInside : (now : Time) (o : Order) → IsInside {X = X} (update_tx m now o)
  unfolding update_tx
  update_tx-IsInside now o =
      let label : String = "OrderRepository.UpdateTx" in
      let set = update_order (order_change m now o) o.id o.version in
      let checked : IsInside (update_step m {X = X} label now o >>= lock_check m label) =
        bind-IsInside {B = Unit {0}} (update_step m label now o) (lock_check m label)
          (wrap_error-IsInside (wrapped label) (tx_exec set) (tx_exec-IsInside set))
          (lock_check-IsInside label) in
      bind-IsInside {B = Unit {0}} (update_step m label now o >>= lock_check m label)
        (λ _. upsert_items m o.id o.items) checked (λ _. upsert_items-IsInside o.id o.items)

  found-IsQuery : (id_text : String) (row : Option OrderRow) → IsQuery {X = X} (found m id_text row)
  found-IsQuery id_text none s = (refl, refl, refl)
  found-IsQuery id_text (some row) s = (refl, refl, refl)

  load-IsQuery : (row : OrderRow) → IsQuery {X = X} (load m row)
  load-IsQuery row =
      bind-IsQuery {B = Order} (find_items m row.id) _
        (read-IsQuery (wrapped "OrderRepository.findItems")
          (λ (t : Tables). map item_params (items_of row.id t.items)))
        (λ items s. (refl, refl, refl))

  pub find_by_id-IsQuery :
      (text_of_id : OrderId → String) (id : OrderId) → IsQuery {X = X} (find_by_id m text_of_id id)
  unfolding find_by_id
  find_by_id-IsQuery text_of_id id =
      let row : Action Tables X (Option OrderRow) =
        wrap_error (wrapped "OrderRepository.FindByID")
          (pool_exec (λ t. some (find_row id t.orders, t))) in
      bind-IsQuery {B = Order} (row >>= found m (text_of_id id)) (load m)
        (bind-IsQuery {B = OrderRow} row (found m (text_of_id id))
          (read-IsQuery (wrapped "OrderRepository.FindByID") (λ (t : Tables). find_row id t.orders))
          (found-IsQuery (text_of_id id)))
        load-IsQuery

  -- The laws that the port asks for hold of the repository.
  abbrev pub order_repository : Time → (OrderId → String) → OrderRepository Tables X
  order_repository now text_of_id = record {
    find_by_id = find_by_id m text_of_id;
    save_tx = save_tx m now;
    update_tx = update_tx m now;
    find_by_id-IsQuery = find_by_id-IsQuery text_of_id;
    save_tx-IsPending = save_tx-IsPending now;
    save_tx-IsInside = save_tx-IsInside now;
    update_tx-IsPending = update_tx-IsPending now;
    update_tx-IsInside = update_tx-IsInside now;
  }
