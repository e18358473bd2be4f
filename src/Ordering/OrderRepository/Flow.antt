-- ===== src/Ordering/OrderRepository/Flow.antt =====
-- The handlers over this repository and the check of its table: what becomes of a draft.
use florist_core.Prelude.{
  ◌≡◌, ◌≢◌, sym, ◌∙◌, ap, true, inl, inr, String, Option, none, some, List, [], ◌∷◌, arith, All,
}
use florist_core.Kernel.Errors.{Error, Result, ok, err, wrapped}
use florist_core.Kernel.Errors.Cases.{err≢ok, ok_inj}
use florist_core.Kernel.Types.{OrderId, StoreId, Time}
use florist_core.Ordering.Order.{Order, OrderItem, draft}
use florist_core.Ordering.OrderTables.{OrderRow, Tables, is_allowed, find_row}
use florist_core.Ordering.OrderRepository.{
  OrderMethods, OrderItemParams, RehydrateOrderParams, status_text, order_params, save_tx,
  find_items, found, load, find_by_id,
}
use florist_core.Ordering.OrderRepository.Steps.{insert_all_ok}
use florist_core.Ordering.OrderRepository.Port.{order_repository}
use florist_core.Ordering.Confirm.{ConfirmOrderHandler, confirm_order}
use florist_core.Ordering.Confirm.Outcome.{confirm_order_atomic}
use florist_core.Storefront.Orders.{PlaceOrderHandler, PlaceOrderCommand, place_order}
use florist_core.Storefront.Orders.Outcome.{place_order_outcome}
use florist_core.Db.{Action, Session, pure, ◌>>=◌, wrap_error, pool_exec}
use florist_core.Db.Atomic.{IsIdle, bind_ok, wrap_error_ok}

-- Every row satisfies the check of the table.
abbrev pub IsChecked : List OrderRow → Type 0
IsChecked rows = All (λ r. is_allowed r.status ≡ true) rows

find_row-is_allowed :
    (id : OrderId) (rows : List OrderRow) (r : OrderRow)
    → IsChecked rows
    → find_row id rows ≡ some r
    → is_allowed r.status ≡ true
unfolding find_row
find_row-is_allowed id [] r h e = cc
find_row-is_allowed id (x ∷ rows) r h e = ground (arith, find_row-is_allowed id rows r)

-- The order is built from a row of the table.
pool_exec_ok :
    {T X A : Type 0} (f : T → A) (a : A) (s : Session T X)
    → (pool_exec (λ t. some (f t, t)) s).0 ≡ ok a
    → (f s.committed ≡ a) × ((pool_exec (λ t. some (f t, t)) s).1.committed ≡ s.committed)
unfolding pool_exec
pool_exec_ok f a s h = ground arith

module _ (m : OrderMethods) {X : Type 0} where
  found_ok :
      (id_text : String) (o : Option OrderRow) (r : OrderRow) (s : Session Tables X)
      → (found m id_text o s).0 ≡ ok r
      → o ≡ some r
  found_ok id_text none r s h = absurd (err≢ok h)
  found_ok id_text (some x) r s h = ap some (sym (ok_inj h))

  find_by_id_ok :
      (text_of_id : OrderId → String) (id : OrderId) (o : Order) (s : Session Tables X)
      → (find_by_id m text_of_id id s).0 ≡ ok o
      → (row : OrderRow) × (items : List OrderItemParams) × (find_row id s.committed.orders
          ≡ some row)
        × (o ≡ m.rehydrate_order (order_params row items))
  unfolding find_by_id
  find_by_id_ok text_of_id id o s h =
      let query : Action Tables X (Option OrderRow) =
        pool_exec (λ t. some (find_row id t.orders, t)) in
      let first = wrap_error (wrapped "OrderRepository.FindByID") query in
      let (row, done, rest, _) = bind_ok (first >>= found m (text_of_id id)) (load m) o s h in
      let (some_row, asked, hit, _) = bind_ok first (found m (text_of_id id)) row s done in
      let (answer, _) = wrap_error_ok (wrapped "OrderRepository.FindByID") query some_row s asked in
      let (same, _) = pool_exec_ok (λ (t : Tables). find_row id t.orders) some_row s answer in
      let (items, _, built, _) =
        bind_ok (find_items m row.id) (λ items. pure (m.rehydrate_order (order_params row items))) o
          ((first >>= found m (text_of_id id)) s).1 rest in
      (row, items, same ∙ found_ok (text_of_id id) some_row row (first s).1 hit, ok_inj built)

-- What a call comes to that fails and commits nothing.
abbrev pub HasFailed : {T X A : Type 0} → T → Result A × Session T X → Type 0
HasFailed before (r, s') = IsIdle s' × ((e : Error) × (r ≡ err e) × (s'.committed ≡ before))

draft_refused : is_allowed (status_text draft) ≢ true
draft_refused h = cc

module _ (m : OrderMethods) {X : Type 0} (at : Time) (text_of_id : OrderId → String) where
  save_tx_ok :
      (o : Order) (s : Session Tables X)
      → (save_tx m at o s).0 ≡ ok tt
      → is_allowed (status_text o.status) ≡ true
  unfolding save_tx
  save_tx_ok o s h = (insert_all_ok m "OrderRepository.SaveTx" at o s h).0

  -- Over the repository of orders and a table that satisfies its check, no order is ever confirmed: with no
  -- transaction open `ConfirmOrder` answers with an error and commits nothing, since only a draft is
  -- confirmed and the check allows none. An order that is built anew is a draft only if its row says so.
  pub confirm_order_fails :
      (h : ConfirmOrderHandler Tables X) (now : Time) (order_id : String) (s : Session Tables X)
      → ((p : RehydrateOrderParams)
          → (m.rehydrate_order p).status ≡ draft
          → p.status ≡ status_text draft)
      → IsIdle s
      → IsChecked s.committed.orders
      → HasFailed s.committed
          (confirm_order (record h { orders = order_repository m at text_of_id }) now order_id s)
  confirm_order_fails h now order_id s kept idle checked =
      let h' : ConfirmOrderHandler Tables X = record h {
        orders = order_repository m at text_of_id;
      } in
      let (idle', end) = confirm_order_atomic h' now order_id s idle in
      (
        idle',
        elim end [
          | inl failed ↦ failed
          | inr (id, o, _, _, hit, status, _, _, _) ↦
              let (row, items, there, built) = find_by_id_ok m text_of_id id o s hit in
              let as_row =
                kept (order_params row items) (ap (λ z. z.status) (sym built) ∙ status) in
              let allowed = find_row-is_allowed id s.committed.orders row checked there in
              absurd (draft_refused (ap is_allowed (sym as_row) ∙ allowed))
        ],
      )

  -- Over the repository of orders no order is ever placed: with no transaction open `PlaceOrder` answers
  -- with an error and commits nothing, since the draft that it saves first is refused by the check of the
  -- table. A new order is a draft.
  pub place_order_fails :
      (h : PlaceOrderHandler Tables X) (now : Time) (cmd : PlaceOrderCommand) (s : Session Tables X)
      → ((store_id : StoreId) (items : List OrderItem)
          → (h.new_order store_id items).status ≡ draft)
      → IsIdle s
      → HasFailed s.committed
          (place_order (record h { orders = order_repository m at text_of_id }) now cmd s)
  place_order_fails h now cmd s drafts idle =
      let h' : PlaceOrderHandler Tables X = record h {
        orders = order_repository m at text_of_id;
      } in
      let (idle', end) = place_order_outcome h' now cmd s idle in
      (
        idle',
        elim end [
          | inl failed ↦ failed
          | inr (o, _, (store_id, items, _, _, same), (t, _, saved, _), _) ↦
              let status = ap (λ z. z.status) same ∙ drafts store_id items in
              absurd (
                draft_refused
                  (ap (λ z. is_allowed (status_text z)) (sym status) ∙ save_tx_ok o t saved))
        ],
      )
