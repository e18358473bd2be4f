-- ===== src/Ordering/OrderRepository/Refine.antt =====
-- `Save` and `FindByID` against the store of orders.
use Prim.Native.String.{◌++◌ as ◌<>◌}
use florist_core.Prelude.{
  ◌≡◌, refl, sym, ◌∙◌, ap, true, ◌⊎◌, inl, inr, String, Option, Option-cases, none, some, List, [],
  ◌∷◌, map, arith,
}
use florist_core.Kernel.Errors.{Error, Result, ok, err, wrapped, order_not_found}
use florist_core.Kernel.Errors.Cases.{err≢ok}
use florist_core.Kernel.Types.{OrderId, Time}
use florist_core.Ordering.Order.{Order}
use florist_core.Ordering.OrderTables.{OrderRow, Tables, is_allowed, has_order, find_row, items_of}
use florist_core.Ordering.OrderRepository.{
  OrderMethods, RehydrateOrderParams, status_text, item_params, order_params, insert_all, save,
  find_by_id,
}
use florist_core.Ordering.OrderRepository.Steps.{
  item_rows, after_insert, insert_all_ok, insert_all-IsPending,
}
use florist_core.Ordering.OrderRepository.Store.{view, put, params_of, IsFresh, view-after_insert}
use florist_core.Db.{Session, begin, pool_exec}
use florist_core.Db.Atomic.{IsIdle, with_tx_atomic, begin-working}

-- What is called of an order that the store has, or not.
abbrev pub read : OrderMethods → String → Option RehydrateOrderParams → Result Order
read m id_text none = err (wrapped ("OrderRepository.FindByID " <> id_text) order_not_found)
read m id_text (some p) = ok (m.rehydrate_order p)

find_row-id :
    (id : OrderId) (orders : List OrderRow) {r : OrderRow} → find_row id orders ≡ some r → r.id ≡ id
unfolding find_row
find_row-id id [] h = cc
find_row-id id (x ∷ orders) {r = r} h = ground (arith, find_row-id id orders {r = r})

put_own :
    (id : OrderId) (p : RehydrateOrderParams) (store : OrderId → Option RehydrateOrderParams)
    → put id p store id ≡ some p
put_own id p store = ground arith

module _ (m : OrderMethods) {X : Type 0} where
  -- What `Save` of an order may come to.
  abbrev pub IsSaved : Order → Tables → Result (Unit {0}) × Session Tables X → Type 0
  IsSaved o before (r, s') =
      IsIdle s'
      × (((e : Error) × (r ≡ err e) × (s'.committed ≡ before))
          ⊎ ((r ≡ ok tt)
              × (is_allowed (status_text o.status) ≡ true)
              × (view s'.committed ≡ put o.id (params_of m o) (view before))))

  -- Whatever statements fail, `Save` of an order with no transaction open either answers with an error
  -- and commits nothing, or the check of the table allows the status, and the store that the tables stand
  -- for has the order with its lines and every other one as before. The lines have identifiers that are
  -- neither in the table nor twice in the order, and none is left of an order with its identifier.
  pub order_save_refines :
      (now : Time) (o : Order) (s : Session Tables X)
      → IsIdle s
      → items_of o.id s.committed.items ≡ []
      → IsFresh (item_rows m o.id o.items) s.committed.items
      → IsSaved o s.committed (save m now o s)
  unfolding save
  order_save_refines now o s idle none_left fresh =
      let body = insert_all m {X = X} "OrderRepository.Save insert order" now o in
      let all =
        with_tx_atomic (wrapped "OrderRepository.Save begin tx") body s
          (insert_all-IsPending m "OrderRepository.Save insert order" now o) idle in
      let w = begin-working s idle in
      (
        all.0,
        elim all.1 [
          | inl failed ↦ inl failed
          | inr (x, r, q, c) ↦
              let (allowed, new, end) =
                insert_all_ok m "OrderRepository.Save insert order" now o (begin s).1 q in
              inr (
                r,
                allowed,
                ap view (c ∙ end ∙ ap (after_insert m now o) w)
                    ∙ view-after_insert m now o s.committed
                        (ap (λ (t : Tables). has_order o.id t.orders) (sym w) ∙ new) none_left
                        fresh,
              )
        ],
      )

  -- A session whose statements are all carried out.
  abbrev quiet : Tables → Tables → X → Session Tables X
  quiet c w x = record { committed = c; working = w; outside = x; replies = [] }

  find_by_id-quiet :
      (text_of_id : OrderId → String) (id : OrderId) (c w : Tables) (x : X)
      → (find_by_id m text_of_id id (quiet c w x)).0 ≡ read m (text_of_id id) (view c id)
  unfolding find_by_id pool_exec
  find_by_id-quiet text_of_id id c w x = elim (Option-cases (find_row id c.orders)) [
    | inl e ↦ rw e refl
    | inr (row, e) ↦ rw e (
        ap (λ i. ok (m.rehydrate_order (order_params row (map item_params (items_of i c.items)))))
          (find_row-id id c.orders e))
  ]

  -- On a working database `FindByID` answers with the order that the store has, built anew from what
  -- the tables hold of it, and otherwise that there is none.
  pub find_by_id_reads :
      (text_of_id : OrderId → String) (id : OrderId) (s : Session Tables X)
      → s.replies ≡ []
      → (find_by_id m text_of_id id s).0 ≡ read m (text_of_id id) (view s.committed id)
  find_by_id_reads text_of_id id s r =
      let same : quiet s.committed s.working s.outside ≡ s = cc in
      ap (λ z. (find_by_id m text_of_id id z).0) (sym same)
      ∙ find_by_id-quiet text_of_id id s.committed s.working s.outside

  -- What `Save` has written of an order with no transaction open, `FindByID` reads back on a working
  -- database: the order is built anew from its own fields and those of its lines. The lines have
  -- identifiers that are neither in the table nor twice in the order, and none is left of an order with
  -- its identifier.
  pub find_by_id-save :
      (text_of_id : OrderId → String) (now : Time) (o : Order) (s : Session Tables X)
      → IsIdle s
      → items_of o.id s.committed.items ≡ []
      → IsFresh (item_rows m o.id o.items) s.committed.items
      → (save m now o s).0 ≡ ok tt
      → (save m now o s).1.replies ≡ []
      → (find_by_id m text_of_id o.id (save m now o s).1).0 ≡ ok (m.rehydrate_order (params_of m o))
  find_by_id-save text_of_id now o s idle none_left fresh done r =
      find_by_id_reads text_of_id o.id (save m now o s).1 r
      ∙ elim (order_save_refines now o s idle none_left fresh).1 [
        | inl (e, failed, _) ↦ absurd (err≢ok (sym failed ∙ done))
        | inr (_, _, v) ↦
            ap (λ store. read m (text_of_id o.id) (store o.id)) v
            ∙ ap (read m (text_of_id o.id)) (put_own o.id (params_of m o) (view s.committed))
      ]
