-- ===== src/Ordering/OrderRepository/Update.antt =====
-- `Update` of an order, and the lines that it leaves.
use mathlib.Core.Path.{subst}
use florist_core.Prelude.{
  ◌≡◌, ◌≢◌, refl, sym, ◌∙◌, ap, true, false, Bool-cases, ◌⊎◌, inl, inr, Option, none, some, List,
  [], ◌∷◌, ◌==◌, if◌then◌else◌, arith,
}
use florist_core.Prelude.Int.{ℤ, pos, ◌+ℤ◌, eq_ℤ, eq_of_parts}
use florist_core.Kernel.Errors.{Error, Result, ok, err, wrapped}
use florist_core.Kernel.Types.{Uuid, OrderId, Time}
use florist_core.Ordering.Order.{Order}
use florist_core.Ordering.OrderTables.{
  OrderRow, OrderItemRow, Tables, OrderChange, changed, has_order, is_allowed, update_rows,
  upsert_row, find_row,
}
use florist_core.Ordering.OrderRepository.{
  OrderMethods, status_text, ptr_str, order_change, update_all, update,
}
use florist_core.Ordering.OrderRepository.Store.{notes_back}
use florist_core.Ordering.OrderRepository.Steps.{
  upsert_all, item_rows, after_update, update_all_ok, update_all-IsPending,
}
use florist_core.Db.{Session, begin}
use florist_core.Db.Atomic.{IsIdle, with_tx_atomic, begin-working}

-- No two rows have one identifier.
abbrev pub NodupIds : List OrderRow → Type 0
NodupIds [] = Unit
NodupIds (r ∷ rows) = (has_order r.id rows ≡ false) × NodupIds rows

update_rows_absent :
    (c : OrderChange) (id : OrderId) (v : ℤ) (rows : List OrderRow)
    → has_order id rows ≡ false
    → update_rows c id v rows ≡ (0, rows)
unfolding update_rows
update_rows_absent c id v [] h = refl
update_rows_absent c id v (r ∷ rows) h = ground (arith, update_rows_absent c id v rows)

-- What an update that meets a row makes of the row of an order.
abbrev pub row_after :
    OrderChange → OrderId → OrderId → Option OrderRow → Option OrderRow → Option OrderRow
row_after c id j none old = old
row_after c id j (some r) old = if j == id then some (changed c r) else old

abbrev pub IsVersion : ℤ → Option OrderRow → Type 0
IsVersion v none = ⊥
IsVersion v (some r) = eq_ℤ r.version v ≡ true

update_rows_hit :
    (c : OrderChange) (id : OrderId) (v : ℤ) (j : OrderId) (rows : List OrderRow)
    → NodupIds rows
    → (update_rows c id v rows).0 ≢ 0
    → IsVersion v (find_row id rows)
      × (find_row j (update_rows c id v rows).1
          ≡ row_after c id j (find_row id rows) (find_row j rows))
unfolding update_rows find_row
update_rows_hit c id v j [] u h = absurd (h refl)
update_rows_hit c id v j (r ∷ rows) u h =
    ground (arith, update_rows_absent c id v rows, update_rows_hit c id v j rows u.1)

abbrev pub find_item : Uuid → List OrderItemRow → Option OrderItemRow
find_item id [] = none
find_item id (r ∷ rows) = let rest = find_item id rows in if r.id == id then some r else rest

-- A line that was there is still there, and nothing but its batch and its reservation has changed.
abbrev pub IsKept : Option OrderItemRow → Option OrderItemRow → Type 0
IsKept none new = Unit
IsKept (some r) none = ⊥
IsKept (some r) (some r') = r' ≡ record r { batch_id = r'.batch_id; reserved = r'.reserved }

IsKept-refl : (old : Option OrderItemRow) → IsKept old old
IsKept-refl none = tt
IsKept-refl (some r) = refl

IsKept-trans : (a b c : Option OrderItemRow) → IsKept a b → IsKept b c → IsKept a c
IsKept-trans none b c h k = tt
IsKept-trans (some r) none c h k = absurd h
IsKept-trans (some r) (some r') none h k = k
IsKept-trans (some r) (some r') (some r'') h k =
    k ∙ ap (λ (x : OrderItemRow). record x { batch_id = r''.batch_id; reserved = r''.reserved }) h

upsert_row-IsKept :
    (id : Uuid) (row : OrderItemRow) (rows : List OrderItemRow)
    → IsKept (find_item id rows) (find_item id (upsert_row row rows))
unfolding upsert_row
upsert_row-IsKept id row [] = tt
upsert_row-IsKept id row (r ∷ rows) = elim (Bool-cases (r.id == row.id)) [
  | inl e ↦ elim (Bool-cases (r.id == id)) [
    | inl e' ↦ rw (e, e') refl
    | inr e' ↦ rw (e, e') (IsKept-refl (find_item id rows))
  ]
  | inr e ↦ elim (Bool-cases (r.id == id)) [
    | inl e' ↦ rw (e, e') refl
    | inr e' ↦ rw (e, e') (upsert_row-IsKept id row rows)
  ]
]

upsert_all-IsKept :
    (id : Uuid) (rows items : List OrderItemRow)
    → IsKept (find_item id items) (find_item id (upsert_all rows items))
upsert_all-IsKept id [] items = IsKept-refl (find_item id items)
upsert_all-IsKept id (row ∷ rows) items =
    IsKept-trans (find_item id items) (find_item id (upsert_row row items))
      (find_item id (upsert_all rows (upsert_row row items))) (upsert_row-IsKept id row items)
      (upsert_all-IsKept id rows (upsert_row row items))

module _ (m : OrderMethods) where
  -- The row `r'` is the row `r` with what the order says, at the next version.
  abbrev pub IsRowOf : Time → Order → OrderRow → OrderRow → Type 0
  IsRowOf now o r r' =
      (r'.id ≡ r.id)
      × (r'.store_id ≡ r.store_id)
      × (r'.customer_id ≡ r.customer_id)
      × (r'.status ≡ status_text o.status)
      × (r'.total_price ≡ (m.total_price o).amount)
      × (r'.currency ≡ r.currency)
      × (ptr_str r'.notes ≡ m.notes o)
      × (r'.version ≡ r.version +ℤ pos 1)
      × (r'.created_at ≡ r.created_at)
      × (r'.updated_at ≡ now)

  -- The row of the order was there at the version that the order was read at, and is there as the order says.
  abbrev pub IsRowWritten : Time → Order → Option OrderRow → Option OrderRow → Type 0
  IsRowWritten now o (some r) (some r') = (r.version ≡ o.version) × IsRowOf now o r r'
  IsRowWritten now o _ _ = ⊥

  -- What a successful `Update` of an order makes of the tables.
  abbrev pub IsWritten : Time → Order → Tables → Tables → Type 0
  IsWritten now o before after =
      (is_allowed (status_text o.status) ≡ true)
      × IsRowWritten now o (find_row o.id before.orders) (find_row o.id after.orders)
      × ((j : OrderId) → j ≢ o.id → find_row j after.orders ≡ find_row j before.orders)
      × ((id : Uuid) → IsKept (find_item id before.items) (find_item id after.items))

  own_row :
      (c : OrderChange) (id : OrderId) (r : OrderRow) (old : Option OrderRow)
      → row_after c id id (some r) old ≡ some (changed c r)
  own_row c id r old = ground arith

  row_written :
      (now : Time) (o : Order) (old : Option OrderRow)
      → IsVersion o.version old
      → IsRowWritten now o old (row_after (order_change m now o) o.id o.id old old)
  row_written now o none v = absurd v
  row_written now o (some r) v =
      subst (IsRowWritten now o (some r)) (sym (own_row (order_change m now o) o.id r (some r))) (
        eq_of_parts r.version o.version (ground arith),
        (refl, refl, refl, refl, refl, refl, notes_back (m.notes o), refl, refl, refl),
      )

  others_kept :
      (c : OrderChange) (id j : OrderId) (hit old : Option OrderRow)
      → j ≢ id
      → row_after c id j hit old ≡ old
  others_kept c id j none old ne = refl
  others_kept c id j (some r) old ne = ground arith

  set_after :
      (now : Time) (o : Order) (t : Tables)
      → NodupIds t.orders
      → is_allowed (status_text o.status) ≡ true
      → (update_rows (order_change m now o) o.id o.version t.orders).0 ≢ 0
      → IsWritten now o t (after_update m now o t)
  set_after now o t u allowed hit =
      let c = order_change m now o in
      let old = find_row o.id t.orders in
      let (v, same) = update_rows_hit c o.id o.version o.id t.orders u hit in
      (
        allowed,
        subst (IsRowWritten now o old) (sym same) (row_written now o old v),
        λ j ne.
            (update_rows_hit c o.id o.version j t.orders u hit).1
            ∙ others_kept c o.id j old (find_row j t.orders) ne,
        λ id. upsert_all-IsKept id (item_rows m o.id o.items) t.items,
      )

module _ (m : OrderMethods) {X : Type 0} where
  -- What `Update` of an order may come to.
  abbrev pub IsOrderUpdated : Time → Order → Tables → Result (Unit {0}) × Session Tables X → Type 0
  IsOrderUpdated now o before (r, s') =
      IsIdle s'
      × (((e : Error) × (r ≡ err e) × (s'.committed ≡ before))
          ⊎ ((r ≡ ok tt) × IsWritten m now o before s'.committed))

  -- Whatever statements fail, `Update` of an order with no transaction open, over a table of orders with
  -- different identifiers, either answers with an error and commits nothing, or the check of the table
  -- allows the status, the order was there at the version that it was read at, its row has the status,
  -- the price's amount and the notes of the order, the time of the update, the next version and is
  -- otherwise as it was, and every other order's row is as before. But every line of the table stays,
  -- also one that the order no longer has, and of a line that was there only the batch and the
  -- reservation are written.
  pub order_update_keeps_lines :
      (now : Time) (o : Order) (s : Session Tables X)
      → IsIdle s
      → NodupIds s.committed.orders
      → IsOrderUpdated now o s.committed (update m now o s)
  unfolding update
  order_update_keeps_lines now o s idle u =
      let body = update_all m {X = X} "OrderRepository.Update" now o in
      let all =
        with_tx_atomic (wrapped "OrderRepository.Update begin tx") body s
          (update_all-IsPending m "OrderRepository.Update" now o) idle in
      let w = begin-working s idle in
      (
        all.0,
        elim all.1 [
          | inl failed ↦ inl failed
          | inr (x, r, q, c) ↦
              let (allowed, hit, end) =
                update_all_ok m "OrderRepository.Update" now o (begin s).1 q in
              let met =
                subst
                  (λ (t : Tables).
                    (update_rows (order_change m now o) o.id o.version t.orders).0 ≢ 0)
                  w hit in
              inr (
                r,
                subst (IsWritten m now o s.committed) (sym (c ∙ end ∙ ap (after_update m now o) w))
                    (set_after m now o s.committed u allowed met),
              )
        ],
      )
