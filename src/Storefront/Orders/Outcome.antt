-- ===== src/Storefront/Orders/Outcome.antt =====
-- What the placing of an order may come to.
use mathlib.Core.Path.{subst}
use florist_core.Prelude.{◌≡◌, refl, sym, ◌∙◌, ap, ◌⊎◌, inl, inr, List}
use florist_core.Kernel.Errors.{Error, Result, ok, err, wrapped}
use florist_core.Kernel.Errors.Cases.{err≢ok, Result-cases}
use florist_core.Kernel.Types.{OrderId, StoreId, Time}
use florist_core.Ordering.Order.{Order, OrderItem}
use florist_core.Ordering.Confirm.{confirm_order}
use florist_core.Ordering.Confirm.Outcome.{IsConfirmedBy, confirm_order_atomic}
use florist_core.Storefront.Orders.{
  PlaceOrderCommand, PlaceOrderHandler, order_items, confirm_draft, place_draft, place_order,
}
use florist_core.Db.{Session, continue, pure, ◌>>◌, run_tx, begin, relabel}
use florist_core.Db.Atomic.{IsIdle, IsAllOrNothing, run_tx_atomic, begin-working}

module _ {T X : Type 0} (h : PlaceOrderHandler T X) where
  -- The order of the command.
  abbrev pub IsOrdered : PlaceOrderCommand → Order → Type 0
  IsOrdered cmd o =
      (store_id : StoreId) × (items : List OrderItem) × (h.parse_id cmd.store_id ≡ ok store_id)
      × (order_items h.parse_id cmd.items ≡ ok items)
      × (o ≡ h.new_order store_id items)

  -- The order is saved over the tables `before`, and that is committed.
  abbrev pub IsSaved : Order → T → T → Type 0
  IsSaved o before after =
      (t : Session T X) × (t.working ≡ before)
      × ((h.orders.save_tx o t).0 ≡ ok tt)
      × (after ≡ (h.orders.save_tx o t).1.working)

  -- What becomes of an order that is saved, from the session `m` on.
  abbrev pub IsFinished : Time → Order → Session T X → Result OrderId × Session T X → Type 0
  IsFinished now o m (r, s') =
      ((e : Error) × (r ≡ err (wrapped "PlaceOrderHandler: confirm" e))
        × ((confirm_order h.confirmation now (h.text_of_id o.id) m).0 ≡ err e)
        × (s'.committed ≡ m.committed))
      ⊎ ((r ≡ ok o.id) × IsConfirmedBy h.confirmation now (h.text_of_id o.id) m (ok tt, s'))

  abbrev pub IsPlacedOrder : Time → Order → T → Result OrderId × Session T X → Type 0
  IsPlacedOrder now o before (r, s') =
      IsIdle s'
      × (((e : Error) × (r ≡ err e) × (s'.committed ≡ before))
          ⊎ ((m : Session T X) × IsSaved o before m.committed × IsFinished now o m (r, s')))

  finished :
      (now : Time) (o : Order) (m : Session T X) (p : Result (Unit {0}) × Session T X)
      → confirm_order h.confirmation now (h.text_of_id o.id) m ≡ p
      → IsConfirmedBy h.confirmation now (h.text_of_id o.id) m p
      → let q = continue (relabel (wrapped "PlaceOrderHandler: confirm") p) (λ _. pure o.id) in
        IsIdle q.1 × IsFinished now o m q
  finished now o m (ok tt, s') asked c = (c.0, inr (refl, c))
  finished now o m (err e, s') asked (idle, inl (_, _, c)) =
      (idle, inl (e, refl, ap (λ z. z.0) asked, c))
  finished now o m (err e, s') asked (idle, inr (_, _, r, _, _, _, _, _, _)) = absurd (err≢ok r)

  placed :
      (now : Time) (o : Order) (before : T) (p q : Result (Unit {0}) × Session T X)
      → ((t : Session T X) × (t.working ≡ before) × (q ≡ h.orders.save_tx o t))
      → IsAllOrNothing before q p
      → let f = λ (_ : Unit {0}). confirm_draft h now o >> pure o.id in
        IsPlacedOrder now o before
          (continue (relabel (wrapped "PlaceOrderHandler: save draft") p) f)
  placed now o before (ok x, m) q (t, w, e) (idle, inr (a, r, done, c)) =
      let (idle', end) =
        finished now o m (confirm_order h.confirmation now (h.text_of_id o.id) m) refl
          (confirm_order_atomic h.confirmation now (h.text_of_id o.id) m idle) in
      (idle', inr (m, (t, w, ap (λ z. z.0) (sym e) ∙ done, c ∙ ap (λ z. z.1.working) e), end))
  placed now o before (ok x, m) q k (idle, inl (e, r, c)) = absurd (err≢ok (sym r))
  placed now o before (err e, m) q k (idle, inl (_, _, c)) =
      (idle, inl (wrapped "PlaceOrderHandler: save draft" e, refl, c))
  placed now o before (err e, m) q k (idle, inr (a, r, _, _)) = absurd (err≢ok r)

  place_draft_outcome :
      (now : Time) (o : Order) (s : Session T X)
      → IsIdle s
      → IsPlacedOrder now o s.committed (place_draft h now o s)
  place_draft_outcome now o s idle =
      placed now o s.committed (run_tx (h.orders.save_tx o) s) (h.orders.save_tx o (begin s).1)
        ((begin s).1, begin-working s idle, refl)
        (run_tx_atomic (h.orders.save_tx o) s (h.orders.save_tx-IsPending o) idle)

  -- What the placing of the order of a command may come to.
  abbrev pub IsPlaced : Time → PlaceOrderCommand → T → Result OrderId × Session T X → Type 0
  IsPlaced now cmd before (r, s') =
      IsIdle s'
      × (((e : Error) × (r ≡ err e) × (s'.committed ≡ before))
          ⊎ ((o : Order) × (m : Session T X) × IsOrdered cmd o
              × IsSaved o before m.committed
              × IsFinished now o m (r, s')))

  of_draft :
      (now : Time) (cmd : PlaceOrderCommand) (o : Order) (before : T)
      (p : Result OrderId × Session T X)
      → IsOrdered cmd o
      → IsPlacedOrder now o before p
      → IsPlaced now cmd before p
  of_draft now cmd o before p k (idle, inl failed) = (idle, inl failed)
  of_draft now cmd o before p k (idle, inr (m, saved, end)) = (idle, inr (o, m, k, saved, end))

  of_command :
      (now : Time) (cmd : PlaceOrderCommand) (store_id : StoreId) (items : List OrderItem)
      (s : Session T X)
      → h.parse_id cmd.store_id ≡ ok store_id
      → order_items h.parse_id cmd.items ≡ ok items
      → place_order h now cmd s ≡ place_draft h now (h.new_order store_id items) s
  unfolding place_order
  of_command now cmd store_id items s parsed each = rw (parsed, each) refl

  pub place_order_outcome :
      (now : Time) (cmd : PlaceOrderCommand) (s : Session T X)
      → IsIdle s
      → IsPlaced now cmd s.committed (place_order h now cmd s)
  unfolding place_order
  place_order_outcome now cmd s idle = elim (Result-cases (h.parse_id cmd.store_id)) [
    | inr (e, bad) ↦
        rw bad (idle, inl (wrapped "PlaceOrderHandler: invalid store id" e, refl, refl))
    | inl (store_id, parsed) ↦ elim (Result-cases (order_items h.parse_id cmd.items)) [
      | inr (e, bad) ↦ rw (parsed, bad) (idle, inl (e, refl, refl))
      | inl (items, each) ↦
          let o = h.new_order store_id items in
          subst (IsPlaced now cmd s.committed)
            (sym (of_command now cmd store_id items s parsed each))
            (of_draft now cmd o s.committed (place_draft h now o s)
              (store_id, items, parsed, each, refl) (place_draft_outcome now o s idle))
    ]
  ]
