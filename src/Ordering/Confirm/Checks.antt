-- ===== src/Ordering/Confirm/Checks.antt =====
-- The checks before the transaction of a confirmation.
use florist_core.Prelude.{◌≡◌, ◌≢◌, refl, ◌∙◌, true, Option, none, some, List, [], ◌∷◌, All, arith}
use florist_core.Kernel.Errors.{Error, Result, ok, err}
use florist_core.Kernel.Errors.Cases.{err≢ok}
use florist_core.Kernel.Types.{StoreId, Time}
use florist_core.Ordering.Order.{Order, OrderItem, draft, confirm}
use florist_core.Ordering.Confirm.{
  IsQuery, ConfirmOrderHandler, AvailabilityResult, can_confirm, stock_check, check_items,
}
use florist_core.Db.{Action, Session, continue, check, ◌>>=◌}
use florist_core.Db.Atomic.{IsPending, bind_ok}

pub bind-IsQuery :
    {T X A B : Type 0} (m : Action T X A) (f : A → Action T X B)
    → IsQuery m
    → ((a : A) → IsQuery (f a))
    → IsQuery (m >>= f)
bind-IsQuery {T} {X} {A} {B} m f h k s = go (m s) (h s)
  where
    go :
        (r : Result A × Session T X)
        → (r.1.committed ≡ s.committed) × (r.1.working ≡ s.working) × (r.1.outside ≡ s.outside)
        → ((continue r f).1.committed ≡ s.committed)
          × ((continue r f).1.working ≡ s.working)
          × ((continue r f).1.outside ≡ s.outside)
    go (ok a, s') (e0, e1, e2) = let (d0, d1, d2) = k a s' in (d0 ∙ e0, d1 ∙ e1, d2 ∙ e2)
    go (err x, s') e = e

pub check-IsPending : {T X : Type 0} (e : Option Error) → IsPending {T = T} {X = X} (check e)
check-IsPending none s = refl
check-IsPending (some x) s = refl

pub check_ok :
    {T X : Type 0} (e : Option Error) (s : Session T X) {x : Unit {0}}
    → (check e s).0 ≡ ok x
    → (e ≡ none) × ((check e s).1 ≡ s)
check_ok none s q = (refl, refl)
check_ok (some x) s q = absurd (err≢ok q)

-- Only a draft that has lines is confirmed.
pub confirm_ok :
    (now : Time) (o : Order) → (confirm now o).1 ≡ none → (o.status ≡ draft) × (o.items ≢ [])
unfolding confirm
confirm_ok now o h = ground arith

module _ {T X : Type 0} (h : ConfirmOrderHandler T X) where
  -- The service has answered for the item that it may be sold.
  abbrev pub IsAvailable : StoreId → OrderItem → Type 0
  IsAvailable store_id item =
      (t : Session T X) × (res : AvailabilityResult) × ((h.availability.check_product store_id
          item.product_id item.qty t).0
        ≡ ok res)
      × (can_confirm res ≡ true)

  stock_check-IsQuery : (res : AvailabilityResult) → IsQuery (stock_check h res)
  stock_check-IsQuery res s = ground arith

  stock_check_ok :
      (res : AvailabilityResult) (s : Session T X) {x : Unit {0}}
      → (stock_check h res s).0 ≡ ok x
      → can_confirm res ≡ true
  stock_check_ok res s q = ground arith

  pub check_items-IsQuery :
      (store_id : StoreId) (items : List OrderItem) → IsQuery (check_items h store_id items)
  check_items-IsQuery store_id [] = λ s. (refl, refl, refl)
  check_items-IsQuery store_id (item ∷ items) =
      bind-IsQuery {B = Unit {0}}
        (h.availability.check_product store_id item.product_id item.qty >>= stock_check h)
        (λ _. check_items h store_id items)
        (bind-IsQuery {B = Unit {0}}
          (h.availability.check_product store_id item.product_id item.qty) (stock_check h)
          (h.availability.check_product-IsQuery store_id item.product_id item.qty)
          stock_check-IsQuery)
        (λ _. check_items-IsQuery store_id items)

  pub check_items_ok :
      (store_id : StoreId) (items : List OrderItem) (s : Session T X)
      → (check_items h store_id items s).0 ≡ ok tt
      → All (IsAvailable store_id) items
  check_items_ok store_id [] s q = tt
  check_items_ok store_id (item ∷ items) s q =
      let first = h.availability.check_product store_id item.product_id item.qty in
      let (_, done, rest, _) =
        bind_ok (first >>= stock_check h) (λ _. check_items h store_id items) tt s q in
      let (res, answer, passed, _) = bind_ok first (stock_check h) tt s done in
      (
        (s, res, answer, stock_check_ok res (first s).1 passed),
        check_items_ok store_id items _ rest,
      )
