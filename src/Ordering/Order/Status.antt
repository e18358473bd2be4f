-- ===== src/Ordering/Order/Status.antt =====
-- What the calls of internal/ordering/domain/order.go make of an order's status.
use florist_core.Prelude.{◌≡◌, refl, ◌∙◌, ◌≢◌, ◌⊎◌, String, none, some, List, [], ◌∷◌, arith}
use florist_core.Kernel.Errors.{Error}
use florist_core.Kernel.Types.{Time}
use florist_core.Ordering.Order.{Order, shipped, cancelled, cancel}
use florist_core.Ordering.Order.Ops.{Op, apply, run}

-- A call that returns an error has changed nothing of the order.
pub order_error_unchanged :
    (op : Op) (o : Order) {e : Error} → (apply op o).1 ≡ some e → (apply op o).0 ≡ o
unfolding apply
order_error_unchanged op o h = ground arith

abbrev pub IsFinal : Order → Type 0
IsFinal o = (o.status ≡ shipped) ⊎ (o.status ≡ cancelled)

apply-final : (op : Op) (o : Order) → IsFinal o → (apply op o).0.status ≡ o.status
unfolding apply
apply-final op o h = ground arith

-- A shipped order stays shipped and a cancelled one cancelled, through any calls.
pub run-final : (ops : List Op) (o : Order) → IsFinal o → (run ops o).status ≡ o.status
unfolding run
run-final [] o h = refl
run-final (op ∷ ops) o h = let e = apply-final op o h in run-final ops (apply op o).0 (rw e h) ∙ e

-- `Cancel` succeeds exactly on orders that are neither cancelled nor shipped, those in production and
-- those assembled included, and then leaves the order cancelled at the time of the call; a
-- refused order is unchanged.
pub cancel_accepts :
    (now : Time) (reason : String) (o : Order)
    → let (o', e) = cancel now reason o in
      ((e ≡ none)
        × (o.status ≢ cancelled)
        × (o.status ≢ shipped)
        × (o'.status ≡ cancelled)
        × (o'.cancelled_at ≡ some now))
      ⊎ ((e ≢ none) × ((o.status ≡ cancelled) ⊎ (o.status ≡ shipped)) × (o' ≡ o))
unfolding cancel
cancel_accepts now reason o = ground arith
