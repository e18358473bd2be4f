-- ===== src/Inventory/Batch/Invariant.antt =====
-- The range of a batch's stock under its calls.
use florist_core.Prelude.{ℕ, ◌≡◌, ◌≢◌, ◌<◌, ◌+◌, ◌^◌, none, List, [], ◌∷◌, arith}
use florist_core.Prelude.Int.{
  ℤ, pos, negsuc, ◌+ℤ◌, ◌-ℤ◌, ◌≤ℤ◌, pos_part, wrap64, wrap64_fits, wrap64-cancel_sub, InRange64,
  int_laws,
}
use florist_core.Kernel.Types.{Time, StoreId, IngredientId, BatchId}
use florist_core.Kernel.Money.{Money}
use florist_core.Inventory.Batch.{Batch, expired, new_batch, consume, release}
use florist_core.Inventory.Batch.Ops.{
  Op, consume_op, release_op, mark_aging_op, mark_critical_op, expire_op, writeoff_op, pop_op,
  apply, run,
}

pub record IsValid (b : Batch) : Type 0 where
  pub nonneg : pos 0 ≤ℤ b.remaining_qty
  pub within : b.remaining_qty ≤ℤ b.received_qty
  pub received_fits : InRange64 b.received_qty

-- What the callers have to see to, since the methods do not test it: amounts are not negative, and
-- no more is released than is missing.
abbrev pub IsMeant : Op → Batch → Type 0
IsMeant (consume_op _ qty) b = pos 0 ≤ℤ qty
IsMeant (release_op qty) b = (pos 0 ≤ℤ qty) × (b.remaining_qty +ℤ qty ≤ℤ b.received_qty)
IsMeant (writeoff_op _ qty _) b = pos 0 ≤ℤ qty
IsMeant _ _ = Unit

abbrev pub AllMeant : List Op → Batch → Type 0
AllMeant [] b = Unit
AllMeant (op ∷ ops) b = IsMeant op b × AllMeant ops (apply op b).0

pub new_batch-IsValid :
    (id : BatchId) (now : Time) (s : StoreId) (i : IngredientId) (qty : ℤ) (p : Money) (r e : Time)
    → (pos 0 ≤ℤ qty) × InRange64 qty
    → IsValid (new_batch id now s i qty p r e)
unfolding new_batch
new_batch-IsValid id now s i qty p r e h = ground arith

pub left_fits :
    (b : Batch) (qty : ℤ)
    → IsValid b
    → pos 0 ≤ℤ qty
    → qty ≤ℤ b.remaining_qty
    → wrap64 (b.remaining_qty -ℤ qty) ≡ b.remaining_qty -ℤ qty
unfolding ◌-ℤ◌
left_fits b qty v p q = wrap64_fits (b.remaining_qty -ℤ qty) (ground arith)

pub restored_fits :
    (b : Batch) (qty : ℤ)
    → IsValid b
    → pos 0 ≤ℤ qty
    → b.remaining_qty +ℤ qty ≤ℤ b.received_qty
    → wrap64 (b.remaining_qty +ℤ qty) ≡ b.remaining_qty +ℤ qty
unfolding ◌+ℤ◌
restored_fits b qty v p q = wrap64_fits (b.remaining_qty +ℤ qty) (ground arith)

-- Every meant call keeps the stock between zero and what was received.
pub apply-IsValid : (op : Op) (b : Batch) → IsMeant op b → IsValid b → IsValid (apply op b).0
unfolding apply
apply-IsValid (consume_op now qty) b m v = grind (int_laws, left_fits b qty v m)
apply-IsValid (release_op qty) b m v = grind (int_laws, restored_fits b qty v m.0 m.1)
apply-IsValid (writeoff_op now qty reason) b m v = grind (int_laws, left_fits b qty v m)
apply-IsValid (mark_aging_op _) b m v = ground arith
apply-IsValid mark_critical_op b m v = ground arith
apply-IsValid (expire_op _) b m v = ground arith
apply-IsValid pop_op b m v = ground arith

-- Over any sequence of calls, the accepted and the refused, with amounts that are not negative and
-- releases that stay within what was received, the stock of a valid batch stays between zero and
-- what was received.
pub run-IsValid : (ops : List Op) (b : Batch) → AllMeant ops b → IsValid b → IsValid (run ops b)
unfolding run
run-IsValid [] b m v = v
run-IsValid (op ∷ ops) b m v = run-IsValid ops (apply op b).0 m.1 (apply-IsValid op b m.0 v)

-- If consuming an amount is granted, releasing it again restores the stock, whatever the 64-bit
-- stock and amount.
pub release-consume :
    (now : Time) (qty : ℤ) (b : Batch)
    → InRange64 b.remaining_qty
    → InRange64 qty
    → (consume now qty b).1 ≡ none
    → (release qty (consume now qty b).0).remaining_qty ≡ b.remaining_qty
unfolding consume release
release-consume now qty b r q h = ground (arith, wrap64-cancel_sub b.remaining_qty qty r q)

-- A negative amount is not refused: on a valid batch that has not expired, `Consume` adds it to the
-- stock, also beyond what was received, as long as the new stock is an int64.
pub consume_negative :
    (now : Time) (n : ℕ) (b : Batch)
    → IsValid b
    → b.freshness ≢ expired
    → pos_part b.remaining_qty + n + 1 < 2 ^ 63
    → ((consume now (negsuc n) b).1 ≡ none)
      × ((consume now (negsuc n) b).0.remaining_qty ≡ b.remaining_qty +ℤ pos (n + 1))
unfolding consume ◌-ℤ◌ ◌+ℤ◌
consume_negative now n b v u h = ground (arith, wrap64_fits (b.remaining_qty -ℤ negsuc n))
