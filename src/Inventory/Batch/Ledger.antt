-- ===== src/Inventory/Batch/Ledger.antt =====
-- The events that a batch has recorded, against its stock.
use florist_core.Prelude.{◌≡◌, List, [], ◌∷◌, ◌++◌}
use florist_core.Prelude.Int.{ℤ, pos, ◌+ℤ◌, parts_of_eq, int_laws}
use florist_core.Inventory.Batch.{Batch, DomainEvent, batch_written_off, batch_consumed}
use florist_core.Inventory.Batch.Ops.{
  Op, consume_op, release_op, mark_aging_op, mark_critical_op, expire_op, writeoff_op, pop_op,
  apply, handed, run, published,
}
use florist_core.Inventory.Batch.Invariant.{
  IsValid, IsMeant, AllMeant, apply-IsValid, left_fits, restored_fits,
}

-- What one event says was taken out.
abbrev pub drawn_by : DomainEvent → ℤ
drawn_by (batch_consumed _ _ _ _ qty _) = qty
drawn_by (batch_written_off _ _ qty _) = qty
drawn_by _ = pos 0

abbrev pub drawn : List DomainEvent → ℤ
drawn [] = pos 0
drawn (e ∷ es) = drawn_by e +ℤ drawn es

-- What the calls have put back; no event tells of it.
abbrev pub released : List Op → ℤ
released [] = pos 0
released (release_op qty ∷ ops) = qty +ℤ released ops
released (_ ∷ ops) = released ops

drawn-append : (xs ys : List DomainEvent) → drawn (xs ++ ys) ≡ drawn xs +ℤ drawn ys
drawn-append [] ys = omega int_laws
drawn-append (x ∷ xs) ys = rw (drawn-append xs ys) (omega int_laws)

-- One call: what it takes out of the stock is what its event says.
drawn-apply :
    (op : Op) (b : Batch)
    → IsMeant op b
    → IsValid b
    → let b' = (apply op b).0 in
      b'.remaining_qty +ℤ (drawn (handed op b) +ℤ drawn b'.events)
      ≡ b.remaining_qty +ℤ (drawn b.events +ℤ released (op ∷ []))
unfolding apply
drawn-apply (consume_op now qty) b m v = grind (int_laws, drawn-append, left_fits b qty v m)
drawn-apply (release_op qty) b m v = rw (restored_fits b qty v m.0 m.1) (omega int_laws)
drawn-apply (writeoff_op now qty reason) b m v = grind (int_laws, drawn-append, left_fits b qty v m)
drawn-apply (mark_aging_op _) b m v = grind (int_laws, drawn-append)
drawn-apply mark_critical_op b m v = grind (int_laws, drawn-append)
drawn-apply (expire_op _) b m v = grind (int_laws, drawn-append)
drawn-apply pop_op b m v = omega int_laws

released-cons : (op : Op) (ops : List Op) → released (op ∷ ops) ≡ released (op ∷ []) +ℤ released ops
released-cons (release_op qty) ops = omega int_laws
released-cons (consume_op _ _) ops = omega int_laws
released-cons (mark_aging_op _) ops = omega int_laws
released-cons mark_critical_op ops = omega int_laws
released-cons (expire_op _) ops = omega int_laws
released-cons (writeoff_op _ _ _) ops = omega int_laws
released-cons pop_op ops = omega int_laws

run-drawn :
    (ops : List Op) (b : Batch)
    → AllMeant ops b
    → IsValid b
    → let b' = run ops b in
      b'.remaining_qty +ℤ (drawn (published ops b) +ℤ drawn b'.events)
      ≡ b.remaining_qty +ℤ (drawn b.events +ℤ released ops)
unfolding run published
run-drawn [] b m v = omega int_laws
run-drawn (op ∷ ops) b m v =
    rw (drawn-append (handed op b) (published ops (apply op b).0), released-cons op ops)
      (omega (
        int_laws,
        parts_of_eq (drawn-apply op b m.0 v),
        parts_of_eq (run-drawn ops (apply op b).0 m.1 (apply-IsValid op b m.0 v)),
      ))

-- Over any calls with amounts that are not negative and releases that stay within what was
-- received, on a valid batch that holds all it received and has recorded no draw yet, the stock
-- that is left and the amounts of all consumption and write-off events, published or still pending,
-- add up to what was received and what was released.
pub run_accounts :
    (ops : List Op) (b : Batch)
    → AllMeant ops b
    → IsValid b
    → b.remaining_qty ≡ b.received_qty
    → drawn b.events ≡ pos 0
    → (run ops b).remaining_qty +ℤ drawn (published ops b ++ (run ops b).events)
      ≡ b.received_qty +ℤ released ops
run_accounts ops b m v full fresh =
    rw (drawn-append (published ops b) (run ops b).events)
      (omega (int_laws, parts_of_eq (run-drawn ops b m v), parts_of_eq full, parts_of_eq fresh))
