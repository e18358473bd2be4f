-- ===== src/Inventory/Batch/Ageing.antt =====
-- Freshness under the calls of a batch.
use florist_core.Prelude.{ℕ, ◌≡◌, ◌≤◌, List, [], ◌∷◌, arith}
use native.Mathlib.Nat.{le_refl, le_trans}
use florist_core.Inventory.Batch.{Batch, Freshness, fresh, aging, critical, expired}
use florist_core.Inventory.Batch.Ops.{Op, apply, run}

-- The order of the four states, from the best to the worst.
abbrev pub rank : Freshness → ℕ
rank fresh = 0
rank aging = 1
rank critical = 2
rank expired = 3

rank_eq : (f g : Freshness) → rank f ≡ rank g → f ≡ g
rank_eq f g h = ground arith

apply-rank : (op : Op) (b : Batch) → rank b.freshness ≤ rank (apply op b).0.freshness
unfolding apply
apply-rank op b = ground arith

-- No sequence of calls makes a batch fresher.
pub run-rank : (ops : List Op) (b : Batch) → rank b.freshness ≤ rank (run ops b).freshness
unfolding run
run-rank [] b = le_refl _
run-rank (op ∷ ops) b = le_trans (apply-rank op b) (run-rank ops (apply op b).0)

rank_le : (f : Freshness) → rank f ≤ 3
rank_le f = ground arith

-- After a batch has expired it stays so through any further calls.
pub expired_stays :
    (ops : List Op) (b : Batch) → b.freshness ≡ expired → (run ops b).freshness ≡ expired
expired_stays ops b h =
    rank_eq _ _ (omega (arith, run-rank ops b, rank_le (run ops b).freshness, ap_rank b h))
  where
    ap_rank : (c : Batch) → c.freshness ≡ expired → rank c.freshness ≡ 3
    ap_rank c e = ground arith
