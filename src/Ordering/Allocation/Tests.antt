-- ===== src/Ordering/Allocation/Tests.antt =====
-- Allocations on a batch of ten.
use florist_core.Prelude.{◌≡◌, refl, none, some, [], ◌∷◌, arith}
use florist_core.Prelude.Int.{pos, ◌+ℤ◌, ◌-ℤ◌, wrap64}
use florist_core.Prelude.Map.{lookup}
use florist_core.Ordering.Allocation.{
  Batch, new_batch, reconstruct_batch, allocate, available_qty, allocated_from, can_allocate,
}
use florist_core.Ordering.Allocation.Stock.{IsValid}
use florist_core.Ordering.Allocation.Calls.{allocate-IsValid}

-- Order 1 holds four.
abbrev ten : Batch
ten = reconstruct_batch 3 "rose" (pos 10) none (some ((1, pos 4) ∷ [])) (pos 0)

new_is_empty :
    new_batch 3 "rose" (pos 10) none ≡ reconstruct_batch 3 "rose" (pos 10) none none (pos 0)
unfolding new_batch reconstruct_batch
new_is_empty = refl

ten-IsValid : IsValid ten
unfolding reconstruct_batch ◌+ℤ◌
ten-IsValid = ground arith

three_granted : (allocate 2 (pos 3) ten).1 ≡ none
unfolding reconstruct_batch allocate can_allocate available_qty allocated_from wrap64 ◌+ℤ◌ ◌-ℤ◌
three_granted = refl

not_held : lookup 2 ten.allocations ≡ none
unfolding reconstruct_batch
not_held = refl

allocate-IsValid_example : IsValid (allocate 2 (pos 7) ten).0
allocate-IsValid_example = allocate-IsValid 2 (pos 7) ten (omega arith) ten-IsValid
