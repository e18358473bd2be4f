-- ===== src/Ordering/Allocation/Stock.antt =====
-- The sum of the allocations, and the invariant that it never passes the batch's quantity.
use florist_core.Prelude.{◌≡◌, ◌<◌, ◌^◌, refl, ◌∙◌, [], ◌∷◌, arith}
use florist_core.Prelude.Map.{Map, NodupKeys}
use florist_core.Prelude.Int.{
  ℤ, pos, ◌+ℤ◌, ◌-ℤ◌, ◌≤ℤ◌, pos_part, InRange64, wrap64_fits, eq_of_parts, int_laws, sign_laws,
}
use florist_core.Ordering.Allocation.{Batch, allocated_from, available_qty}

-- The allocations of one map, added up without wrap-around.
abbrev pub total : Map ℤ → ℤ
total [] = pos 0
total ((_, qty) ∷ m) = qty +ℤ total m

abbrev pub AllNonneg : Map ℤ → Type 0
AllNonneg [] = Unit
AllNonneg ((_, qty) ∷ m) = (pos 0 ≤ℤ qty) × AllNonneg m

pub total_nonneg : (m : Map ℤ) → AllNonneg m → pos 0 ≤ℤ total m
total_nonneg [] h = omega arith
total_nonneg ((_, qty) ∷ m) h = omega (int_laws, total_nonneg m h.1)

-- no allocation is negative, no order has two, and together they fit the quantity
pub record IsValid (b : Batch) : Type 0 where
  pub nonneg : AllNonneg b.allocations
  pub nodup : NodupKeys b.allocations
  pub covered : total b.allocations ≤ℤ b.qty
  pub qty_fits : InRange64 b.qty

allocated_from-eq :
    (acc : ℤ) (m : Map ℤ)
    → AllNonneg m
    → pos 0 ≤ℤ acc
    → pos_part (acc +ℤ total m) < 2 ^ 63
    → allocated_from acc m ≡ acc +ℤ total m
unfolding allocated_from
allocated_from-eq acc [] h p q = omega int_laws
allocated_from-eq acc ((k, qty) ∷ m) h p q =
    let nonneg = total_nonneg m h.1 in
    let fits = wrap64_fits (acc +ℤ qty) (omega sign_laws) in
    rw fits (
      allocated_from-eq (acc +ℤ qty) m h.1 (omega sign_laws) (omega sign_laws)
      ∙ eq_of_parts _ _ (omega sign_laws))

-- In a valid batch the free quantity is what was not allocated, and lies between zero and the whole.
pub available_exact :
    (b : Batch)
    → IsValid b
    → (available_qty b ≡ b.qty -ℤ total b.allocations)
      × (pos 0 ≤ℤ available_qty b)
      × (available_qty b ≤ℤ b.qty)
unfolding available_qty
available_exact b v =
    let nonneg = total_nonneg b.allocations v.nonneg in
    let sum : allocated_from (pos 0) b.allocations ≡ total b.allocations =
      allocated_from-eq (pos 0) b.allocations v.nonneg (omega arith)
        (omega (sign_laws, v.covered, v.qty_fits.0))
      ∙ eq_of_parts _ _ (omega sign_laws) in
    let free =
      wrap64_fits (b.qty -ℤ total b.allocations) (omega (sign_laws, v.covered, v.qty_fits.0)) in
    rw (sum, free) (refl, omega (sign_laws, v.covered), omega sign_laws)
