-- ===== src/Kernel/Types/Tests.antt =====
-- Quantities at work.
use florist_core.Prelude.{true, ℕ, ◌≡◌, ◌≢◌, refl, ◌⊎◌, arith}
use florist_core.Prelude.Int.{pos, negsuc, ◌-ℤ◌, ◌+ℤ◌, ◌≤ℤ◌, ◌<ℤ◌, InRange32, wrap32}
use florist_core.Kernel.Errors.{ok, err, message}
use florist_core.Kernel.Types.{
  Quantity, new_quantity, is_zero, is_negative, unchecked_money, add, sub,
}
use florist_core.Kernel.Types.Laws.{sub_quantity_exact}

abbrev stems : ℕ → Quantity
stems n = new_quantity (pos n) "stem"

-- The constructor of types.go takes a negative amount.
owed : is_negative (unchecked_money (negsuc 4) "RUB") ≡ true
owed = refl

nothing : is_zero (unchecked_money (pos 0) "RUB") ≡ true
nothing = refl

stems_fit : (pos 0 ≤ℤ pos 5) × InRange32 (pos 5)
stems_fit = ground arith

stems_fit_too : (pos 0 ≤ℤ pos 9) × InRange32 (pos 9)
stems_fit_too = ground arith

sum : add (stems 5) (stems 9) ≡ ok (stems 14)
unfolding add wrap32 ◌+ℤ◌
sum = refl

sub_quantity_exact_example :
    ((stems 5).unit ≡ (stems 9).unit)
      × (pos 9 ≤ℤ pos 5)
      × (sub (stems 5) (stems 9) ≡ ok (record { value = pos 5 -ℤ pos 9; unit = "stem" }))
    ⊎ ((stems 5).unit ≡ (stems 9).unit)
      × (pos 5 <ℤ pos 9)
      × (sub (stems 5) (stems 9) ≡ err (message "quantity cannot be negative"))
    ⊎ (((stems 5).unit ≢ (stems 9).unit)
        × (sub (stems 5) (stems 9) ≡ err (message "unit mismatch")))
sub_quantity_exact_example = sub_quantity_exact (stems 5) (stems 9) stems_fit stems_fit_too
