-- ===== src/Kernel/Types/Laws.antt =====
-- Quantities: differences and sums.
use florist_core.Prelude.{refl, ◌≡◌, ◌⊎◌, ◌≢◌, arith, str_eq_iff}
use florist_core.Prelude.Int.{ℤ, pos, ◌-ℤ◌, ◌≤ℤ◌, ◌<ℤ◌, InRange32, wrap32_fits, wrap32-cancel}
use florist_core.Kernel.Errors.{ok, err, message}
use florist_core.Kernel.Money.{Money, add as checked_add, multiply as checked_multiply}
use florist_core.Kernel.Types.{Quantity, add, sub, add_money, multiply_money}

-- A difference of quantities that are not negative is exact, and is refused exactly where it would
-- be negative or the units differ.
pub sub_quantity_exact :
    (q o : Quantity)
    → (pos 0 ≤ℤ q.value) × InRange32 q.value
    → (pos 0 ≤ℤ o.value) × InRange32 o.value
    → ((q.unit ≡ o.unit)
        × (o.value ≤ℤ q.value)
        × (sub q o ≡ ok (record { value = q.value -ℤ o.value; unit = q.unit })))
      ⊎ ((q.unit ≡ o.unit)
          × (q.value <ℤ o.value)
          × (sub q o ≡ err (message "quantity cannot be negative")))
      ⊎ ((q.unit ≢ o.unit) × (sub q o ≡ err (message "unit mismatch")))
unfolding sub ◌-ℤ◌
sub_quantity_exact q o v w =
    ground (arith, str_eq_iff q.unit o.unit, wrap32_fits (q.value -ℤ o.value))

-- Taking away what was added gives back the first quantity, also where the sum has wrapped.
pub sub_quantity-add :
    (q o : Quantity) {s : Quantity}
    → (pos 0 ≤ℤ q.value) × InRange32 q.value
    → InRange32 o.value
    → add q o ≡ ok s
    → sub s o ≡ ok q
unfolding add sub
sub_quantity-add q o v r h =
    ground (arith, str_eq_iff q.unit o.unit, wrap32-cancel q.value o.value v.1 r)

-- The two sums of money agree where the currencies do, and the products always.
pub add_money-agrees :
    (m o : Money) (factor : ℤ)
    → m.currency ≡ o.currency
    → (add_money m o ≡ checked_add m o) × (multiply_money m factor ≡ checked_multiply m factor)
unfolding add_money multiply_money checked_add checked_multiply
add_money-agrees m o factor h = (ground (arith, str_eq_iff m.currency o.currency), refl)
