-- ===== src/Kernel/Money/Tests.antt =====
-- Amounts at work.
use florist_core.Prelude.{ℕ, ◌≡◌, ◌≤◌, ◌<◌, ◌+◌, ◌^◌, ◌-◌, refl, ◌⊎◌, arith}
use florist_core.Prelude.Int.{pos, negsuc, ◌-ℤ◌, ◌+ℤ◌, ◌*ℤ◌, ◌≤ℤ◌, ◌<ℤ◌, InRange64, wrap64}
use florist_core.Kernel.Errors.{ok, err, negative_money}
use florist_core.Kernel.Money.{Money, new_money, add, sub, multiply, IsValid}
use florist_core.Kernel.Money.Laws.{sub_exact, add_overflow}

abbrev rub : ℕ → Money
rub n = record { amount = pos n; currency = "RUB" }

abbrev most : ℕ
most = 2 ^ 63 - 1

rub_five : IsValid (rub 500)
rub_five = ground arith

rub_three : IsValid (rub 300)
rub_three = ground arith

rub_top : IsValid (rub most)
rub_top = ground arith

three_fits : InRange64 (pos 300)
three_fits = ground arith

sum : add (rub 500) (rub 300) ≡ ok (rub 800)
unfolding add wrap64 ◌+ℤ◌
sum = refl

wrapped_sum :
    add (rub most) (rub 500) ≡ ok (record { amount = negsuc (2 ^ 63 - 500); currency = "RUB" })
unfolding add wrap64 ◌+ℤ◌
wrapped_sum = refl

product : multiply (rub 500) (pos 3) ≡ rub 1500
unfolding multiply wrap64 ◌*ℤ◌
product = refl

refused : new_money (negsuc 0) "RUB" ≡ err negative_money
unfolding new_money
refused = refl

sub_exact_example :
    ((pos 300 ≤ℤ pos 500)
      × (sub (rub 500) (rub 300) ≡ ok (record { amount = pos 500 -ℤ pos 300; currency = "RUB" })))
    ⊎ ((pos 500 <ℤ pos 300) × (sub (rub 500) (rub 300) ≡ err negative_money))
sub_exact_example = sub_exact (rub 500) (rub 300) rub_five rub_three refl

add_overflow_example :
    ((2 ^ 63 ≤ most + 500) × (negsuc (2 ^ 63 - 500) <ℤ pos 0))
    ⊎ ((most + 500 < 2 ^ 63)
        × (pos 0 ≤ℤ negsuc (2 ^ 63 - 500))
        × (negsuc (2 ^ 63 - 500) ≡ pos most +ℤ pos 500))
add_overflow_example = add_overflow (rub most) (rub 500) rub_top rub_five wrapped_sum
