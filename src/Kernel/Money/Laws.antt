-- ===== src/Kernel/Money/Laws.antt =====
-- Sums and differences of money.
use florist_core.Prelude.{◌≡◌, ◌⊎◌, ◌≢◌, ◌≤◌, ◌+◌, ◌<◌, ◌^◌, String, arith, str_eq_iff}
use florist_core.Prelude.Int.{
  ℤ, pos, negsuc, ◌*ℤ◌, ◌+ℤ◌, ◌-ℤ◌, ◌≤ℤ◌, ◌<ℤ◌, pos_part, InRange64, wrap64, wrap64_fits,
  wrap64-cancel,
}
use florist_core.Kernel.Errors.{ok, err, currency_mismatch, negative_money}
use florist_core.Kernel.Money.{quotient, rest, Money, new_money, add, sub, IsValid}

-- A constructor call succeeds exactly on amounts that are not negative, and then keeps both parts.
pub new_money-IsValid :
    (a : ℤ) (c : String) {m : Money}
    → InRange64 a
    → new_money a c ≡ ok m
    → IsValid m × (m.amount ≡ a) × (m.currency ≡ c)
unfolding new_money
new_money-IsValid a c r h = ground arith

-- Subtracting an int64 amount that was added to a valid amount gives back the first amount, also
-- where the sum has wrapped.
pub sub-add :
    (m o : Money) {s : Money} → IsValid m → InRange64 o.amount → add m o ≡ ok s → sub s o ≡ ok m
unfolding add sub
sub-add m o v r h =
    ground (arith, str_eq_iff m.currency o.currency, wrap64-cancel m.amount o.amount v.1 r)

-- A difference of valid amounts is valid and exact, and is refused exactly where it would be
-- negative.
pub sub_exact :
    (m o : Money)
    → IsValid m
    → IsValid o
    → m.currency ≡ o.currency
    → ((o.amount ≤ℤ m.amount)
        × (sub m o ≡ ok (record { amount = m.amount -ℤ o.amount; currency = m.currency })))
      ⊎ ((m.amount <ℤ o.amount) × (sub m o ≡ err negative_money))
unfolding sub ◌-ℤ◌
sub_exact m o v w e =
    ground (arith, str_eq_iff m.currency o.currency, wrap64_fits (m.amount -ℤ o.amount))

-- Amounts in different currencies are never added and never subtracted.
pub mismatch :
    (m o : Money)
    → m.currency ≢ o.currency
    → (add m o ≡ err currency_mismatch) × (sub m o ≡ err currency_mismatch)
unfolding add sub
mismatch m o h = ground (arith, str_eq_iff m.currency o.currency)

-- The sum of two valid amounts of one currency is negative where it passes the largest int64, and
-- exact and not negative otherwise.
pub add_overflow :
    (m o : Money) {s : Money}
    → IsValid m
    → IsValid o
    → add m o ≡ ok s
    → ((2 ^ 63 ≤ pos_part m.amount + pos_part o.amount) × (s.amount <ℤ pos 0))
      ⊎ ((pos_part m.amount + pos_part o.amount < 2 ^ 63)
          × (pos 0 ≤ℤ s.amount)
          × (s.amount ≡ m.amount +ℤ o.amount))
unfolding add ◌+ℤ◌ wrap64
add_overflow m o v w h = ground arith

-- The two numbers of the text of an amount make up the amount again; of an amount that is not negative the
-- second has at most two digits and no sign, and of a negative one it has a sign of its own.
pub text_parts :
    (a : ℤ)
    → (pos 100 *ℤ quotient a 100 +ℤ rest a 100 ≡ a)
      × (pos 0 ≤ℤ a → (pos 0 ≤ℤ rest a 100) × (rest a 100 <ℤ pos 100))
      × (a <ℤ pos 0 → rest a 100 ≤ℤ pos 0)
unfolding ◌+ℤ◌ ◌-ℤ◌ ◌*ℤ◌
text_parts (pos n) = (ground arith, (λ _. ground arith), λ h. ground arith)
text_parts (negsuc n) = (ground arith, (λ h. ground arith), λ _. ground arith)
