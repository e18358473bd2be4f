-- ===== src/Kernel/Money.antt =====
-- The value object of internal/shared/kernel/money.go. An amount is an `int64`, so sums and products
-- wrap.
pub mod Laws
mod Tests
use Prim.Native.String.{◌++◌ as ◌<>◌}
use florist_core.Prelude.{
  ℕ, Bool, String, Option, none, some, str_eq, if◌then◌else◌, ◌+◌, ◌<◌, ◌/◌, ◌%◌,
}
use florist_core.Prelude.Int.{ℤ, pos, negsuc, ◌+ℤ◌, ◌-ℤ◌, ◌*ℤ◌, ◌≤ℤ◌, ltb_ℤ, wrap64, InRange64}
use florist_core.Kernel.Errors.{Result, ok, err, currency_mismatch, negative_money}

pub record Money : Type 0 where
  pub amount : ℤ
  pub currency : String

pub new_money : ℤ → String → Result Money
new_money amount currency =
    if ltb_ℤ amount (pos 0)
    then err negative_money
    else ok (record { amount = amount; currency = currency })

unfoldable pub add : Money → Money → Result Money
add m other =
    if str_eq m.currency other.currency
    then ok (record { amount = wrap64 (m.amount +ℤ other.amount); currency = m.currency })
    else err currency_mismatch

pub sub : Money → Money → Result Money
sub m other =
    if str_eq m.currency other.currency
    then (let result = wrap64 (m.amount -ℤ other.amount) in
        if ltb_ℤ result (pos 0)
        then err negative_money
        else ok (record { amount = result; currency = m.currency }))
    else err currency_mismatch

unfoldable pub multiply : Money → ℤ → Money
multiply m factor = record { amount = wrap64 (m.amount *ℤ factor); currency = m.currency }

-- `MustMoney`, where `none` is a panic.
abbrev pub must_money : ℤ → String → Option Money
must_money amount currency = elim (new_money amount currency) [ ok m ↦ some m | err _ ↦ none ]

-- Go's `/` and `%`, which round towards zero: the rest has the sign of the amount.
abbrev pub quotient : ℤ → ℕ → ℤ
quotient (pos a) n = pos (a / n)
quotient (negsuc a) n = pos 0 -ℤ pos ((a + 1) / n)

abbrev pub rest : ℤ → ℕ → ℤ
rest (pos a) n = pos (a % n)
rest (negsuc a) n = pos 0 -ℤ pos ((a + 1) % n)

-- `String`, where `decimal` and `two_digits` are what `fmt` makes of `%d` and `%02d`.
unfoldable pub to_text : (ℤ → String) → (ℤ → String) → Money → String
to_text decimal two_digits m =
    decimal (quotient m.amount 100)
    <> ("." <> (two_digits (rest m.amount 100) <> (" " <> m.currency)))

-- What `NewMoney` promises of a value: an `int64` that is not negative.
abbrev pub IsValid : Money → Type 0
IsValid m = (pos 0 ≤ℤ m.amount) × InRange64 m.amount
