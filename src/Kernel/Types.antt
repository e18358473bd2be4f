-- ===== src/Kernel/Types.antt =====
-- internal/shared/kernel/types.go: the unchecked constructors, quantities, and the base of an
-- aggregate. `uuid.UUID` is sixteen bytes, read here as one number; `uuid.New` and `time.Now` are
-- arguments of whatever calls them. A time is in nanoseconds.
pub mod Laws
mod Tests
use florist_core.Prelude.{ℕ, ◌*◌, Bool, String, List, [], append, str_eq, if◌then◌else◌}
use florist_core.Prelude.Int.{ℤ, pos, ◌+ℤ◌, ◌-ℤ◌, ◌*ℤ◌, ◌≤ℤ◌, ltb_ℤ, eq_ℤ, wrap32, wrap64}
use florist_core.Kernel.Errors.{Result, ok, err, message}
use florist_core.Kernel.Money.{Money}

abbrev pub Uuid : Type 0
Uuid = ℕ

-- `BatchID`, `StoreID` and the other wrappers of ids.go hold one `ID` each.
abbrev pub BatchId : Type 0
BatchId = Uuid

abbrev pub StoreId : Type 0
StoreId = Uuid

abbrev pub IngredientId : Type 0
IngredientId = Uuid

abbrev pub ProductId : Type 0
ProductId = Uuid

abbrev pub OrderId : Type 0
OrderId = Uuid

abbrev pub RecipeId : Type 0
RecipeId = Uuid

-- `time.Time`
abbrev pub Time : Type 0
Time = ℤ

-- `t.After(u)`
abbrev pub after : Time → Time → Bool
after t u = ltb_ℤ u t

-- `time.Hour`
abbrev pub hour : ℕ
hour = 3_600_000_000_000

abbrev pub aging_threshold : ℤ
aging_threshold = pos (48 * hour)

abbrev pub critical_threshold : ℤ
critical_threshold = pos (24 * hour)

-- `NewMoney` of types.go checks nothing.
abbrev pub unchecked_money : ℤ → String → Money
unchecked_money amount currency = record { amount = amount; currency = currency }

-- `Money.Add` and `Money.Multiply` of types.go.
unfoldable pub add_money : Money → Money → Result Money
add_money m other =
    if str_eq m.currency other.currency
    then ok (record { amount = wrap64 (m.amount +ℤ other.amount); currency = m.currency })
    else err (message "currency mismatch")

unfoldable pub multiply_money : Money → ℤ → Money
multiply_money m factor = record { amount = wrap64 (m.amount *ℤ factor); currency = m.currency }

abbrev pub is_zero : Money → Bool
is_zero m = eq_ℤ m.amount (pos 0)

abbrev pub is_negative : Money → Bool
is_negative m = ltb_ℤ m.amount (pos 0)

pub record Quantity : Type 0 where
  pub value : ℤ
  pub unit : String

abbrev pub new_quantity : ℤ → String → Quantity
new_quantity value unit = record { value = value; unit = unit }

abbrev pub is_zero_quantity : Quantity → Bool
is_zero_quantity q = eq_ℤ q.value (pos 0)

pub add : Quantity → Quantity → Result Quantity
add q other =
    if str_eq q.unit other.unit
    then ok (record { value = wrap32 (q.value +ℤ other.value); unit = q.unit })
    else err (message "unit mismatch")

pub sub : Quantity → Quantity → Result Quantity
sub q other =
    if str_eq q.unit other.unit
    then (let result = wrap32 (q.value -ℤ other.value) in
        if ltb_ℤ result (pos 0)
        then err (message "quantity cannot be negative")
        else ok (record { value = result; unit = q.unit }))
    else err (message "unit mismatch")

-- `BaseEvent` of events.go.
pub record BaseEvent : Type 0 where
  pub name : String
  pub occurred_at : Time

abbrev pub new_base_event : String → Time → BaseEvent
new_base_event name now = record { name = name; occurred_at = now }

-- The events that an aggregate has gathered: `RecordEvent`, and `PullEvents`, which empties them.
module _ {E : Type 0} where
  abbrev pub record_event : List E → E → List E
  record_event events e = append events e

  abbrev pub pull_events : List E → List E × List E
  pull_events events = (events, [])
