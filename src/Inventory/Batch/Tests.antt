-- ===== src/Inventory/Batch/Tests.antt =====
-- A batch of ten through its life.
use florist_core.Prelude.{
  ◌≡◌, ◌≢◌, ◌<◌, ◌+◌, ◌^◌, refl, none, some, List, [], ◌∷◌, ◌++◌, arith, map, true,
}
use florist_core.Prelude.Int.{pos, ◌+ℤ◌, ◌-ℤ◌, wrap64, InRange64, pos_part}
use florist_core.Kernel.Errors.{insufficient_batch}
use florist_core.Inventory.Batch.{
  Batch, expired, new_batch, consume, release, is_usable, event_name, pop_events, mark_aging,
}
use florist_core.Inventory.Batch.Ops.{
  Op, consume_op, release_op, pop_op, writeoff_op, apply, run, published,
}
use florist_core.Inventory.Batch.Invariant.{IsValid, AllMeant, new_batch-IsValid, run-IsValid}
use florist_core.Inventory.Batch.Ledger.{drawn, released, run_accounts}
use florist_core.Inventory.Batch.Ageing.{expired_stays}

abbrev ten : Batch
ten =
    new_batch 1 (pos 0) 2 3 (pos 10) (record { amount = pos 50; currency = "RUB" }) (pos 0)
      (pos 1000)

abbrev spent : Batch
spent = record ten { freshness = expired }

ten-IsValid : IsValid ten
ten-IsValid =
    new_batch-IsValid 1 (pos 0) 2 3 (pos 10) (record { amount = pos 50; currency = "RUB" }) (pos 0)
      (pos 1000) (ground arith)

-- Four are sold, two come back, everything is published, three are thrown away, and one too many is
-- asked for.
abbrev a_week : List Op
a_week =
    consume_op (pos 1) (pos 4)
    ∷ release_op (pos 2)
    ∷ pop_op
    ∷ writeoff_op (pos 2) (pos 3) "broken"
    ∷ consume_op (pos 3) (pos 6)
    ∷ []

a_week-AllMeant : AllMeant a_week ten
unfolding apply consume wrap64 ◌+ℤ◌ ◌-ℤ◌ new_batch
a_week-AllMeant =
    (omega arith, ((omega arith, omega arith), (tt, (omega arith, (omega arith, tt)))))

ten_whole : ten.remaining_qty ≡ ten.received_qty
unfolding new_batch
ten_whole = refl

ten_undrawn : drawn ten.events ≡ pos 0
unfolding new_batch ◌+ℤ◌
ten_undrawn = refl

left_over : (run a_week ten).remaining_qty ≡ pos 5
unfolding run apply new_batch consume release wrap64 ◌+ℤ◌ ◌-ℤ◌
left_over = refl

usable : is_usable ten ≡ true
unfolding is_usable new_batch
usable = refl

names :
    map event_name (mark_aging (pos 5) (pop_events ten).1).events
    ≡ "inventory.batch_freshness_changed" ∷ []
unfolding event_name mark_aging pop_events new_batch
names = refl

four_given : (consume (pos 1) (pos 4) ten).1 ≡ none
unfolding consume new_batch
four_given = refl

ten_fits : InRange64 ten.remaining_qty
unfolding new_batch
ten_fits = ground arith

ten_fresh : ten.freshness ≢ expired
unfolding new_batch
ten_fresh = ground arith

ten_bound : pos_part ten.remaining_qty + 4 + 1 < 2 ^ 63
unfolding new_batch
ten_bound = omega arith

too_many : (apply (consume_op (pos 1) (pos 11)) ten).1 ≡ some insufficient_batch
unfolding apply consume new_batch
too_many = refl

run_accounts_example :
    (run a_week ten).remaining_qty +ℤ drawn (published a_week ten ++ (run a_week ten).events)
    ≡ ten.received_qty +ℤ released a_week
run_accounts_example = run_accounts a_week ten a_week-AllMeant ten-IsValid ten_whole ten_undrawn

run-IsValid_example : IsValid (run a_week ten)
run-IsValid_example = run-IsValid a_week ten a_week-AllMeant ten-IsValid

expired_stays_example : (run a_week spent).freshness ≡ expired
expired_stays_example = expired_stays a_week spent refl
