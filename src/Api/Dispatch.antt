-- ===== src/Api/Dispatch.antt =====
-- The handler of events that `main` of cmd/api/main.go gives to the outbox worker, and the worker's rounds with
-- it. Logging is left out.
pub mod Routes
pub mod Polling
mod Tests
use florist_core.Prelude.{ℕ, suc, Bool, String, Option, none, some, ◌||◌, str_eq, if◌then◌else◌}
use florist_core.Prelude.Int.{pos}
use florist_core.Kernel.Errors.{Error, Result, ok, err}
use florist_core.Kernel.Types.{Time}
use florist_core.Inventory.Recalc.{handle}
use florist_core.Inventory.Repository.{Tables}
use florist_core.Outbox.Table.{OutboxRow}
use florist_core.Outbox.Worker.{World, Settings, new_outbox_worker, process_once}
use florist_core.Db.{Session}

-- The first case of the `switch`.
abbrev pub is_recalc : String → Bool
is_recalc event_type =
    str_eq event_type "inventory.batch_consumed"
    || (str_eq event_type "inventory.batch_expired"
        || str_eq event_type "inventory.batch_written_off")

abbrev pub worker_settings : Settings
worker_settings = new_outbox_worker (pos 2_000_000_000) (pos 5)

-- What the handler acts on: the database, and how many recalculations it has run.
pub record Served (X : Type 0) : Type 0 where
  pub session : Session Tables X
  pub runs : ℕ

module _ {X : Type 0} where
  abbrev pub handled : ℕ → Result (Unit {0}) × Session Tables X → Served X × Option Error
  handled runs (ok _, s) = (record { session = s; runs = runs }, none)
  handled runs (err e, s) = (record { session = s; runs = runs }, some e)

  -- `clock` has the `time.Now()` of each run.
  unfoldable pub on_event : (ℕ → Time) → Served X → String → String → Served X × Option Error
  unfolding handle
  on_event clock v event_type payload =
      if is_recalc event_type
      then handled (suc v.runs) (handle (clock v.runs) v.session)
      else (v, none)

  -- A tick of the worker, `at` by its clock.
  unfoldable pub poll : (ℕ → Time) → Time → (OutboxRow → Bool) → World (Served X) → World (Served X)
  unfolding on_event
  poll clock at scans w = process_once (on_event clock) at scans w
