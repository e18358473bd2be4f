-- ===== src/Outbox/Worker/Tests.antt =====
-- The worker on a small table.
use florist_core.Prelude.{
  ℕ, ◌≡◌, ◌≢◌, ◌+◌, ◌≤◌, refl, String, Bool, true, Option, none, some, [], ◌∷◌, All, arith, inl,
  inr,
}
use florist_core.Prelude.Int.{pos, negsuc}
use florist_core.Kernel.Errors.{Error, driver}
use florist_core.Outbox.Table.{OutboxRow, pending, processing, failed}
use florist_core.Outbox.Worker.{
  World, new_outbox_worker, process_once, run_ticks, eligible, is_eligible,
}
use florist_core.Outbox.Worker.Rows.{RowOk, run_ticks-RowOk}
use florist_core.Outbox.Worker.Backlog.{Has, backlog, run_ticks-drains}
use florist_core.Outbox.Worker.Delivery.{IsSettled, worker_settles}
use florist_core.Outbox.Worker.Final.{run_ticks-Has}

abbrev waiting : OutboxRow
waiting = record {
  id = 7;
  aggregate_type = "order";
  aggregate_id = "7";
  event_type = "order.confirmed";
  payload = "{}";
  status = pending;
  attempts = 0;
  max_attempts = 2;
  created_at = pos 10;
  processed_at = none;
}

abbrev stuck : OutboxRow
stuck = record waiting { id = 8; status = processing; attempts = 1 }

-- A handler that counts its calls and always fails.
abbrev failing : ℕ → String → String → ℕ × Option Error
failing n _ _ = (n + 1, some driver)

abbrev scan_all : OutboxRow → Bool
scan_all _ = true

abbrev quiet : World ℕ
quiet = record { rows = waiting ∷ []; outside = 0; replies = [] }

-- The claim is carried out and the update after the handler is lost.
abbrev faulty : World ℕ
faulty = record { rows = waiting ∷ stuck ∷ []; outside = 0; replies = true ∷ [] }

waiting-RowOk : RowOk waiting
waiting-RowOk = ground arith

stuck-RowOk : RowOk stuck
stuck-RowOk = ground arith

waiting_open : All (λ r. r.status ≢ processing) (waiting ∷ [])
waiting_open = ground arith

backlog_two : backlog (waiting ∷ []) ≤ 2
unfolding is_eligible
backlog_two = ground arith

given_up : run_ticks failing (pos 100) scan_all 3 quiet ≡ record {
  rows = record waiting { status = failed; attempts = 2 } ∷ [];
  outside = 2;
  replies = [];
}
unfolding run_ticks process_once
given_up = refl

defaults :
    new_outbox_worker (pos 0) (negsuc 0)
    ≡ record { interval = pos 2_000_000_000; max_attempts = pos 5 }
unfolding new_outbox_worker
defaults = refl

worker_settles_example : All IsSettled (run_ticks failing (pos 100) scan_all 2 quiet).rows
worker_settles_example =
    worker_settles failing (pos 100) scan_all (λ _. refl) 2 quiet refl (refl, tt)
      (waiting-RowOk, tt) waiting_open backlog_two

run_ticks-RowOk_example : All RowOk (run_ticks failing (pos 100) scan_all 3 faulty).rows
run_ticks-RowOk_example =
    run_ticks-RowOk failing (pos 100) scan_all 3 faulty (refl, (refl, tt))
      (waiting-RowOk, (stuck-RowOk, tt))

run_ticks-Has_example : Has stuck (run_ticks failing (pos 100) scan_all 3 faulty).rows
run_ticks-Has_example =
    run_ticks-Has failing (pos 100) scan_all 3 stuck faulty (refl, (refl, tt)) (ground arith)
      (inr (inl refl))

run_ticks-drains_example : eligible (run_ticks failing (pos 100) scan_all 2 quiet).rows ≡ []
run_ticks-drains_example = run_ticks-drains failing (pos 100) scan_all 2 quiet refl backlog_two
