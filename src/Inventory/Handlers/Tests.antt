-- ===== src/Inventory/Handlers/Tests.antt =====
-- The handlers over a repository of one batch.
use florist_core.Prelude.{
  ◌≡◌, refl, ◌⊎◌, String, Option, none, some, List, [], ◌∷◌, map, true, false,
}
use florist_core.Prelude.Int.{ℤ, pos}
use florist_core.Kernel.Errors.{Error, Result, ok, err}
use florist_core.Inventory.Batch.{Batch, DomainEvent, event_name, new_batch, writeoff, pop_events}
use florist_core.Inventory.Handlers.{
  BatchRepository, ReceiveBatchCommand, received, receive_body, receive_batch, consume_batch,
  writeoff_batch,
}
use florist_core.Inventory.Handlers.Atomic.{
  IsConsumed, receive_batch_atomic, consume_batch_atomic, receive_body-IsPending,
}
use florist_core.Inventory.Handlers.WriteOff.{IsWrittenOff, writeoff_batch_leaves}
use florist_core.Inventory.Http.WriteOff.{
  writeoff_batch_handler_reports, IsReported as IsWriteOffReported,
}
use florist_core.Outbox.Publisher.{NewRow, new_row, publish_tx, publish}
use florist_core.Outbox.Publisher.Complete.{insert_tx, rows_of, put_all}
use florist_core.Inventory.Http.{consume_batch_handler, writeoff_batch_handler}
use florist_core.Kernel.Types.{BatchId}
use florist_core.Http.{Response}
use florist_core.Db.{Session, Action, tx_exec, pool_exec, begin, run_tx, pure}
use florist_core.Db.Atomic.{IsIdle, IsAllOrNothing, tx_exec-IsPending, run_tx_atomic}

-- The batches that were written, and the outbox.
abbrev Store : Type 0
Store = List Batch × List NewRow

abbrev command : ReceiveBatchCommand
command = record {
  store_id = 2;
  ingredient_id = 3;
  qty = pos 10;
  price_kopecks = pos 50;
  currency = "RUB";
  received_at = pos 0;
  expires_at = pos 1000;
}

abbrev ten : Batch
ten = received 1 (pos 0) command

abbrev write : Batch → Action Store (Unit {0}) (Unit {0})
write b = tx_exec (λ t. some (tt, (b ∷ t.0, t.1)))

abbrev repo : BatchRepository Store (Unit {0})
repo = record {
  find_by_id = λ _. pure ten;
  save_tx = write;
  update_tx = write;
  find_by_id-IsQuery = λ _ s. (refl, refl);
  save_tx-IsPending = λ b. tx_exec-IsPending _;
  update_tx-IsPending = λ b. tx_exec-IsPending _;
}

abbrev marshal : DomainEvent → Result String
marshal ev = ok (event_name ev)

abbrev aggregate_of : DomainEvent → Option (String × String)
aggregate_of _ = none

abbrev put : NewRow → Store → Store
put row t = (t.0, row ∷ t.1)

abbrev session : Session Store (Unit {0})
session = record { committed = ([], []); working = ([], []); outside = tt; replies = [] }

-- The third statement, that of the outbox, fails.
abbrev failing : Session Store (Unit {0})
failing = record session { replies = true ∷ true ∷ false ∷ [] }

published :
    (publish_tx event_name marshal aggregate_of (insert_tx {X = Unit {0}} put) ten.events session).0
    ≡ ok tt
unfolding publish_tx tx_exec new_batch
published = refl

-- Outside a transaction a lost statement is passed over.
passed_over :
    (publish event_name marshal aggregate_of
      (insert_tx {X = Unit {0}} put)
      ten.events
      (record session { replies = false ∷ [] })).0
    ≡ ok tt
unfolding publish tx_exec new_batch
passed_over = refl

receive_batch_atomic_example :
    let (r, s') = receive_batch marshal aggregate_of put repo 1 (pos 0) command failing in
    let saved = repo.save_tx ten (begin failing).1 in
    IsIdle s'
    × (((e : Error) × (r ≡ err e) × (s'.committed ≡ failing.committed))
        ⊎ ((rows : List NewRow) × (r ≡ ok 1)
            × (saved.0 ≡ ok tt)
            × (rows_of event_name marshal aggregate_of ten.events ≡ ok rows)
            × (s'.committed ≡ put_all put rows saved.1.working)))
receive_batch_atomic_example =
    receive_batch_atomic marshal aggregate_of put repo 1 (pos 0) command failing refl

consume_batch_atomic_example :
    IsConsumed marshal aggregate_of put repo
      (pos 5)
      (pos 4)
      ten
      session
      (consume_batch marshal aggregate_of put repo (pos 5) 1 (pos 4) session)
consume_batch_atomic_example =
    consume_batch_atomic marshal aggregate_of put repo (pos 5) 1 (pos 4) ten session refl refl

run_tx_atomic_example :
    IsAllOrNothing failing.committed
      (receive_body marshal aggregate_of put repo ten (begin failing).1)
      (run_tx (receive_body marshal aggregate_of put repo ten) failing)
run_tx_atomic_example =
    run_tx_atomic (receive_body marshal aggregate_of put repo ten) failing
      (receive_body-IsPending marshal aggregate_of put repo ten) refl

abbrev decode : String → Result (BatchId × ℤ)
decode _ = ok (1, pos 4)

abbrev serve : Session Store (Unit {0}) → Response String × Session Store (Unit {0})
serve = consume_batch_handler marshal aggregate_of put repo (λ _. "driver") decode (pos 5) "{}"

-- The commit is refused.
abbrev unsaved : Session Store (Unit {0})
unsaved = record session { replies = true ∷ true ∷ true ∷ true ∷ false ∷ [] }

-- The batch is not updated, and both of its events are in the outbox.
phantom :
    let left =
      (writeoff_batch marshal aggregate_of put repo
        (pos 5)
        1
        (pos 4)
        "wilted"
        unsaved).1.committed in
    (left.0 ≡ [])
    × (map (λ row. row.event_type) left.1
        ≡ "inventory.batch_written_off" ∷ "inventory.batch_received" ∷ [])
unfolding writeoff_batch writeoff pop_events publish new_row event_name run_tx tx_exec begin
    new_batch pool_exec
phantom = (refl, refl)

writeoff_batch_leaves_example :
    IsWrittenOff marshal aggregate_of put repo
      ([], [])
      (begin unsaved).1
      (writeoff (pos 5) (pos 4) "wilted" ten)
      (writeoff_batch marshal aggregate_of put repo (pos 5) 1 (pos 4) "wilted" unsaved)
unfolding begin
writeoff_batch_leaves_example =
    writeoff_batch_leaves marshal aggregate_of put repo (pos 5) 1 (pos 4) "wilted" ten unsaved refl
      refl

abbrev decode_writeoff : String → Result (BatchId × ℤ × String)
decode_writeoff _ = ok (1, pos 4, "wilted")

writeoff_batch_handler_reports_example :
    let (response, s') =
      writeoff_batch_handler marshal aggregate_of put repo
        (λ _. "driver")
        decode_writeoff
        (pos 5)
        "{}"
        unsaved in
    ((response.status ≡ 400) × (s' ≡ unsaved))
    ⊎ ((cmd : BatchId × ℤ × String) × (decode_writeoff "{}" ≡ ok cmd)
        × IsWriteOffReported marshal aggregate_of put repo
            (pos 5)
            cmd.0
            cmd.1
            cmd.2
            unsaved
            (response, s'))
writeoff_batch_handler_reports_example =
    writeoff_batch_handler_reports marshal aggregate_of put repo (λ _. "driver") decode_writeoff
      (pos 5) "{}" unsaved refl
