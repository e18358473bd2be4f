-- ===== src/Inventory/Handlers.antt =====
-- The handlers of internal/inventory/application/receive_batch.go and writeoff_batch.go
-- over the port `BatchRepository` that the first declares, of which the repository has no
-- implementation with the two `Tx` methods, and over the publisher of Outbox/Publisher.antt. `write_off` is
-- the method that `WriteOffBatchHandler` calls and no file declares: the batch has `Writeoff` alone.
pub mod Atomic
pub mod WriteOff
mod Tests
use florist_core.Prelude.{String, Option, none, some, List, [], ◌∷◌, ◌≡◌, ◌⊎◌}
use florist_core.Prelude.Int.{ℤ}
use florist_core.Kernel.Errors.{Error, Result, ok, err}
use florist_core.Kernel.Types.{BatchId, StoreId, IngredientId, Time, unchecked_money}
use florist_core.Inventory.Batch.{
  Batch, DomainEvent, event_name, new_batch, consume, writeoff, pop_events,
}
use florist_core.Outbox.Publisher.{NewRow, publish_some, publish}
use florist_core.Outbox.Publisher.Loose.{insert_pool}
use florist_core.Outbox.Publisher.Complete.{insert_tx}
use florist_core.Db.{Action, Session, pure, check, ◌>>=◌, ◌>>◌, run_tx}
use florist_core.Db.Atomic.{IsPending}

-- The methods that the handlers call. "Tx variants write into a transaction that is open
-- already, without a commit of their own"; a query commits nothing and leaves none open.
pub record BatchRepository (T X : Type 0) : Type 1 where
  pub find_by_id : BatchId → Action T X Batch
  pub save_tx : Batch → Action T X (Unit {0})
  pub update_tx : Batch → Action T X (Unit {0})
  pub find_by_id-IsQuery :
      (id : BatchId) (s : Session T X)
      → ((find_by_id id s).1.committed ≡ s.committed) × ((find_by_id id s).1.working ≡ s.working)
  pub save_tx-IsPending : (b : Batch) → IsPending (save_tx b)
  pub update_tx-IsPending : (b : Batch) → IsPending (update_tx b)

pub record ReceiveBatchCommand : Type 0 where
  pub store_id : StoreId
  pub ingredient_id : IngredientId
  pub qty : ℤ
  pub price_kopecks : ℤ
  pub currency : String
  pub received_at : Time
  pub expires_at : Time

-- The batch that the command makes. `id` is the new identifier, `now` the time of its first event.
abbrev pub received : BatchId → Time → ReceiveBatchCommand → Batch
received id now cmd =
    new_batch id now cmd.store_id cmd.ingredient_id cmd.qty
      (unchecked_money cmd.price_kopecks cmd.currency) cmd.received_at cmd.expires_at

module _ {T X : Type 0} (marshal : DomainEvent → Result String)
    (aggregate_of : DomainEvent → Option (String × String)) (put : NewRow → T → T)
    (repo : BatchRepository T X) where
  abbrev pub publish_events : List DomainEvent → Action T X (Unit {0})
  publish_events = publish_some event_name marshal aggregate_of (insert_tx put)

  abbrev pub receive_body : Batch → Action T X BatchId
  receive_body b = do _ ← repo.save_tx b; _ ← publish_events (pop_events b).0; pure b.id

  unfoldable pub receive_batch : BatchId → Time → ReceiveBatchCommand → Action T X BatchId
  unfolding pop_events new_batch
  receive_batch id now cmd = run_tx (receive_body (received id now cmd))

  abbrev pub consume_body : Batch → Action T X (Unit {0})
  consume_body b = do _ ← repo.update_tx b; _ ← publish_events (pop_events b).0; pure tt

  abbrev pub consume_and_save : Batch × Option Error → Action T X (Unit {0})
  consume_and_save (b, e) = check e >> run_tx (consume_body b)

  unfoldable pub consume_batch : Time → BatchId → ℤ → Action T X (Unit {0})
  unfolding pop_events consume
  consume_batch now id qty = repo.find_by_id id >>= λ b. consume_and_save (consume now qty b)

  unfoldable pub write_off_batch :
      (String → Batch → Batch × Option Error) → BatchId → String → Action T X (Unit {0})
  unfolding pop_events
  write_off_batch write_off id reason =
      repo.find_by_id id >>= λ b. consume_and_save (write_off reason b)

  -- The end of the body of `WriteoffBatchHandler`: the update is in the transaction, the publication is not. The
  -- publisher is the one of internal/shared/postgres/event_publisher.go, whose `Publish` answers no error, so that the
  -- error which the handler would pass on does not come up.
  abbrev pub save_and_publish : Batch × Option Error → Action T X (Unit {0})
  save_and_publish (b, e) =
      check e
      >> repo.update_tx b
      >> publish event_name marshal aggregate_of (insert_pool put) (pop_events b).0

  abbrev pub writeoff_body : Time → BatchId → ℤ → String → Action T X (Unit {0})
  writeoff_body now id qty reason =
      repo.find_by_id id >>= λ b. save_and_publish (writeoff now qty reason b)

  unfoldable pub writeoff_batch : Time → BatchId → ℤ → String → Action T X (Unit {0})
  unfolding pop_events writeoff
  writeoff_batch now id qty reason = run_tx (writeoff_body now id qty reason)
