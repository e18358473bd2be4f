-- ===== src/Inventory/Http.antt =====
-- internal/inventory/http/handlers.go: the requests that receive, consume and write off.
pub mod Reports
pub mod WriteOff
use florist_core.Prelude.{String, Option}
use florist_core.Prelude.Int.{ℤ}
use florist_core.Kernel.Errors.{Error, Result}
use florist_core.Kernel.Types.{BatchId, Time}
use florist_core.Inventory.Batch.{DomainEvent}
use florist_core.Inventory.Handlers.{
  BatchRepository, ReceiveBatchCommand, receive_batch, consume_batch, writeoff_batch,
}
use florist_core.Outbox.Publisher.{NewRow}
use florist_core.Http.{Serving, no_content, answered, decoded}

module _ {T X : Type 0} (marshal : DomainEvent → Result String)
    (aggregate_of : DomainEvent → Option (String × String)) (put : NewRow → T → T)
    (repo : BatchRepository T X) (text_of : Error → String) where
  unfoldable pub receive_batch_handler :
      (String → Result ReceiveBatchCommand) → BatchId → Time → String → Serving T X String
  unfolding receive_batch
  receive_batch_handler decode id now body = decoded (decode body) λ cmd s.
      answered text_of (λ _. no_content 201)
        (receive_batch marshal aggregate_of put repo id now cmd s)

  -- The two fields of the command are decoded as a pair.
  unfoldable pub consume_batch_handler :
      (String → Result (BatchId × ℤ)) → Time → String → Serving T X String
  unfolding consume_batch
  consume_batch_handler decode now body = decoded (decode body) λ cmd s.
      answered text_of (λ _. no_content 200)
        (consume_batch marshal aggregate_of put repo now cmd.0 cmd.1 s)

  -- The three fields of the command, as a triple.
  unfoldable pub writeoff_batch_handler :
      (String → Result (BatchId × ℤ × String)) → Time → String → Serving T X String
  unfolding writeoff_batch
  writeoff_batch_handler decode now body = decoded (decode body) λ cmd s.
      answered text_of (λ _. no_content 200)
        (writeoff_batch marshal aggregate_of put repo now cmd.0 cmd.1 cmd.2 s)
