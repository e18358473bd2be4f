-- ===== src/Outbox/Publisher.antt =====
-- `OutboxEventPublisher` of internal/shared/postgres/event_publisher.go. `json.Marshal` and the
-- assertion to `AggregateEvent` are arguments; so is the statement that inserts a row, which goes to
-- the transaction or to the pool.
pub mod Complete
pub mod Loose
use Prim.Native.String.{◌++◌ as ◌<>◌}
use florist_core.Prelude.{String, Option, none, some, List, [], ◌∷◌}
use florist_core.Kernel.Errors.{Error, Result, ok, err, wrapped}
use florist_core.Db.{Session, Action, pure, raise, ◌>>=◌, ◌>>◌, wrap_error}

-- The columns that `insertOutboxSQL` sets.
pub record NewRow : Type 0 where
  pub aggregate_type : String
  pub aggregate_id : String
  pub event_type : String
  pub payload : String

-- `extractAggregate`
abbrev pub extract_aggregate : Option (String × String) → String × String
extract_aggregate none = ("unknown", "00000000-0000-0000-0000-000000000000")
extract_aggregate (some (kind, id)) = (kind, id)

module _ {E : Type 0} (event_name : E → String) (marshal : E → Result String)
    (aggregate_of : E → Option (String × String)) where
  unfoldable pub new_row : E → String → NewRow
  new_row ev payload =
      let (kind, id) = extract_aggregate (aggregate_of ev) in
      record {
        aggregate_type = kind;
        aggregate_id = id;
        event_type = event_name ev;
        payload = payload;
      }

  module _ {T X : Type 0} (insert : NewRow → Action T X (Unit {0})) where
    -- `PublishTx`, with `insert` on the transaction.
    unfoldable pub publish_tx : List E → Action T X (Unit {0})
    publish_tx [] = pure tt
    publish_tx (ev ∷ evs) =
        let rest = publish_tx evs in
        elim (marshal ev) [
          | err e ↦ raise (wrapped ("outbox publisher: marshal " <> event_name ev) e)
          | ok payload ↦
              wrap_error (wrapped ("outbox publisher: insert " <> event_name ev))
                (insert (new_row ev payload))
              >> rest
        ]

    -- `if len(events) > 0 { … }` around `PublishTx` in the handlers.
    abbrev pub publish_some : List E → Action T X (Unit {0})
    publish_some [] = pure tt
    publish_some (ev ∷ evs) = publish_tx (ev ∷ evs)

    -- `Publish`, with `insert` on the pool: an error is printed, and the next event follows.
    unfoldable pub publish : List E → Action T X (Unit {0})
    publish [] = pure tt
    publish (ev ∷ evs) =
        let rest = publish evs in
        elim (marshal ev) [
          | err _ ↦ rest
          | ok payload ↦ λ s. rest (insert (new_row ev payload) s).1
        ]
