-- ===== src/Outbox/Direct.antt =====
-- `Publisher` of internal/shared/infrastructure/outbox/publisher.go over the table `domain_events_outbox`
-- of migrations/001_init.up.sql. `json.Marshal` and the methods of an event are arguments.
-- Logging is left out, and so is the timeout of `Publish`, after which a statement fails.
pub mod Prefix
mod Tests
use Prim.Native.String.{◌++◌ as ◌<>◌}
use florist_core.Prelude.{Bool, true, false, String, List, [], ◌∷◌, some, if◌then◌else◌}
use florist_core.Kernel.Errors.{Result, ok, err, wrapped}
use florist_core.Kernel.Types.{Time}
use florist_core.Db.{Action, Statement, pure, raise, ◌>>=◌, ◌>>◌, wrap_error, pool_exec, tx_exec}

-- The columns of the insertion.
pub record EventRow : Type 0 where
  pub event_name : String
  pub aggregate_id : String
  pub payload : String
  pub occurred_at : Time

-- What the methods of an event answer, and its JSON.
pub record EventMethods (E : Type 0) : Type 0 where
  pub event_name : E → String
  pub aggregate_id : E → String
  pub occurred_at : E → Time
  pub marshal : E → Result String

abbrev pub row_of : {E : Type 0} → EventMethods E → E → String → EventRow
row_of ev e payload = record {
  event_name = ev.event_name e;
  aggregate_id = ev.aggregate_id e;
  payload = payload;
  occurred_at = ev.occurred_at e;
}

abbrev pub insert : {T : Type 0} → (EventRow → T → T) → EventRow → Statement T (Unit {0})
insert put row t = some (tt, put row t)

module _ {E T X : Type 0} (ev : EventMethods E) (put : EventRow → T → T) where
  -- `querier`: the transaction where there is one, and the pool otherwise.
  abbrev pub query : Bool → EventRow → Action T X (Unit {0})
  query in_tx row = if in_tx then tx_exec (insert put row) else pool_exec (insert put row)

  -- `PublishTx`; the flag says whether `tx` is not nil.
  unfoldable pub publish_tx : Bool → List E → Action T X (Unit {0})
  publish_tx in_tx [] = pure tt
  publish_tx in_tx (e ∷ events) =
      let rest = publish_tx in_tx events in
      elim (ev.marshal e) [
        | err x ↦ raise (wrapped ("outbox: marshal event " <> ev.event_name e) x)
        | ok payload ↦
            wrap_error (wrapped ("outbox: insert event " <> ev.event_name e))
              (query in_tx (row_of ev e payload))
            >> rest
      ]

  unfoldable pub publish : List E → Action T X (Unit {0})
  unfolding publish_tx
  publish events = publish_tx false events
