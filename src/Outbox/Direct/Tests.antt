-- ===== src/Outbox/Direct/Tests.antt =====
-- Two events, of which the second is lost.
use florist_core.Prelude.{◌≡◌, refl, String, List, [], ◌∷◌, true, false}
use florist_core.Prelude.Int.{pos}
use florist_core.Kernel.Errors.{ok, err, driver, wrapped}
use florist_core.Outbox.Direct.{EventRow, EventMethods, row_of, publish, publish_tx}
use florist_core.Outbox.Direct.Prefix.{IsPublished, publish_prefix}
use florist_core.Db.{Session, pool_exec, tx_exec}

abbrev methods : EventMethods String
methods = record {
  event_name = λ e. e;
  aggregate_id = λ _. "id";
  occurred_at = λ _. pos 4;
  marshal = λ _. ok "{}";
}

abbrev put : EventRow → List EventRow → List EventRow
put row t = row ∷ t

abbrev session : Session (List EventRow) (Unit {0})
session = record { committed = []; working = []; outside = tt; replies = true ∷ false ∷ [] }

second_lost :
    ((publish methods put ("a" ∷ "b" ∷ []) session).0
      ≡ err (wrapped "outbox: insert event b" driver))
    × ((publish methods put ("a" ∷ "b" ∷ []) session).1.committed ≡ row_of methods "a" "{}" ∷ [])
unfolding publish pool_exec
second_lost = (refl, refl)

-- In a transaction the first row is not committed either.
nothing_committed : (publish_tx methods put true ("a" ∷ "b" ∷ []) session).1.committed ≡ []
unfolding publish_tx tx_exec
nothing_committed = refl

publish_prefix_example :
    IsPublished methods put ("a" ∷ "b" ∷ []) [] (publish methods put ("a" ∷ "b" ∷ []) session)
publish_prefix_example = publish_prefix methods put ("a" ∷ "b" ∷ []) session
