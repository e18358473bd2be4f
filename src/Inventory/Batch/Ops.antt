-- ===== src/Inventory/Batch/Ops.antt =====
-- The methods of `*Batch` as one type of calls, for what holds over any sequence of them.
use florist_core.Prelude.{String, Option, none, List, [], ◌∷◌, ◌++◌}
use florist_core.Prelude.Int.{ℤ}
use florist_core.Kernel.Errors.{Error}
use florist_core.Kernel.Types.{Time}
use florist_core.Inventory.Batch.{
  Batch, DomainEvent, consume, release, mark_aging, mark_critical, expire, writeoff, pop_events,
}

pub data Op : Type 0 where
  consume_op : Time → ℤ → Op
  release_op : ℤ → Op
  mark_aging_op : Time → Op
  mark_critical_op : Op
  expire_op : Time → Op
  writeoff_op : Time → ℤ → String → Op
  pop_op : Op

unfoldable pub apply : Op → Batch → Batch × Option Error
unfolding consume release mark_aging mark_critical expire writeoff pop_events
apply (consume_op now qty) b = consume now qty b
apply (release_op qty) b = (release qty b, none)
apply (mark_aging_op now) b = (mark_aging now b, none)
apply mark_critical_op b = (mark_critical b, none)
apply (expire_op now) b = expire now b
apply (writeoff_op now qty reason) b = writeoff now qty reason b
apply pop_op b = ((pop_events b).1, none)

-- The events that a call hands out: those of `PopEvents`.
abbrev pub handed : Op → Batch → List DomainEvent
handed pop_op b = b.events
handed _ b = []

-- The batch after the calls, whatever each of them returned.
unfoldable pub run : List Op → Batch → Batch
run [] b = b
run (op ∷ ops) b = run ops (apply op b).0

-- All events handed out on the way, in order.
unfoldable pub published : List Op → Batch → List DomainEvent
published [] b = []
published (op ∷ ops) b = handed op b ++ published ops (apply op b).0
