-- ===== src/Outbox/Worker/Calls.antt =====
-- A tick with a handler that accepts every event.
use florist_core.Prelude.{
  suc, ◌≡◌, ◌⊎◌, inl, refl, Bool, true, String, Option, none, List, [], ◌∷◌, All, All-imp, arith,
  if◌then◌else◌, ◌==◌, ℕ,
}
use florist_core.Kernel.Errors.{Error}
use florist_core.Kernel.Types.{Time}
use florist_core.Outbox.Table.{OutboxRow, done, contains, ids}
use florist_core.Outbox.Worker.{
  World, settle, update_where, dispatch, dispatch_all, selected, claim, returning, process_once,
}
use florist_core.Outbox.Worker.Backlog.{process_once-carried}
use florist_core.Outbox.Worker.Delivery.{returning_complete, scanned_all}

-- A row that was claimed is done, or the loop still holds it.
abbrev Awaited : List ℕ → List OutboxRow → OutboxRow → Type 0
Awaited chosen evs r =
    contains r.id chosen ≡ true → (contains r.id (ids evs) ≡ true) ⊎ (r.status ≡ done)

settle-Awaited :
    (at : Time) (chosen : List ℕ) (ev : OutboxRow) (evs : List OutboxRow) (r : OutboxRow)
    → Awaited chosen (ev ∷ evs) r
    → Awaited chosen evs (if r.id == ev.id then settle at ev none r else r)
settle-Awaited at chosen ev evs r h = ground arith

update-Awaited :
    (at : Time) (chosen : List ℕ) (ev : OutboxRow) (evs rows : List OutboxRow)
    → All (Awaited chosen (ev ∷ evs)) rows
    → All (Awaited chosen evs) (update_where ev.id (settle at ev none) rows)
unfolding update_where
update-Awaited at chosen ev evs [] h = tt
update-Awaited at chosen ev evs (r ∷ rows) h =
    (settle-Awaited at chosen ev evs r h.0, update-Awaited at chosen ev evs rows h.1)

-- At a tick the selected events are done.
abbrev pub IsDone : List ℕ → OutboxRow → Type 0
IsDone chosen r = contains r.id chosen ≡ true → r.status ≡ done

abbrev pub length : List OutboxRow → ℕ
length [] = 0
length (ev ∷ evs) = suc (length evs)

-- What the handler acts on, after these events.
module _ {W : Type 0} (handler : W → String → String → W × Option Error) where
  abbrev pub outside_after : List OutboxRow → W → W
  outside_after [] s = s
  outside_after (ev ∷ evs) s = outside_after evs (handler s ev.event_type ev.payload).0

module _ {W : Type 0} (handler : W → String → String → W × Option Error) (at : Time) where
  module _ (I : ℕ → W → Type 0)
      (accepts : (n : ℕ) (s : W) (event_type payload : String)
        → I (suc n) s
        → ((handler s event_type payload).1 ≡ none) × I n (handler s event_type payload).0) where
    dispatch_all-IsDone :
        (chosen : List ℕ) (evs : List OutboxRow) (w : World W)
        → w.replies ≡ []
        → I (length evs) w.outside
        → All (Awaited chosen evs) w.rows
        → ((dispatch_all handler at evs w).outside ≡ outside_after handler evs w.outside)
          × All (IsDone chosen) (dispatch_all handler at evs w).rows
    unfolding dispatch_all dispatch
    dispatch_all-IsDone chosen [] w quiet i h =
        (refl, All-imp (Awaited chosen []) (IsDone chosen) (λ r k. ground arith) w.rows h)
    dispatch_all-IsDone chosen (ev ∷ evs) w quiet i h =
        let (accepted, i') = accepts (length evs) w.outside ev.event_type ev.payload i in
        dispatch_all-IsDone chosen evs (dispatch handler at ev w) (simp quiet refl) i'
          (rw (quiet, accepted) (update-Awaited at chosen ev evs w.rows h))

    -- Where a handler, from a state in which the invariant `I` holds for one call more, accepts whatever event and
    -- keeps the invariant for the calls that are left, every event that a tick selects is done after it, and has been handed to the
    -- handler once, in the order of the loop: on a working database where every row can be scanned.
    pub process_once-IsDone :
        (scans : OutboxRow → Bool) (w : World W)
        → ((r : OutboxRow) → scans r ≡ true)
        → w.replies ≡ []
        → I (length (returning (ids (selected w.rows)) (claim w.rows))) w.outside
        → let w' = process_once handler at scans w in
          (w'.outside
            ≡ outside_after handler (returning (ids (selected w.rows)) (claim w.rows)) w.outside)
          × All (IsDone (ids (selected w.rows))) w'.rows
    process_once-IsDone scans w all quiet i =
        let chosen = ids (selected w.rows) in
        let claimed = claim w.rows in
        let evs = returning chosen claimed in
        rw (process_once-carried handler at scans w quiet, scanned_all scans evs all)
          (dispatch_all-IsDone chosen evs
            (record { rows = claimed; outside = w.outside; replies = [] }) refl i
            (All-imp (λ r. contains r.id chosen ≡ true → contains r.id (ids evs) ≡ true)
              (Awaited chosen evs) (λ r k c. inl (k c)) claimed
              (returning_complete chosen claimed)))
