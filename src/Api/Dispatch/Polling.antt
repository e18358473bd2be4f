-- ===== src/Api/Dispatch/Polling.antt =====
-- A tick of the worker with `main`'s handler.
use florist_core.Prelude.{
  ℕ, zero, suc, ◌≡◌, refl, sym, ◌∙◌, ap, Bool, true, false, String, Option, none, some, List, [],
  ◌∷◌, All, if◌then◌else◌,
}
use florist_core.Kernel.Types.{BatchId, Time}
use florist_core.Inventory.Recalc.Table.{refreshed, map_row}
use florist_core.Inventory.Recalc.Run.{IsReady}
use florist_core.Inventory.Repository.{BatchRow, find_row}
use florist_core.Outbox.Worker.Calls.{IsDone, length, outside_after, process_once-IsDone}
use florist_core.Outbox.Table.{OutboxRow, ids}
use florist_core.Outbox.Worker.{World, selected, claim, returning}
use florist_core.Api.Dispatch.{Served, is_recalc, on_event, poll}
use florist_core.Api.Dispatch.Routes.{turn}

-- How many of the events call for a recalculation.
abbrev pub recalcs : List OutboxRow → ℕ
recalcs [] = 0
recalcs (ev ∷ evs) = let n = recalcs evs in if is_recalc ev.event_type then suc n else n

-- A row after `n` runs, of which `k` is the first.
abbrev pub looked : (ℕ → Time) → ℕ → ℕ → BatchRow → BatchRow
looked clock k zero r = r
looked clock k (suc n) r = looked clock (suc k) n (refreshed (clock k) r)

map_row-looked :
    (clock : ℕ → Time) (k n : ℕ) (o : Option BatchRow)
    → map_row (looked clock (suc k) n) (map_row (refreshed (clock k)) o)
      ≡ map_row (looked clock k (suc n)) o
map_row-looked clock k n none = refl
map_row-looked clock k n (some r) = refl

map_row-zero :
    (clock : ℕ → Time) (k : ℕ) (o : Option BatchRow) → map_row (looked clock k zero) o ≡ o
map_row-zero clock k none = refl
map_row-zero clock k (some r) = refl

-- One event and those after it.
counted :
    (clock : ℕ → Time) (c : Bool) (k n : ℕ) (o : Option BatchRow)
    → map_row
        (looked clock (if c then suc k else k) n)
        (if c then map_row (refreshed (clock k)) o else o)
      ≡ map_row (looked clock k (if c then suc n else n)) o
counted clock true k n o = map_row-looked clock k n o
counted clock false k n o = refl

module _ {X : Type 0} (clock : ℕ → Time) where
  abbrev IsServed : ℕ → Served X → Type 0
  IsServed n v = IsReady n v.session

  accepts :
      (n : ℕ) (v : Served X) (event_type payload : String)
      → IsServed (suc n) v
      → ((on_event clock v event_type payload).1 ≡ none)
        × IsServed n (on_event clock v event_type payload).0
  accepts n v event_type payload ready =
      let (taken, ready', _, _, _) = turn clock n v event_type payload ready in (taken, ready')

  -- The table after the events.
  after_events :
      (evs : List OutboxRow) (v : Served X)
      → IsServed (length evs) v
      → let v' = outside_after (on_event clock) evs v in
        ((j : BatchId)
          → find_row j v'.session.committed.batches
            ≡ map_row (looked clock v.runs (recalcs evs)) (find_row j v.session.committed.batches))
        × (v'.session.committed.outbox ≡ v.session.committed.outbox)
  after_events [] v ready =
      ((λ j. sym (map_row-zero clock v.runs (find_row j v.session.committed.batches))), refl)
  after_events (ev ∷ evs) v ready =
      let next = (on_event clock v ev.event_type ev.payload).0 in
      let c = is_recalc ev.event_type in
      let (_, ready', runs, rows, still) =
        turn clock (length evs) v ev.event_type ev.payload ready in
      let (rest, kept) = after_events evs next ready' in
      (
        λ j.
            rest j
            ∙ ap
                (λ k.
                  map_row (looked clock k (recalcs evs))
                    (find_row j next.session.committed.batches))
                runs
            ∙ ap (map_row (looked clock (if c then suc v.runs else v.runs) (recalcs evs))) (rows j)
            ∙ counted clock c v.runs (recalcs evs) (find_row j v.session.committed.batches),
        kept ∙ still,
      )

  -- A tick of the worker with the handler of `main`, on a working database where every row can be scanned, over a
  -- table of batches with its primary key and rows that its columns and checks allow, their versions with
  -- room for one save for each claimed event, and with no transaction open: every event that the tick
  -- selects is done after it, and the freshness of every active batch has been looked at once for each
  -- claimed event that is a consumption, an expiry or a write-off, each time by the clock of that run.
  -- What the recalculation finds gets no event of its own.
  pub poll_refreshes :
      (at : Time) (scans : OutboxRow → Bool) (w : World (Served X))
      → ((r : OutboxRow) → scans r ≡ true)
      → w.replies ≡ []
      → IsReady (length (returning (ids (selected w.rows)) (claim w.rows))) w.outside.session
      → let claimed = returning (ids (selected w.rows)) (claim w.rows) in
        let before = w.outside.session.committed in
        let w' = poll clock at scans w in
        ((j : BatchId)
          → find_row j w'.outside.session.committed.batches
            ≡ map_row (looked clock w.outside.runs (recalcs claimed)) (find_row j before.batches))
        × (w'.outside.session.committed.outbox ≡ before.outbox)
        × All (IsDone (ids (selected w.rows))) w'.rows
  unfolding poll
  poll_refreshes at scans w all quiet ready =
      let (same, each) =
        process_once-IsDone (on_event clock) at IsServed accepts scans w all quiet ready in
      let (rows, still) =
        after_events (returning (ids (selected w.rows)) (claim w.rows)) w.outside ready in
      (
        λ j. ap (λ z. find_row j z.session.committed.batches) same ∙ rows j,
        ap (λ z. z.session.committed.outbox) same ∙ still,
        each,
      )
