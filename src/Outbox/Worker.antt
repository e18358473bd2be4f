-- ===== src/Outbox/Worker.antt =====
-- `OutboxWorker.processOnce` of internal/shared/postgres/outbox_worker.go over the table. The handler
-- is an argument that acts on a state of its own; `replies` says of each coming statement whether
-- the database carries it out. `RETURNING` leaves the order of its rows open: here it is that of the
-- table. `scans` says which returned rows `rows.Scan` accepts.
-- One clock reading stands for the `NOW()` of all updates of a tick. The limit of tries is the column max_attempts of
-- the row: `maxAttempts` of the worker is set and never read.
pub mod Select
pub mod Labels
pub mod Rows
pub mod Backlog
pub mod Final
pub mod Delivery
pub mod Calls
mod Tests
use florist_core.Prelude.{
  ℕ, zero, suc, ◌+◌, Bool, true, false, String, Option, none, some, List, [], ◌∷◌, map, ltb, leb,
  ◌==◌, ◌&&◌, if◌then◌else◌,
}
use florist_core.Prelude.Int.{ℤ, pos, leb_ℤ}
use florist_core.Kernel.Errors.{Error}
use florist_core.Kernel.Types.{Uuid, Time}
use florist_core.Outbox.Table.{OutboxRow, Status, pending, processing, done, failed, contains, ids}

pub record Settings : Type 0 where
  pub interval : ℤ
  pub max_attempts : ℤ

-- `NewOutboxWorker`: values that are not positive are replaced by two seconds and five attempts.
pub new_outbox_worker : ℤ → ℤ → Settings
new_outbox_worker interval max_attempts = record {
  interval = if leb_ℤ interval (pos 0) then pos 2_000_000_000 else interval;
  max_attempts = if leb_ℤ max_attempts (pos 0) then pos 5 else max_attempts;
}

abbrev pub is_pending : Status → Bool
is_pending pending = true
is_pending _ = false

-- `status = 'pending' AND attempts < max_attempts`
unfoldable pub is_eligible : OutboxRow → Bool
is_eligible r = is_pending r.status && ltb r.attempts r.max_attempts

unfoldable pub eligible : List OutboxRow → List OutboxRow
unfolding is_eligible
eligible [] = []
eligible (r ∷ rs) = let rest = eligible rs in if is_eligible r then r ∷ rest else rest

-- `ORDER BY created_at`
unfoldable pub insert_by_age : OutboxRow → List OutboxRow → List OutboxRow
insert_by_age r [] = r ∷ []
insert_by_age r (x ∷ xs) =
    if leb_ℤ r.created_at x.created_at then r ∷ x ∷ xs else x ∷ insert_by_age r xs

unfoldable pub sort_by_age : List OutboxRow → List OutboxRow
unfolding insert_by_age
sort_by_age [] = []
sort_by_age (r ∷ rs) = insert_by_age r (sort_by_age rs)

-- `LIMIT n`
unfoldable pub take : ℕ → List OutboxRow → List OutboxRow
take zero rs = []
take (suc n) [] = []
take (suc n) (r ∷ rs) = r ∷ take n rs

abbrev pub batch_limit : ℕ
batch_limit = 50

-- The rows that the inner `SELECT` finds.
unfoldable pub selected : List OutboxRow → List OutboxRow
unfolding eligible sort_by_age take
selected rows = take batch_limit (sort_by_age (eligible rows))

unfoldable pub mark : List Uuid → OutboxRow → OutboxRow
mark chosen r =
    if contains r.id chosen then record r { status = processing; attempts = r.attempts + 1 } else r

-- `UPDATE … SET status = 'processing', attempts = attempts + 1 WHERE id IN (…)`
unfoldable pub claim : List OutboxRow → List OutboxRow
unfolding selected mark
claim rows = map (mark (ids (selected rows))) rows

-- `RETURNING`
unfoldable pub returning : List Uuid → List OutboxRow → List OutboxRow
returning chosen [] = []
returning chosen (r ∷ rs) =
    let rest = returning chosen rs in if contains r.id chosen then r ∷ rest else rest

-- `UPDATE outbox_events SET … WHERE id = $n`
pub update_where : Uuid → (OutboxRow → OutboxRow) → List OutboxRow → List OutboxRow
update_where id set = map (λ r. if r.id == id then set r else r)

pub record World (W : Type 0) : Type 0 where
  pub rows : List OutboxRow
  pub outside : W
  pub replies : List Bool

-- Whether the next statement is carried out, and the replies after it.
abbrev pub next_reply : List Bool → Bool × List Bool
next_reply [] = (true, [])
next_reply (r ∷ rs) = (r, rs)

-- The columns that are set after the handler's answer: `done`, or another try unless the attempts are
-- used up.
abbrev pub settle : Time → OutboxRow → Option Error → OutboxRow → OutboxRow
settle now ev none r = record r { status = done; processed_at = some now }
settle now ev (some _) r = record r {
  status = if leb ev.max_attempts ev.attempts then failed else pending;
}

-- The rows that could be scanned: the `continue` after an error is followed by no other row, since pgx closes the rows
-- where `Scan` fails.
pub scanned : (OutboxRow → Bool) → List OutboxRow → List OutboxRow
scanned scans [] = []
scanned scans (r ∷ rs) = let rest = scanned scans rs in if scans r then r ∷ rest else []

module _ {W : Type 0} (handler : W → String → String → W × Option Error) (now : Time) where
  -- One round of the loop over the events; an error of `w.db.Exec` is ignored.
  pub dispatch : OutboxRow → World W → World W
  unfolding update_where
  dispatch ev w =
      let (outside, answer) = handler w.outside ev.event_type ev.payload in
      let (carried, replies) = next_reply w.replies in
      record {
        rows = if carried then update_where ev.id (settle now ev answer) w.rows else w.rows;
        outside = outside;
        replies = replies;
      }

  pub dispatch_all : List OutboxRow → World W → World W
  unfolding dispatch
  dispatch_all [] w = w
  dispatch_all (ev ∷ evs) w = dispatch_all evs (dispatch ev w)

  module _ (scans : OutboxRow → Bool) where
    pub process_once : World W → World W
    unfolding selected claim returning scanned dispatch_all
    process_once w =
        let (carried, replies) = next_reply w.replies in
        if carried
        then (let claimed = claim w.rows in
            dispatch_all (scanned scans (returning (ids (selected w.rows)) claimed))
              (record { rows = claimed; outside = w.outside; replies = replies }))
        else record { rows = w.rows; outside = w.outside; replies = replies }

    -- The ticks of `Run`.
    pub run_ticks : ℕ → World W → World W
    run_ticks zero w = w
    run_ticks (suc n) w = run_ticks n (process_once w)
