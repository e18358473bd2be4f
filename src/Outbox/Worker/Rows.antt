-- ===== src/Outbox/Worker/Rows.antt =====
-- The tries of a row, through the rounds of the worker.
use florist_core.Prelude.{
  ℕ, zero, suc, ◌≡◌, ◌≢◌, ◌≤◌, ◌<◌, refl, Bool, true, Option, List, [], ◌∷◌, map, arith, All,
  All-imp, All-zip, All-All, All-map, Bool-cases, ◌==◌, inl, inr, if◌then◌else◌, String,
}
use florist_core.Kernel.Errors.{Error}
use florist_core.Kernel.Types.{Time}
use florist_core.Outbox.Table.{OutboxRow, pending, failed, contains, ids, NodupIds}
use florist_core.Outbox.Worker.{
  is_eligible, selected, mark, claim, returning, update_where, settle, World, next_reply, dispatch,
  dispatch_all, scanned, process_once, run_ticks,
}
use florist_core.Outbox.Worker.Select.{
  IsOnly, IsOnly-NodupIds, chosen-eligible, ids-mark, NodupIds-ids, returning-All,
}
use florist_core.Outbox.Worker.Labels.{dispatch-rows, process_once-NodupIds}

pub record RowOk (r : OutboxRow) : Type 0 where
  pub within : r.attempts ≤ r.max_attempts
  pub waiting : r.status ≡ pending → r.attempts < r.max_attempts
  pub given_up : r.status ≡ failed → r.attempts ≡ r.max_attempts
  pub tried : r.status ≢ pending → 1 ≤ r.attempts

-- What the loop knows of an event that it still holds: the row has these counts.
abbrev Agree : List OutboxRow → OutboxRow → Type 0
Agree rows ev =
    All
      (λ r.
        r.id ≡ ev.id
        → (r.attempts ≡ ev.attempts) × (r.max_attempts ≡ ev.max_attempts) × (1 ≤ r.attempts))
      rows

mark-RowOk :
    (chosen : List ℕ) (r : OutboxRow)
    → (contains r.id chosen ≡ true → is_eligible r ≡ true)
    → RowOk r
    → RowOk (mark chosen r)
unfolding mark is_eligible
mark-RowOk chosen r h k = ground arith

claim-RowOk : (rows : List OutboxRow) → NodupIds rows → All RowOk rows → All RowOk (claim rows)
unfolding claim
claim-RowOk rows u h = All-map RowOk (mark (ids (selected rows))) rows (
    All-imp (λ r. (contains r.id (ids (selected rows)) ≡ true → is_eligible r ≡ true) × RowOk r)
      (λ r. RowOk (mark (ids (selected rows)) r))
      (λ r k. mark-RowOk (ids (selected rows)) r k.0 k.1) rows
      (All-zip (λ r. contains r.id (ids (selected rows)) ≡ true → is_eligible r ≡ true) RowOk rows
        (chosen-eligible rows u) h))

settle-RowOk :
    (now : Time) (ev : OutboxRow) (answer : Option Error) (r : OutboxRow)
    → (r.id ≡ ev.id
        → (r.attempts ≡ ev.attempts) × (r.max_attempts ≡ ev.max_attempts) × (1 ≤ r.attempts))
    → RowOk r
    → RowOk (if r.id == ev.id then settle now ev answer r else r)
settle-RowOk now ev answer r h k = ground arith

-- Settling touches no identifier and no count.
pub settle-counts :
    (now : Time) (ev : OutboxRow) (answer : Option Error) (r : OutboxRow)
    → let r' = if r.id == ev.id then settle now ev answer r else r in
      (r'.id ≡ r.id) × (r'.attempts ≡ r.attempts) × (r'.max_attempts ≡ r.max_attempts)
settle-counts now ev answer r = ground arith

update-RowOk :
    (now : Time) (ev : OutboxRow) (answer : Option Error) (rows : List OutboxRow)
    → Agree rows ev
    → All RowOk rows
    → All RowOk (update_where ev.id (settle now ev answer) rows)
unfolding update_where
update-RowOk now ev answer [] a h = tt
update-RowOk now ev answer (r ∷ rows) a h =
    (settle-RowOk now ev answer r a.0 h.0, update-RowOk now ev answer rows a.1 h.1)

update-Agree :
    (now : Time) (ev : OutboxRow) (answer : Option Error) (e : OutboxRow) (rows : List OutboxRow)
    → Agree rows e
    → Agree (update_where ev.id (settle now ev answer) rows) e
unfolding update_where
update-Agree now ev answer e [] a = tt
update-Agree now ev answer e (r ∷ rows) a =
    let same = settle-counts now ev answer r in
    (ground (arith, a.0), update-Agree now ev answer e rows a.1)

abbrev KnownIn : List ℕ → List OutboxRow → OutboxRow → Type 0
KnownIn chosen rows r =
    IsOnly rows r × (RowOk r × (contains r.id chosen ≡ true → r.status ≢ pending))

known-Agree :
    (chosen : List ℕ) (rows : List OutboxRow) (ev : OutboxRow)
    → contains ev.id chosen ≡ true
    → KnownIn chosen rows ev
    → Agree rows ev
known-Agree chosen rows ev c k =
    let tried : 1 ≤ ev.attempts = k.1.0.tried (k.1.1 c) in
    All-imp (λ r. r.id ≡ ev.id → r ≡ ev)
      (λ r.
        r.id ≡ ev.id
        → (r.attempts ≡ ev.attempts) × (r.max_attempts ≡ ev.max_attempts) × (1 ≤ r.attempts))
      (λ r only e. let same : r ≡ ev = only e in rw same (refl, refl, tried)) rows k.0

-- The events of a round are rows of the claimed table.
returning-Agree :
    (chosen : List ℕ) (rows : List OutboxRow)
    → NodupIds rows
    → All RowOk rows
    → All (λ r. contains r.id chosen ≡ true → r.status ≢ pending) rows
    → All (Agree rows) (returning chosen rows)
returning-Agree chosen rows u h p =
    All-imp (λ ev. (contains ev.id chosen ≡ true) × KnownIn chosen rows ev) (Agree rows)
      (λ ev k. known-Agree chosen rows ev k.0 k.1) (returning chosen rows)
      (returning-All (KnownIn chosen rows) chosen rows (
        All-zip (IsOnly rows) (λ r. RowOk r × (contains r.id chosen ≡ true → r.status ≢ pending))
          rows (IsOnly-NodupIds rows u)
          (All-zip RowOk (λ r. contains r.id chosen ≡ true → r.status ≢ pending) rows h p)))

module _ {W : Type 0} (handler : W → String → String → W × Option Error) (now : Time) where
  dispatch_all-RowOk :
      (evs : List OutboxRow) (w : World W)
      → All (Agree w.rows) evs
      → All RowOk w.rows
      → All RowOk (dispatch_all handler now evs w).rows
  unfolding dispatch_all
  dispatch_all-RowOk [] w a h = h
  dispatch_all-RowOk (ev ∷ evs) w a h =
      dispatch_all-RowOk evs (dispatch handler now ev w)
        (All-imp (Agree w.rows) (Agree (dispatch handler now ev w).rows)
          (λ e k.
            dispatch-rows handler now (λ rows. Agree rows e) ev w k
              (λ answer. update-Agree now ev answer e w.rows k))
          evs a.1)
        (dispatch-rows handler now (All RowOk) ev w h
          (λ answer. update-RowOk now ev answer w.rows a.0 h))

pub scanned-All :
    (P : OutboxRow → Type 0) (scans : OutboxRow → Bool) (rows : List OutboxRow)
    → All P rows
    → All P (scanned scans rows)
unfolding scanned
scanned-All P scans [] h = tt
scanned-All P scans (r ∷ rows) h = elim (Bool-cases (scans r)) [
  | inl e ↦ rw e (h.0, scanned-All P scans rows h.1)
  | inr e ↦ rw e tt
]

mark-processing :
    (chosen : List ℕ) (r : OutboxRow)
    → contains (mark chosen r).id chosen ≡ true
    → (mark chosen r).status ≢ pending
unfolding mark
mark-processing chosen r h = ground arith

claim-Agree :
    (rows : List OutboxRow)
    → NodupIds rows
    → All RowOk rows
    → All (Agree (claim rows)) (returning (ids (selected rows)) (claim rows))
unfolding claim
claim-Agree rows u h =
    let chosen = ids (selected rows) in
    returning-Agree chosen (map (mark chosen) rows)
      (NodupIds-ids (map (mark chosen) rows) rows (ids-mark chosen rows) u) (claim-RowOk rows u h)
      (All-map (λ r. contains r.id chosen ≡ true → r.status ≢ pending) (mark chosen) rows
        (All-All (λ r. contains (mark chosen r).id chosen ≡ true → (mark chosen r).status ≢ pending)
          (mark-processing chosen) rows))

module _ {W : Type 0} (handler : W → String → String → W × Option Error) (now : Time) where
  module _ (scans : OutboxRow → Bool) where
    process_once-RowOk :
        (w : World W)
        → NodupIds w.rows
        → All RowOk w.rows
        → All RowOk (process_once handler now scans w).rows
    unfolding process_once
    process_once-RowOk w u h = elim (Bool-cases (next_reply w.replies).0) [
      | inl e ↦ rw e (
          dispatch_all-RowOk handler now _ _
            (scanned-All (Agree (claim w.rows)) scans _ (claim-Agree w.rows u h))
            (claim-RowOk w.rows u h))
      | inr e ↦ rw e h
    ]

    -- Over any number of rounds, with any handler and any failures of the database, on a table with
    -- no identifier twice and sound counts of tries: no event is tried more than the maximum of its
    -- row, one that waits has tries left, one is given up only at the maximum of its row, and any
    -- other than a waiting one has been tried. The maximum that the worker is built with, which the
    -- comment on it takes for the limit, plays no part.
    pub run_ticks-RowOk :
        (n : ℕ) (w : World W)
        → NodupIds w.rows
        → All RowOk w.rows
        → All RowOk (run_ticks handler now scans n w).rows
    unfolding run_ticks
    run_ticks-RowOk zero w u h = h
    run_ticks-RowOk (suc n) w u h =
        run_ticks-RowOk n (process_once handler now scans w)
          (process_once-NodupIds handler now scans w u) (process_once-RowOk w u h)
