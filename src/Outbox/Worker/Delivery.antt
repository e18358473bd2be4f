-- ===== src/Outbox/Worker/Delivery.antt =====
-- Where the events end on a working database.
use florist_core.Prelude.{
  ℕ, zero, suc, ◌≡◌, ◌≢◌, ◌≤◌, ◌⊎◌, refl, ap, Bool, true, false, Option, List, [], ◌∷◌, map, arith,
  All, All-imp, All-zip, All-map, Bool-cases, ◌==◌, inl, inr, if◌then◌else◌, String,
}
use florist_core.Kernel.Errors.{Error}
use florist_core.Kernel.Types.{Time}
use florist_core.Outbox.Table.{OutboxRow, processing, done, failed, contains, ids, NodupIds}
use florist_core.Outbox.Worker.{
  is_eligible, eligible, selected, mark, claim, returning, update_where, settle, World, dispatch,
  dispatch_all, scanned, process_once, run_ticks,
}
use florist_core.Outbox.Worker.Rows.{RowOk, run_ticks-RowOk}
use florist_core.Outbox.Worker.Backlog.{
  backlog, process_once-carried, process_once-replies, run_ticks-drains,
}

-- A row is settled, or is still among the events that the loop holds.
abbrev Open : List OutboxRow → OutboxRow → Type 0
Open evs r = (contains r.id (ids evs) ≡ true) ⊎ (r.status ≢ processing)

settle-Open :
    (now : Time) (ev : OutboxRow) (evs : List OutboxRow) (answer : Option Error) (r : OutboxRow)
    → Open (ev ∷ evs) r
    → Open evs (if r.id == ev.id then settle now ev answer r else r)
settle-Open now ev evs answer r h = ground arith

pub returning_complete :
    (chosen : List ℕ) (rows : List OutboxRow)
    → All
        (λ r. contains r.id chosen ≡ true → contains r.id (ids (returning chosen rows)) ≡ true)
        rows
unfolding returning
returning_complete chosen [] = tt
returning_complete chosen (r ∷ rows) = (
  λ c. rw c (ground arith),
  All-imp (λ x. contains x.id chosen ≡ true → contains x.id (ids (returning chosen rows)) ≡ true)
      (λ x. contains x.id chosen ≡ true → contains x.id (ids (returning chosen (r ∷ rows))) ≡ true)
      (λ x h c. kept x (h c)) rows (returning_complete chosen rows),
)
  where
    kept :
        (x : OutboxRow)
        → contains x.id (ids (returning chosen rows)) ≡ true
        → contains x.id (ids (returning chosen (r ∷ rows))) ≡ true
    kept x h = ground arith

claimed-Open :
    (chosen : List ℕ) (rows : List OutboxRow)
    → All (λ r. r.status ≢ processing) rows
    → All (Open (returning chosen (map (mark chosen) rows))) (map (mark chosen) rows)
claimed-Open chosen rows h =
    let claimed = map (mark chosen) rows in
    All-imp
      (λ r.
        (contains r.id chosen ≡ true → contains r.id (ids (returning chosen claimed)) ≡ true)
        × ((contains r.id chosen ≡ true) ⊎ (r.status ≢ processing)))
      (Open (returning chosen claimed))
      (λ r k.
        open_of (contains r.id chosen) (contains r.id (ids (returning chosen claimed))) r k.0 k.1)
      claimed
      (All-zip
        (λ r. contains r.id chosen ≡ true → contains r.id (ids (returning chosen claimed)) ≡ true)
        (λ r. (contains r.id chosen ≡ true) ⊎ (r.status ≢ processing)) claimed
        (returning_complete chosen claimed)
        (All-map (λ r. (contains r.id chosen ≡ true) ⊎ (r.status ≢ processing)) (mark chosen) rows
          (All-imp (λ r. r.status ≢ processing)
            (λ r.
              (contains (mark chosen r).id chosen ≡ true) ⊎ ((mark chosen r).status ≢ processing))
            (marked chosen) rows h)))
  where
    open_of :
        (c d : Bool) (r : OutboxRow)
        → (c ≡ true → d ≡ true)
        → (c ≡ true) ⊎ (r.status ≢ processing)
        → (d ≡ true) ⊎ (r.status ≢ processing)
    open_of c d r f (inl e) = inl (f e)
    open_of c d r f (inr e) = inr e

    marked :
        (chosen : List ℕ) (r : OutboxRow)
        → r.status ≢ processing
        → (contains (mark chosen r).id chosen ≡ true) ⊎ ((mark chosen r).status ≢ processing)
    marked chosen r h = unfold mark in ground arith

pub scanned_all :
    (scans : OutboxRow → Bool) (rows : List OutboxRow)
    → ((r : OutboxRow) → scans r ≡ true)
    → scanned scans rows ≡ rows
unfolding scanned
scanned_all scans [] h = refl
scanned_all scans (r ∷ rows) h = rw (h r) (ap (◌∷◌ r) (scanned_all scans rows h))

update-Open :
    (now : Time) (ev : OutboxRow) (evs : List OutboxRow) (answer : Option Error)
    (rows : List OutboxRow)
    → All (Open (ev ∷ evs)) rows
    → All (Open evs) (update_where ev.id (settle now ev answer) rows)
unfolding update_where
update-Open now ev evs answer [] h = tt
update-Open now ev evs answer (r ∷ rows) h =
    (settle-Open now ev evs answer r h.0, update-Open now ev evs answer rows h.1)

module _ {W : Type 0} (handler : W → String → String → W × Option Error) (now : Time) where
  dispatch_all-settled :
      (evs : List OutboxRow) (w : World W)
      → w.replies ≡ []
      → All (Open evs) w.rows
      → All (λ r. r.status ≢ processing) (dispatch_all handler now evs w).rows
  unfolding dispatch_all dispatch
  dispatch_all-settled [] w r h =
      All-imp (Open []) (λ r. r.status ≢ processing) (λ x k. ground arith) w.rows h
  dispatch_all-settled (ev ∷ evs) w r h =
      dispatch_all-settled evs (dispatch handler now ev w) (simp r refl)
        (simp r (update-Open now ev evs (handler w.outside ev.event_type ev.payload).1 w.rows h))

none_eligible : (rows : List OutboxRow) → eligible rows ≡ [] → All (λ r. is_eligible r ≡ false) rows
unfolding eligible
none_eligible [] h = tt
none_eligible (r ∷ rows) h = elim (Bool-cases (is_eligible r)) [
  | inl e ↦ absurd (some_eligible e)
  | inr e ↦ (e, none_eligible rows (rw e at h))
]
  where
    some_eligible : is_eligible r ≡ true → ⊥
    some_eligible e = let h' = rw e at h in cc

-- How an event can end: delivered, or given up with all its tries used.
abbrev pub IsSettled : OutboxRow → Type 0
IsSettled r = (r.status ≡ done) ⊎ ((r.status ≡ failed) × (r.attempts ≡ r.max_attempts))

row-IsSettled :
    (r : OutboxRow) → is_eligible r ≡ false → RowOk r → r.status ≢ processing → IsSettled r
unfolding is_eligible
row-IsSettled r e ok p = ground arith

module _ {W : Type 0} (handler : W → String → String → W × Option Error) (now : Time)
    (scans : OutboxRow → Bool) (scanned_ok : (r : OutboxRow) → scans r ≡ true) where
  process_once-settled :
      (w : World W)
      → w.replies ≡ []
      → All (λ r. r.status ≢ processing) w.rows
      → All (λ r. r.status ≢ processing) (process_once handler now scans w).rows
  process_once-settled w r h = rw (process_once-carried handler now scans w r) (
      rw (scanned_all scans (returning (ids (selected w.rows)) (claim w.rows)) scanned_ok) (
        dispatch_all-settled handler now _ _ refl
          (unfold claim in claimed-Open (ids (selected w.rows)) w.rows h)))

  run_ticks-settled :
      (n : ℕ) (w : World W)
      → w.replies ≡ []
      → All (λ r. r.status ≢ processing) w.rows
      → All (λ r. r.status ≢ processing) (run_ticks handler now scans n w).rows
  unfolding run_ticks
  run_ticks-settled zero w r h = h
  run_ticks-settled (suc n) w r h =
      run_ticks-settled n (process_once handler now scans w)
        (process_once-replies handler now scans w r) (process_once-settled w r h)

  -- While the database works and every row can be scanned, rounds as many as there are tries left
  -- in the table settle every event, whatever the handler answers: each is done, or given up with
  -- exactly the maximum of its row in tries used. The table has no identifier twice, its counts of
  -- tries are sound, and no row is being processed at the start. The maximum that the worker is built
  -- with, which the comment on it takes for the limit, plays no part.
  pub worker_settles :
      (n : ℕ) (w : World W)
      → w.replies ≡ []
      → NodupIds w.rows
      → All RowOk w.rows
      → All (λ r. r.status ≢ processing) w.rows
      → backlog w.rows ≤ n
      → All IsSettled (run_ticks handler now scans n w).rows
  worker_settles n w r u ok p b =
      let rows = (run_ticks handler now scans n w).rows in
      All-imp (λ x. (is_eligible x ≡ false) × (RowOk x × (x.status ≢ processing))) IsSettled
        (λ x k. row-IsSettled x k.0 k.1.0 k.1.1) rows
        (All-zip (λ x. is_eligible x ≡ false) (λ x. RowOk x × (x.status ≢ processing)) rows
          (none_eligible rows (run_ticks-drains handler now scans n w r b))
          (All-zip RowOk (λ x. x.status ≢ processing) rows
            (run_ticks-RowOk handler now scans n w u ok) (run_ticks-settled n w r p)))
