-- ===== src/Outbox/Worker/Labels.antt =====
-- What a round does to one event after another, and the columns of a row that tell who it is.
use florist_core.Prelude.{
  ℕ, zero, suc, ◌≡◌, refl, ◌∙◌, Bool, Option, List, [], ◌∷◌, map, arith, Bool-cases, ◌==◌, inl, inr,
  if◌then◌else◌, String,
}
use florist_core.Kernel.Errors.{Error}
use florist_core.Kernel.Types.{Time, Uuid}
use florist_core.Outbox.Table.{OutboxRow, ids, NodupIds}
use florist_core.Outbox.Worker.{
  selected, mark, claim, returning, update_where, settle, World, next_reply, dispatch, dispatch_all,
  scanned, process_once, run_ticks,
}
use florist_core.Outbox.Worker.Select.{NodupIds-ids}

module _ {W : Type 0} (handler : W → String → String → W × Option Error) (now : Time) where
  pub dispatch-rows :
      (P : List OutboxRow → Type 0) (ev : OutboxRow) (w : World W)
      → P w.rows
      → ((answer : Option Error) → P (update_where ev.id (settle now ev answer) w.rows))
      → P (dispatch handler now ev w).rows
  unfolding dispatch
  dispatch-rows P ev w h k = elim (Bool-cases (next_reply w.replies).0) [
    | inl e ↦ rw e (k (handler w.outside ev.event_type ev.payload).1)
    | inr e ↦ rw e h
  ]

-- The columns that no statement of the worker sets.
abbrev pub label : OutboxRow → Uuid × String × String × String × String × ℕ × Time
label r =
    (r.id, r.aggregate_type, r.aggregate_id, r.event_type, r.payload, r.max_attempts, r.created_at)

label-settle :
    (now : Time) (ev : OutboxRow) (answer : Option Error) (r : OutboxRow)
    → label (if r.id == ev.id then settle now ev answer r else r) ≡ label r
label-settle now ev answer r = ground arith

label-mark : (chosen : List ℕ) (r : OutboxRow) → label (mark chosen r) ≡ label r
unfolding mark
label-mark chosen r = ground arith

map-label :
    (f : OutboxRow → OutboxRow) (same : (r : OutboxRow) → label (f r) ≡ label r)
    (rows : List OutboxRow)
    → map label (map f rows) ≡ map label rows
map-label f same [] = refl
map-label f same (r ∷ rows) = rw (same r, map-label f same rows)

ids_of_labels : (xs ys : List OutboxRow) → map label xs ≡ map label ys → ids xs ≡ ids ys
ids_of_labels [] [] e = refl
ids_of_labels [] (y ∷ ys) e = cc
ids_of_labels (x ∷ xs) [] e = cc
ids_of_labels (x ∷ xs) (y ∷ ys) e = ground (arith, ids_of_labels xs ys)

module _ {W : Type 0} (handler : W → String → String → W × Option Error) (now : Time) where
  dispatch_all-labels :
      (evs : List OutboxRow) (w : World W)
      → map label (dispatch_all handler now evs w).rows ≡ map label w.rows
  unfolding dispatch_all
  dispatch_all-labels [] w = refl
  dispatch_all-labels (ev ∷ evs) w =
      dispatch_all-labels evs (dispatch handler now ev w)
      ∙ dispatch-rows handler now (λ rows. map label rows ≡ map label w.rows) ev w refl
          (λ answer. update_label answer)
    where
      update_label :
          (answer : Option Error)
          → map label (update_where ev.id (settle now ev answer) w.rows) ≡ map label w.rows
      update_label answer =
          unfold update_where in
          map-label (λ r. if r.id == ev.id then settle now ev answer r else r)
            (label-settle now ev answer) w.rows

  module _ (scans : OutboxRow → Bool) where
    process_once-labels :
        (w : World W) → map label (process_once handler now scans w).rows ≡ map label w.rows
    unfolding process_once
    process_once-labels w = elim (Bool-cases (next_reply w.replies).0) [
      | inl e ↦ rw e (
          dispatch_all-labels (scanned scans (returning (ids (selected w.rows)) (claim w.rows)))
            (record {
              rows = claim w.rows;
              outside = w.outside;
              replies = (next_reply w.replies).1;
            })
          ∙ map-label (mark (ids (selected w.rows))) (label-mark (ids (selected w.rows))) w.rows)
      | inr e ↦ rw e refl
    ]

    -- Over any number of rounds, with any handler and any failures of the database, no event is lost,
    -- added, reordered or altered in what it says.
    pub run_ticks-labels :
        (n : ℕ) (w : World W) → map label (run_ticks handler now scans n w).rows ≡ map label w.rows
    unfolding run_ticks
    run_ticks-labels zero w = refl
    run_ticks-labels (suc n) w =
        run_ticks-labels n (process_once handler now scans w) ∙ process_once-labels w

    pub process_once-NodupIds :
        (w : World W) → NodupIds w.rows → NodupIds (process_once handler now scans w).rows
    process_once-NodupIds w u =
        NodupIds-ids _ w.rows (ids_of_labels _ w.rows (process_once-labels w)) u
