-- ===== src/Outbox/Worker/Final.antt =====
-- Rows that no longer wait, through the rounds of the worker.
use florist_core.Prelude.{
  ℕ, zero, suc, ◌≡◌, ◌≢◌, refl, sym, ◌∙◌, ap, Bool, true, false, Option, List, [], ◌∷◌, map, arith,
  All, Bool-cases, ◌==◌, inl, inr, if◌then◌else◌, String,
}
use florist_core.Kernel.Errors.{Error}
use florist_core.Kernel.Types.{Time}
use florist_core.Outbox.Table.{OutboxRow, pending, contains, ids, NodupIds}
use florist_core.Outbox.Worker.{
  is_eligible, selected, mark, claim, returning, update_where, settle, World, next_reply, dispatch,
  dispatch_all, process_once, run_ticks,
}
use florist_core.Outbox.Worker.Select.{chosen-eligible}
use florist_core.Outbox.Worker.Rows.{scanned-All}
use florist_core.Outbox.Worker.Labels.{dispatch-rows, process_once-NodupIds}
use florist_core.Outbox.Worker.Backlog.{Has}

All-Has_at :
    (P : OutboxRow → Type 0) (s : OutboxRow) (rows : List OutboxRow) → All P rows → Has s rows → P s
All-Has_at P s [] a h = absurd h
All-Has_at P s (r ∷ rows) a (inl e) = rw (← e) a.0
All-Has_at P s (r ∷ rows) a (inr h) = All-Has_at P s rows a.1 h

Has-map :
    (f : OutboxRow → OutboxRow) (s : OutboxRow) (rows : List OutboxRow)
    → f s ≡ s
    → Has s rows
    → Has s (map f rows)
Has-map f s [] e h = h
Has-map f s (r ∷ rows) e (inl same) = inl (ap f same ∙ e)
Has-map f s (r ∷ rows) e (inr h) = inr (Has-map f s rows e h)

unchosen :
    (s : OutboxRow) (rows : List OutboxRow)
    → NodupIds rows
    → s.status ≢ pending
    → Has s rows
    → contains s.id (ids (selected rows)) ≡ false
unfolding is_eligible
unchosen s rows u p h = let only = All-Has_at _ s rows (chosen-eligible rows u) h in ground arith

mark_unchosen : (chosen : List ℕ) (s : OutboxRow) → contains s.id chosen ≡ false → mark chosen s ≡ s
unfolding mark
mark_unchosen chosen s h = rw h refl

others :
    (chosen : List ℕ) (s : OutboxRow) (rows : List OutboxRow)
    → contains s.id chosen ≡ false
    → All (λ ev. s.id ≢ ev.id) (returning chosen rows)
unfolding returning
others chosen s [] h = tt
others chosen s (r ∷ rows) h = elim (Bool-cases (contains r.id chosen)) [
  | inl e ↦
      rw e
        (λ same. absurd_bool (sym h ∙ ap (λ k. contains k chosen) same ∙ e), others chosen s rows h)
  | inr e ↦ rw e (others chosen s rows h)
]
  where
    absurd_bool : false ≡ true → ⊥
    absurd_bool e = cc

module _ {W : Type 0} (handler : W → String → String → W × Option Error) (now : Time) where
  dispatch-Has :
      (ev s : OutboxRow) (w : World W)
      → s.id ≢ ev.id
      → Has s w.rows
      → Has s (dispatch handler now ev w).rows
  dispatch-Has ev s w ne h = dispatch-rows handler now (Has s) ev w h (λ answer.
      unfold update_where in
      Has-map (λ r. if r.id == ev.id then settle now ev answer r else r) s w.rows (ground arith) h)

  dispatch_all-Has :
      (s : OutboxRow) (evs : List OutboxRow) (w : World W)
      → All (λ ev. s.id ≢ ev.id) evs
      → Has s w.rows
      → Has s (dispatch_all handler now evs w).rows
  unfolding dispatch_all
  dispatch_all-Has s [] w a h = h
  dispatch_all-Has s (ev ∷ evs) w a h =
      dispatch_all-Has s evs (dispatch handler now ev w) a.1 (dispatch-Has ev s w a.0 h)

  module _ (scans : OutboxRow → Bool) where
    process_once-Has :
        (s : OutboxRow) (w : World W)
        → NodupIds w.rows
        → s.status ≢ pending
        → Has s w.rows
        → Has s (process_once handler now scans w).rows
    unfolding process_once claim
    process_once-Has s w u p h = elim (Bool-cases (next_reply w.replies).0) [
      | inl e ↦ rw e (
          dispatch_all-Has s _ _
            (scanned-All (λ ev. s.id ≢ ev.id) scans _
              (others (ids (selected w.rows)) s (claim w.rows) (unchosen s w.rows u p h)))
            (Has-map (mark (ids (selected w.rows))) s w.rows
              (mark_unchosen (ids (selected w.rows)) s (unchosen s w.rows u p h)) h))
      | inr e ↦ rw e h
    ]

    -- In a table with no identifier twice, a row that is not pending stays exactly as it is through
    -- any number of rounds, with any handler and any failures: what is done or given up is final,
    -- and an event that was claimed and not settled is never tried again.
    pub run_ticks-Has :
        (n : ℕ) (s : OutboxRow) (w : World W)
        → NodupIds w.rows
        → s.status ≢ pending
        → Has s w.rows
        → Has s (run_ticks handler now scans n w).rows
    unfolding run_ticks
    run_ticks-Has zero s w u p h = h
    run_ticks-Has (suc n) s w u p h =
        run_ticks-Has n s (process_once handler now scans w)
          (process_once-NodupIds handler now scans w u) p (process_once-Has s w u p h)
