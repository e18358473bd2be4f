-- ===== src/Outbox/Worker/Backlog.antt =====
-- The tries that are left in the table, over the rounds.
use florist_core.Prelude.{
  ℕ, zero, suc, ◌≡◌, ◌≢◌, ◌≤◌, ◌<◌, ◌+◌, ◌-◌, ◌⊎◌, refl, ◌∙◌, Bool, true, Option, List, [], ◌∷◌,
  map, arith, All, All-imp, inl, inr, String,
}
use florist_core.Kernel.Errors.{Error}
use florist_core.Kernel.Types.{Time}
use florist_core.Outbox.Table.{OutboxRow, contains, ids}
use florist_core.Outbox.Worker.{
  is_eligible, eligible, insert_by_age, sort_by_age, take, selected, mark, claim, returning,
  update_where, settle, World, dispatch, dispatch_all, scanned, process_once, run_ticks,
}
use florist_core.Outbox.Worker.Select.{selected-All}
use florist_core.Outbox.Worker.Rows.{settle-counts}
use florist_core.Outbox.Worker.Labels.{dispatch-rows}

abbrev pub left : OutboxRow → ℕ
left r = r.max_attempts - r.attempts

abbrev pub backlog : List OutboxRow → ℕ
backlog [] = 0
backlog (r ∷ rows) = left r + backlog rows

-- some row of the list is this one
abbrev pub Has : OutboxRow → List OutboxRow → Type 0
Has s [] = ⊥
Has s (r ∷ rows) = (r ≡ s) ⊎ Has s rows

All-Has : (rows : List OutboxRow) → All (λ s. Has s rows) rows
All-Has [] = tt
All-Has (r ∷ rows) =
    (inl refl, All-imp (λ s. Has s rows) (λ s. Has s (r ∷ rows)) (λ s h. inr h) rows (All-Has rows))

insert_by_age-ne : (r : OutboxRow) (rows : List OutboxRow) → insert_by_age r rows ≢ []
unfolding insert_by_age
insert_by_age-ne r [] = λ e. cc
insert_by_age-ne r (x ∷ rows) = λ e. ground arith

sort_by_age-ne : (rows : List OutboxRow) → rows ≢ [] → sort_by_age rows ≢ []
unfolding sort_by_age
sort_by_age-ne [] h = h
sort_by_age-ne (r ∷ rows) h = insert_by_age-ne r (sort_by_age rows)

take-ne : (n : ℕ) (rows : List OutboxRow) → rows ≢ [] → take (suc n) rows ≢ []
unfolding take
take-ne n [] h = h
take-ne n (r ∷ rows) h = λ e. cc

selected-ne : (rows : List OutboxRow) → eligible rows ≢ [] → selected rows ≢ []
unfolding selected
selected-ne rows h = take-ne 49 (sort_by_age (eligible rows)) (sort_by_age-ne (eligible rows) h)

mark-left :
    (chosen : List ℕ) (rows : List OutboxRow) → backlog (map (mark chosen) rows) ≤ backlog rows
unfolding mark
mark-left chosen [] = omega arith
mark-left chosen (r ∷ rows) = ground (arith, mark-left chosen rows)

-- A chosen row that has tries left makes the sum smaller.
mark-backlog :
    (chosen : List ℕ) (s : OutboxRow) (rows : List OutboxRow)
    → contains s.id chosen ≡ true
    → s.attempts < s.max_attempts
    → Has s rows
    → backlog (map (mark chosen) rows) < backlog rows
unfolding mark
mark-backlog chosen s [] c a h = absurd h
mark-backlog chosen s (r ∷ rows) c a (inl e) =
    let rest = mark-left chosen rows in rw (e, c) (omega arith)
mark-backlog chosen s (r ∷ rows) c a (inr h) = ground (arith, mark-backlog chosen s rows c a h)

eligible_left : (r : OutboxRow) → is_eligible r ≡ true → r.attempts < r.max_attempts
unfolding is_eligible
eligible_left r h = ground arith

claim-backlog : (rows : List OutboxRow) → eligible rows ≢ [] → backlog (claim rows) < backlog rows
claim-backlog rows h =
    go (selected rows) refl (selected-ne rows h)
      (selected-All (λ s. Has s rows) rows (All-Has rows))
  where
    go :
        (sel : List OutboxRow)
        → selected rows ≡ sel
        → sel ≢ []
        → All (λ r. (is_eligible r ≡ true) × Has r rows) sel
        → backlog (claim rows) < backlog rows
    go [] e ne a = absurd (ne refl)
    go (s ∷ sel) e ne a =
        let chosen : contains s.id (ids (selected rows)) ≡ true = rw e (ground arith) in
        unfold claim in
        mark-backlog (ids (selected rows)) s rows chosen (eligible_left s a.0.0) a.0.1

-- Settling changes no count.
update-backlog :
    (now : Time) (ev : OutboxRow) (answer : Option Error) (rows : List OutboxRow)
    → backlog (update_where ev.id (settle now ev answer) rows) ≡ backlog rows
unfolding update_where
update-backlog now ev answer [] = refl
update-backlog now ev answer (r ∷ rows) =
    let same = settle-counts now ev answer r in ground (arith, update-backlog now ev answer rows)

module _ {W : Type 0} (handler : W → String → String → W × Option Error) (now : Time) where
  dispatch_all-backlog :
      (evs : List OutboxRow) (w : World W)
      → backlog (dispatch_all handler now evs w).rows ≡ backlog w.rows
  unfolding dispatch_all
  dispatch_all-backlog [] w = refl
  dispatch_all-backlog (ev ∷ evs) w =
      dispatch_all-backlog evs (dispatch handler now ev w)
      ∙ dispatch-rows handler now (λ rows. backlog rows ≡ backlog w.rows) ev w refl
          (λ answer. update-backlog now ev answer w.rows)

-- A round over a table with nothing to claim leaves it as it is.
idle_selected : (rows : List OutboxRow) → eligible rows ≡ [] → selected rows ≡ []
unfolding selected sort_by_age
idle_selected rows e = rw e refl

mark-nil : (rows : List OutboxRow) → map (mark []) rows ≡ rows
unfolding mark
mark-nil [] = refl
mark-nil (r ∷ rows) = rw (mark-nil rows)

claim-idle : (rows : List OutboxRow) → eligible rows ≡ [] → claim rows ≡ rows
unfolding claim
claim-idle rows e = rw (idle_selected rows e) (mark-nil rows)

returning-nil : (rows : List OutboxRow) → returning [] rows ≡ []
unfolding returning
returning-nil [] = refl
returning-nil (r ∷ rows) = returning-nil rows

List-cases {ℓ} : {A : Type ℓ} (xs : List A) → (xs ≡ []) ⊎ (xs ≢ [])
List-cases [] = inl refl
List-cases (x ∷ xs) = inr (λ e. cc)

module _ {W : Type 0} (handler : W → String → String → W × Option Error) (now : Time)
    (scans : OutboxRow → Bool) where
  -- A round whose statement is carried out.
  pub process_once-carried :
      (w : World W)
      → w.replies ≡ []
      → process_once handler now scans w
        ≡ dispatch_all handler now
            (scanned scans (returning (ids (selected w.rows)) (claim w.rows)))
            (record { rows = claim w.rows; outside = w.outside; replies = [] })
  unfolding process_once
  process_once-carried w r = simp r

  dispatch_all-replies :
      (evs : List OutboxRow) (w : World W)
      → w.replies ≡ []
      → (dispatch_all handler now evs w).replies ≡ []
  unfolding dispatch_all dispatch
  dispatch_all-replies [] w r = r
  dispatch_all-replies (ev ∷ evs) w r =
      dispatch_all-replies evs (dispatch handler now ev w) (rw r refl)

  pub process_once-replies :
      (w : World W) → w.replies ≡ [] → (process_once handler now scans w).replies ≡ []
  process_once-replies w r = rw (process_once-carried w r) (dispatch_all-replies _ _ refl)

  pub idle_round :
      (w : World W)
      → w.replies ≡ []
      → eligible w.rows ≡ []
      → (process_once handler now scans w).rows ≡ w.rows
  unfolding scanned dispatch_all
  idle_round w r e =
      rw (process_once-carried w r, claim-idle w.rows e, idle_selected w.rows e)
        (rw (returning-nil w.rows) refl)

  idle_ticks :
      (n : ℕ) (w : World W)
      → w.replies ≡ []
      → eligible w.rows ≡ []
      → eligible (run_ticks handler now scans n w).rows ≡ []
  unfolding run_ticks
  idle_ticks zero w r e = e
  idle_ticks (suc n) w r e =
      idle_ticks n (process_once handler now scans w) (process_once-replies w r)
        (rw (idle_round w r e) e)

  busy_round :
      (w : World W)
      → w.replies ≡ []
      → eligible w.rows ≢ []
      → backlog (process_once handler now scans w).rows < backlog w.rows
  busy_round w r e = rw (process_once-carried w r, dispatch_all-backlog) (claim-backlog w.rows e)

  -- While the database works, rounds as many as there are tries left leave nothing to claim, whatever
  -- the handler answers.
  pub run_ticks-drains :
      (n : ℕ) (w : World W)
      → w.replies ≡ []
      → backlog w.rows ≤ n
      → eligible (run_ticks handler now scans n w).rows ≡ []
  unfolding run_ticks
  run_ticks-drains zero w r b = elim (List-cases (eligible w.rows)) [
    | inl e ↦ e
    | inr busy ↦ absurd (omega (arith, claim-backlog w.rows busy))
  ]
  run_ticks-drains (suc n) w r b = elim (List-cases (eligible w.rows)) [
    | inl e ↦ idle_ticks (suc n) w r e
    | inr busy ↦
        run_ticks-drains n (process_once handler now scans w) (process_once-replies w r)
          (omega (arith, busy_round w r busy))
  ]
