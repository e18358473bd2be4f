-- ===== src/Ordering/Repository/Working.antt =====
-- The repository on a working database: what `Update` answers, and the queries against each other.
use mathlib.Core.Path.{subst}
use florist_core.Prelude.{
  ◌≡◌, refl, sym, ◌∙◌, ap, true, Bool-cases, Option-cases, inl, inr, Option, none, some, List, [],
  ◌∷◌, map, append_nil, append_assoc, if◌then◌else◌, String, All, All-zip,
}
use florist_core.Prelude.Map.{Map}
use florist_core.Prelude.Int.{ℤ}
use florist_core.Kernel.Errors.{Error, Result, ok, err, wrapped, no_rows, ordering_optimistic_lock}
use florist_core.Kernel.Types.{BatchId, Time}
use florist_core.Ordering.Allocation.{Batch}
use florist_core.Ordering.BatchTables.{
  BatchRow, BatchAllocationRow, Tables, find_row, allocations_of, where_sku, sort_by_eta,
  allocations_of_any, contains,
}
use florist_core.Ordering.Repository.{
  row_to_domain, save_allocations, update_tx, update, get_by_id, get_by_sku, with_allocations,
  group_at, group_into, to_domain,
}
use florist_core.Ordering.Repository.Store.{
  view_row, view, is_current, NodupIds, rows_for, row_is_current, update_rows_stale,
  update_rows_current,
}
use florist_core.Ordering.Repository.Update.{with_rows, with_row}
use florist_core.Ordering.Repository.Refine.{row_is_current-view}
use florist_core.Ordering.Repository.Eta.{IsListing, listing}
use florist_core.Ordering.Repository.Rows.{
  own_rows, contained, where_sku-All, sort_by_eta-All, allocations_of-any, group_at-into,
}
use florist_core.Db.{Session, Action, begin, tx_exec, pool_exec, with_tx, close_tx, commit}
use florist_core.Db.Atomic.{IsIdle}

-- A session whose statements are all carried out.
abbrev quiet : {X : Type 0} → Tables → Tables → X → Session Tables X
quiet c w x = record { committed = c; working = w; outside = x; replies = [] }

abbrev pub found_or : Option Batch → Result Batch
found_or none = err (wrapped "BatchRepository.GetByID" no_rows)
found_or (some b) = ok b

module _ {X : Type 0} where
  save_allocations-quiet :
      (at : Time) (id : BatchId) (m : Map ℤ) (c w : Tables) (x : X)
      → save_allocations at id m (quiet c w x) ≡ (ok tt, quiet c (with_rows (rows_for at id m) w) x)
  unfolding save_allocations tx_exec
  save_allocations-quiet at id [] c w x = rw (append_nil w.allocations) refl
  save_allocations-quiet at id ((k, v) ∷ m) c w x =
      let row : BatchAllocationRow = record {
        batch_id = id;
        order_id = k;
        qty = v;
        created_at = at;
      } in
      save_allocations-quiet at id m c (with_row row w) x
      ∙ ap (λ l. (ok tt, quiet c (record w { allocations = l }) x))
          (append_assoc w.allocations (row ∷ []) (rows_for at id m))

  update_tx-quiet :
      (now at : Time) (b : Batch) (c w : Tables) (x : X)
      → NodupIds w.batches
      → ((update_tx now at b (quiet c w x)).0 ≡ (
          if row_is_current b (find_row b.id w.batches)
          then ok tt
          else err (wrapped "BatchRepository.UpdateTx" ordering_optimistic_lock)))
        × ((update_tx now at b (quiet c w x)).1.replies ≡ [])
  unfolding update_tx tx_exec
  update_tx-quiet now at b c w x u =
      elim (Bool-cases (row_is_current b (find_row b.id w.batches))) [
        | inl e ↦
            rw ((update_rows_current now b b.id w.batches u e).0, e)
              (
                ap (λ z. z.0) (save_allocations-quiet at b.id b.allocations c _ x),
                ap (λ z. z.1.replies) (save_allocations-quiet at b.id b.allocations c _ x),
              )
        | inr e ↦ rw (update_rows_stale now b w.batches u e, e) (refl, refl)
      ]

  close_tx-quiet :
      (q : Result (Unit {0}) × Session Tables X) → q.1.replies ≡ [] → (close_tx q).0 ≡ q.0
  unfolding close_tx commit
  close_tx-quiet (ok a, s) h = simp h refl
  close_tx-quiet (err e, s) h = refl

  with_tx-quiet :
      (label : Error → Error) (fn : Action Tables X (Unit {0})) (c : Tables) (x : X)
      → (fn (quiet c c x)).1.replies ≡ []
      → (with_tx label fn (quiet c c x)).0 ≡ (fn (quiet c c x)).0
  unfolding with_tx begin
  with_tx-quiet label fn c x h = close_tx-quiet (fn (quiet c c x)) h

  update-quiet :
      (now at : Time) (b : Batch) (c : Tables) (x : X)
      → NodupIds c.batches
      → (update now at b (quiet c c x)).0 ≡ (
          if is_current b (view c b.id)
          then ok tt
          else err (wrapped "BatchRepository.UpdateTx" ordering_optimistic_lock))
  unfolding update
  update-quiet now at b c x u =
      let (answer, rest) = update_tx-quiet now at b c c x u in
      with_tx-quiet (wrapped "BatchRepository.Update begin tx") (update_tx now at b) c x rest
      ∙ answer
      ∙ ap
          (λ t.
            if t then ok tt else err (wrapped "BatchRepository.UpdateTx" ordering_optimistic_lock))
          (row_is_current-view b (find_row b.id c.batches) (allocations_of b.id c.allocations))

  get_by_id-quiet :
      (id : BatchId) (c : Tables) (x : X) → (get_by_id id (quiet c c x)).0 ≡ found_or (view c id)
  unfolding get_by_id pool_exec
  get_by_id-quiet id c x = elim (Option-cases (find_row id c.batches)) [
    | inl e ↦ rw e refl
    | inr (r, e) ↦ rw e refl
  ]

  -- For each row its batch, fetched by itself.
  abbrev pub fetch_each : List BatchRow → Session Tables X → List (Result Batch)
  fetch_each rows s = map (λ (r : BatchRow). (get_by_id r.id s).0) rows

  domain_each :
      (c : Tables) (x : X) (all rows : List BatchRow)
      → All (λ r. (find_row r.id c.batches ≡ some r) × (contains r.id all ≡ true)) rows
      → map ok (to_domain (group_into [] (allocations_of_any all c.allocations)) rows)
        ≡ fetch_each rows (quiet c c x)
  domain_each c x all [] h = refl
  domain_each c x all (r ∷ rows) h =
      let grouped = group_into [] (allocations_of_any all c.allocations) in
      let own : group_at r.id grouped ≡ allocations_of r.id c.allocations =
        group_at-into r.id [] (allocations_of_any all c.allocations)
        ∙ allocations_of-any r.id all c.allocations h.0.1 in
      let fetched : (get_by_id {X = X} r.id (quiet c c x)).0
          ≡ ok (row_to_domain r (group_at r.id grouped)) =
        get_by_id-quiet r.id c x
        ∙ ap (λ o. found_or (view_row o (allocations_of r.id c.allocations))) h.0.0
        ∙ ap (λ l. ok (row_to_domain r l)) (sym own) in
      ap (λ a. a ∷ map ok (to_domain grouped rows)) (sym fetched)
      ∙ ap (λ l. (get_by_id r.id (quiet c c x)).0 ∷ l) (domain_each c x all rows h.1)

  with_allocations-quiet :
      (rows : List BatchRow) (c : Tables) (x : X)
      → (with_allocations rows (quiet c c x)).0
        ≡ ok (to_domain (group_into [] (allocations_of_any rows c.allocations)) rows)
  unfolding with_allocations pool_exec
  with_allocations-quiet [] c x = refl
  with_allocations-quiet (r ∷ rows) c x = refl

  -- What `GetBySKU` comes to.
  abbrev pub IsEachFetched : String → Session Tables X → Type 0
  IsEachFetched sku s =
      (batches : List Batch) × (rows : List BatchRow) × ((get_by_sku sku s).0 ≡ ok batches)
      × (map ok batches ≡ fetch_each rows s)
      × IsListing sku s.committed.batches rows

  get_by_sku-quiet :
      (sku : String) (c : Tables) (x : X) → NodupIds c.batches → IsEachFetched sku (quiet c c x)
  unfolding get_by_sku pool_exec
  get_by_sku-quiet sku c x u =
      let rows = sort_by_eta (where_sku sku c.batches) in
      (
        to_domain (group_into [] (allocations_of_any rows c.allocations)) rows,
        rows,
        with_allocations-quiet rows c x,
        domain_each c x rows rows (
            All-zip (λ r. find_row r.id c.batches ≡ some r) (λ r. contains r.id rows ≡ true) rows
              (sort_by_eta-All (λ r. find_row r.id c.batches ≡ some r) (where_sku sku c.batches)
                (where_sku-All (λ r. find_row r.id c.batches ≡ some r) sku c.batches
                  (own_rows c.batches u)))
              (contained rows)),
        listing sku c.batches,
      )

  quiet_session :
      (s : Session Tables X)
      → IsIdle s
      → s.replies ≡ []
      → quiet s.committed s.committed s.outside ≡ s
  quiet_session s idle r = cc

  -- On a working database with no transaction open, over a table whose rows have different
  -- identifiers, `Update` succeeds exactly where the store has the batch at the version that it was
  -- read at, and is refused by the optimistic lock in all other cases.
  pub update_answers :
      (now at : Time) (b : Batch) (s : Session Tables X)
      → IsIdle s
      → s.replies ≡ []
      → NodupIds s.committed.batches
      → (update now at b s).0 ≡ (
          if is_current b (view s.committed b.id)
          then ok tt
          else err (wrapped "BatchRepository.UpdateTx" ordering_optimistic_lock))
  update_answers now at b s idle r u =
      ap (λ z. (update now at b z).0) (sym (quiet_session s idle r))
      ∙ update-quiet now at b s.committed s.outside u

  -- On a working database with no transaction open, over a table whose rows have different
  -- identifiers, `GetBySKU`, which fetches the allocations of all rows at once, answers as fetching
  -- each batch by itself with `GetByID` does. The batches are exactly the rows of the table with that
  -- SKU: those with a date of arrival first, the earlier date first, then the one that was made first.
  pub get_by_sku_each :
      (sku : String) (s : Session Tables X)
      → IsIdle s
      → s.replies ≡ []
      → NodupIds s.committed.batches
      → IsEachFetched sku s
  get_by_sku_each sku s idle r u =
      subst (IsEachFetched sku) (quiet_session s idle r)
        (get_by_sku-quiet sku s.committed s.outside u)
