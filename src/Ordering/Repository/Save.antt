-- ===== src/Ordering/Repository/Save.antt =====
-- `Save` on the store of batches.
use mathlib.Core.Path.{fun_ext}
use florist_core.Prelude.{
  ◌≡◌, sym, ◌∙◌, ap, false, Bool-cases, ◌⊎◌, inl, inr, some, List, [], ◌∷◌, ◌++◌, append,
  append_nil, if◌then◌else◌, ◌==◌, arith,
}
use florist_core.Prelude.Map.{NodupKeys}
use florist_core.Kernel.Errors.{Error, ok, err, wrapped}
use florist_core.Kernel.Types.{BatchId, Time}
use florist_core.Ordering.Allocation.{Batch, reconstruct_batch}
use florist_core.Ordering.BatchTables.{
  BatchRow, Tables, new_row_of, insert_batch, find_row, allocations_of, contains,
}
use florist_core.Ordering.Repository.{allocs_into, row_to_domain, save_allocations, save_body, save}
use florist_core.Ordering.Repository.Store.{
  view_row, view, put, rows_for, allocs_back, allocations_of-append, allocations_of-rows_for,
}
use florist_core.Ordering.Repository.Update.{
  save_allocations_ok, save_allocations-IsPending, some_inj, with_rows,
}
use florist_core.Db.{Session, begin, tx_exec, wrap_error}
use florist_core.Db.Atomic.{
  IsIdle, IsPending, with_tx_atomic, bind-IsPending, wrapped_exec-IsPending, wrapped_exec_ok,
  bind_ok, begin-working,
}

find_row-append :
    (j : BatchId) (r : BatchRow) (rows : List BatchRow)
    → contains r.id rows ≡ false
    → find_row j (append rows r) ≡ (if j == r.id then some r else find_row j rows)
unfolding find_row
find_row-append j r [] h = ground arith
find_row-append j r (x ∷ rows) h = ground (arith, find_row-append j r rows)

abbrev after_save : Time → Time → Batch → Tables → Tables
after_save now at b t = record {
  batches = append t.batches (new_row_of now b);
  allocations = t.allocations ++ rows_for at b.id b.allocations;
}

view-after_save :
    (now at : Time) (b : Batch) (t : Tables)
    → contains b.id t.batches ≡ false
    → allocations_of b.id t.allocations ≡ []
    → NodupKeys b.allocations
    → view (after_save now at b t) ≡ put b.id b (view t)
unfolding row_to_domain reconstruct_batch
view-after_save now at b t n f k = fun_ext λ j.
    rw
      (
        find_row-append j (new_row_of now b) t.batches n,
        allocations_of-append j t.allocations (rows_for at b.id b.allocations),
        allocations_of-rows_for j b.id at b.allocations,
      )
      (elim (Bool-cases (j == b.id)) [
        | inl e ↦
            let same : j ≡ b.id = ground arith in
            rw e (
              ap (λ m. some (record b { allocations = m }))
                (ap (λ l. allocs_into [] (l ++ rows_for at b.id b.allocations))
                    (ap (λ i. allocations_of i t.allocations) same ∙ f)
                  ∙ allocs_back at b.id b.allocations k))
        | inr e ↦
            rw e
              (ap (view_row (find_row j t.batches)) (append_nil (allocations_of j t.allocations)))
      ])

module _ {X : Type 0} where
  save_body-IsPending : (now at : Time) (b : Batch) → IsPending {X = X} (save_body now at b)
  save_body-IsPending now at b =
      bind-IsPending {B = Unit {0}}
        (wrap_error (wrapped "BatchRepository.Save insert batch") (tx_exec (insert_batch now b)))
        (λ _. save_allocations at b.id b.allocations)
        (wrapped_exec-IsPending (wrapped "BatchRepository.Save insert batch") (insert_batch now b))
        (λ _. save_allocations-IsPending at b.id b.allocations)

  save_body_ok :
      (now at : Time) (b : Batch) (s : Session Tables X)
      → (save_body now at b s).0 ≡ ok tt
      → (save_body now at b s).1.working ≡ after_save now at b s.working
  save_body_ok now at b s h =
      let first =
        wrap_error (wrapped "BatchRepository.Save insert batch")
          (tx_exec {X = X} (insert_batch now b)) in
      let (_, done, rest, same) =
        bind_ok first (λ _. save_allocations at b.id b.allocations) tt s h in
      let stored = some_inj (
        wrapped_exec_ok (wrapped "BatchRepository.Save insert batch") (insert_batch now b) tt s
          done) in
      ap (λ z. z.working) same
      ∙ save_allocations_ok at b.id b.allocations (first s).1 rest
      ∙ ap (with_rows (rows_for at b.id b.allocations)) (sym (ap (λ z. z.1) stored))

  -- Whatever statements fail, `Save` with no transaction open of a batch that is not in the tables
  -- either answers with an error and commits nothing, or puts the batch, with its allocations, into
  -- the store that the tables stand for, and leaves every other batch as before.
  pub save_refines :
      (now at : Time) (b : Batch) (s : Session Tables X)
      → IsIdle s
      → contains b.id s.committed.batches ≡ false
      → allocations_of b.id s.committed.allocations ≡ []
      → NodupKeys b.allocations
      → let (r, s') = save now at b s in
        IsIdle s'
        × (((e : Error) × (r ≡ err e) × (s'.committed ≡ s.committed))
            ⊎ ((r ≡ ok tt) × (view s'.committed ≡ put b.id b (view s.committed))))
  unfolding save
  save_refines now at b s idle n f k =
      let all =
        with_tx_atomic (wrapped "BatchRepository.Save begin tx") (save_body now at b) s
          (save_body-IsPending now at b) idle in
      let w = begin-working s idle in
      (
        all.0,
        elim all.1 [
          | inl failed ↦ inl failed
          | inr (x, r, q, c) ↦ inr (
            r,
            ap view (c ∙ save_body_ok now at b (begin s).1 q ∙ ap (after_save now at b) w)
                ∙ view-after_save now at b s.committed n f k,
          )
        ],
      )
