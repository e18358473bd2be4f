-- ===== src/Ordering/Repository/Refine.antt =====
-- `Update` against the store of batches that the tables stand for: a compare and set on the version.
use florist_core.Prelude.{◌≡◌, refl, sym, ◌∙◌, ap, true, ◌⊎◌, inl, inr, Option, none, some, List}
use florist_core.Prelude.Map.{NodupKeys}
use florist_core.Kernel.Errors.{Error, Result, ok, err, wrapped}
use florist_core.Kernel.Types.{Time}
use florist_core.Ordering.Allocation.{Batch, reconstruct_batch}
use florist_core.Ordering.BatchTables.{
  BatchRow, BatchAllocationRow, Tables, find_row, allocations_of,
}
use florist_core.Ordering.Repository.{row_to_domain, update_tx, update}
use florist_core.Ordering.Repository.Store.{
  view_row, view, put, is_current, NodupIds, row_is_current,
}
use florist_core.Ordering.Repository.Update.{
  next, after_update, view-after_update, update_tx_ok, update_tx-IsPending,
}
use florist_core.Db.{Session, begin}
use florist_core.Db.Atomic.{IsIdle, with_tx_atomic, begin-working}

pub row_is_current-view :
    (b : Batch) (o : Option BatchRow) (rows : List BatchAllocationRow)
    → row_is_current b o ≡ is_current b (view_row o rows)
unfolding row_to_domain reconstruct_batch
row_is_current-view b none rows = refl
row_is_current-view b (some r) rows = refl

module _ {X : Type 0} where
  -- What `Update` may come to: an error, with nothing committed, or the store had the version of the
  -- batch and now has the batch with the next version, and every other batch as before.
  abbrev pub IsUpdated : Batch → Tables → Result (Unit {0}) × Session Tables X → Type 0
  IsUpdated b t (r, s') =
      IsIdle s'
      × (((e : Error) × (r ≡ err e) × (s'.committed ≡ t))
          ⊎ ((r ≡ ok tt)
              × (is_current b (view t b.id) ≡ true)
              × (view s'.committed ≡ put b.id (next b) (view t))))

  -- Whatever statements fail, `Update` with no transaction open is a compare and set on the store of
  -- batches that the tables stand for: either it answers with an error and nothing is committed, or
  -- the store had the batch at the version that it was read at, and now it has it with the next
  -- version and its allocations, and every other batch as before. The rows of the table have
  -- different identifiers, and the allocations of the batch different orders.
  pub update_refines :
      (now at : Time) (b : Batch) (s : Session Tables X)
      → IsIdle s
      → NodupIds s.committed.batches
      → NodupKeys b.allocations
      → IsUpdated b s.committed (update now at b s)
  unfolding update
  update_refines now at b s idle u k =
      let all =
        with_tx_atomic (wrapped "BatchRepository.Update begin tx") (update_tx now at b) s
          (update_tx-IsPending now at b) idle in
      let w = begin-working s idle in
      (
        all.0,
        elim all.1 [
          | inl failed ↦ inl failed
          | inr (x, r, q, c) ↦
              let (current, end) = update_tx_ok now at b (begin s).1 (rw w u) q in
              let current' : row_is_current b (find_row b.id s.committed.batches) ≡ true =
                rw w at current in
              inr (
                r,
                sym (
                      row_is_current-view b (find_row b.id s.committed.batches)
                        (allocations_of b.id s.committed.allocations))
                    ∙ current',
                ap view (c ∙ end ∙ ap (after_update now at b) w)
                    ∙ view-after_update now at b s.committed u k current',
              )
        ],
      )
