-- ===== src/Inventory/Handlers/WriteOff.antt =====
-- What a write-off leaves when its events are published on the pool while its transaction is open.
use florist_core.Prelude.{
  String, Option, none, some, List, ◌≡◌, refl, ◌∙◌, ◌⊎◌, inl, inr, Bool-cases,
}
use florist_core.Prelude.Int.{ℤ}
use florist_core.Kernel.Errors.{Error, Result, ok, err, driver}
use florist_core.Kernel.Errors.Cases.{Result-cases}
use florist_core.Kernel.Types.{BatchId, Time}
use florist_core.Inventory.Batch.{Batch, DomainEvent, event_name, writeoff, pop_events}
use florist_core.Inventory.Handlers.{
  BatchRepository, save_and_publish, writeoff_body, writeoff_batch,
}
use florist_core.Outbox.Publisher.{NewRow}
use florist_core.Outbox.Publisher.Complete.{put_all}
use florist_core.Outbox.Publisher.Loose.{delivered, after_publish, publish-after_publish}
use florist_core.Db.{Session, next_reply, begin, close_tx, run_tx}
use florist_core.Db.Atomic.{IsIdle}

module _ {T X : Type 0} (marshal : DomainEvent → Result String)
    (aggregate_of : DomainEvent → Option (String × String)) (put : NewRow → T → T)
    (repo : BatchRepository T X) where
  -- The rows that the publication after the update puts into the table.
  abbrev pub published : Session T X → Batch → List NewRow
  published s left =
      delivered event_name marshal aggregate_of left.events (repo.update_tx left s).1.replies

  -- What a write-off of a batch may come to, where `t` are the tables before it and `s` is the session
  -- when the batch is updated: nothing is committed; or all of it is; or the commit is refused and
  -- the rows of the events stand in the table all the same.
  abbrev pub IsWrittenOff :
      T → Session T X → Batch × Option Error → Result (Unit {0}) × Session T X → Type 0
  IsWrittenOff t s (left, refused) (r, s') =
      let saved = repo.update_tx left s in
      let rows = published s left in
      IsIdle s'
      × (((e : Error) × (r ≡ err e) × (s'.committed ≡ t))
          ⊎ ((refused ≡ none)
              × (saved.0 ≡ ok tt)
              × (((r ≡ ok tt) × (s'.committed ≡ put_all put rows saved.1.working))
                  ⊎ ((r ≡ err driver) × (s'.committed ≡ put_all put rows t)))))

  written :
      (t : T) (b : Batch) (o : Option Error) (s : Session T X)
      → s.committed ≡ t
      → IsWrittenOff t s (b, o) (close_tx (save_and_publish marshal aggregate_of put repo (b, o) s))
  unfolding pop_events close_tx
  written t b (some e) s same = (refl, inl (e, refl, same))
  written t b none s same = elim (Result-cases (repo.update_tx b s).0) [
    | inr (e, failed) ↦ rw failed (refl, inl (e, refl, repo.update_tx-IsPending b s ∙ same))
    | inl (_, saved) ↦
        let u = (repo.update_tx b s).1 in
        let kept = repo.update_tx-IsPending b s ∙ same in
        let after = after_publish event_name marshal aggregate_of put b.events u in
        rw (saved, publish-after_publish event_name marshal aggregate_of put b.events u)
          (elim (Bool-cases (next_reply after.replies).0) [
            | inl c ↦ rw c (refl, inr (refl, refl, inl (refl, refl)))
            | inr c ↦ rw c (refl, inr (refl, refl, inr (refl, rw kept refl)))
          ])
  ]

  body_written :
      (t : T) (now : Time) (id : BatchId) (qty : ℤ) (reason : String) (b : Batch) (s : Session T X)
      → s.committed ≡ t
      → (repo.find_by_id id s).0 ≡ ok b
      → IsWrittenOff t
          (repo.find_by_id id s).1
          (writeoff now qty reason b)
          (close_tx (writeoff_body marshal aggregate_of put repo now id qty reason s))
  body_written t now id qty reason b s same found = rw found (
      written t (writeoff now qty reason b).0 (writeoff now qty reason b).1 (repo.find_by_id id s).1
        ((repo.find_by_id-IsQuery id s).0 ∙ same))

  -- The write-off of writeoff_batch.go, with no transaction open, of a batch that the query finds:
  -- either it answers with an error and nothing is committed; or the batch is updated as `Writeoff`
  -- leaves it, the answer is no error, and the update is committed with the rows of those events
  -- whose JSON and insertion succeed, the others being lost without an error; or the answer is the
  -- error of the commit, the update is not committed, and those rows are. No transaction stays open.
  pub writeoff_batch_leaves :
      (now : Time) (id : BatchId) (qty : ℤ) (reason : String) (b : Batch) (s : Session T X)
      → IsIdle s
      → (repo.find_by_id id (begin s).1).0 ≡ ok b
      → IsWrittenOff s.committed
          (repo.find_by_id id (begin s).1).1
          (writeoff now qty reason b)
          (writeoff_batch marshal aggregate_of put repo now id qty reason s)
  unfolding writeoff_batch run_tx begin
  writeoff_batch_leaves now id qty reason b s idle = elim (Bool-cases (next_reply s.replies).0) [
    | inr c ↦ λ _. rw c (idle, inl (driver, refl, refl))
    | inl c ↦ rw c (
        body_written s.committed now id qty reason b
          (record s { working = s.committed; replies = (next_reply s.replies).1 }) refl)
  ]
