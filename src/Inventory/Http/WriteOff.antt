-- ===== src/Inventory/Http/WriteOff.antt =====
-- What the status of an answer to a write-off says of the tables.
use florist_core.Prelude.{◌≡◌, refl, sym, ◌⊎◌, inl, inr, String, Option, none, List, [], Bool-cases}
use florist_core.Prelude.Int.{ℤ}
use florist_core.Kernel.Errors.{Error, Result, ok, err, driver}
use florist_core.Kernel.Errors.Cases.{err≢ok, Result-cases}
use florist_core.Kernel.Types.{BatchId, Time}
use florist_core.Inventory.Batch.{Batch, DomainEvent, writeoff}
use florist_core.Inventory.Handlers.{BatchRepository, writeoff_batch}
use florist_core.Inventory.Handlers.WriteOff.{IsWrittenOff, published, writeoff_batch_leaves}
use florist_core.Inventory.Http.{writeoff_batch_handler}
use florist_core.Outbox.Publisher.{NewRow}
use florist_core.Outbox.Publisher.Complete.{put_all}
use florist_core.Http.{Response, no_content, answered}
use florist_core.Db.{Session, begin, next_reply, run_tx, close_tx}
use florist_core.Db.Atomic.{IsIdle}

module _ {T X : Type 0} (marshal : DomainEvent → Result String)
    (aggregate_of : DomainEvent → Option (String × String)) (put : NewRow → T → T)
    (repo : BatchRepository T X) where
  abbrev pub IsReported :
      Time → BatchId → ℤ → String → Session T X → Response String × Session T X → Type 0
  IsReported now id qty reason s (response, s') =
      let s1 = (begin s).1 in
      IsIdle s'
      × (((rows : List NewRow) × (response.status ≡ 500)
            × (s'.committed ≡ put_all put rows s.committed))
          ⊎ ((b : Batch) × (rows : List NewRow) × let saved =
                  repo.update_tx (writeoff now qty reason b).0 (repo.find_by_id id s1).1 in
                (response.status ≡ 200)
                × ((repo.find_by_id id s1).0 ≡ ok b)
                × ((writeoff now qty reason b).1 ≡ none)
                × (saved.0 ≡ ok tt)
                × (s'.committed ≡ put_all put rows saved.1.working)))

  reported :
      (text_of : Error → String) (now : Time) (id : BatchId) (qty : ℤ) (reason : String) (b : Batch)
      (s : Session T X) (p : Result (Unit {0}) × Session T X)
      → (repo.find_by_id id (begin s).1).0 ≡ ok b
      → IsWrittenOff marshal aggregate_of put repo s.committed
          (repo.find_by_id id (begin s).1).1
          (writeoff now qty reason b)
          p
      → IsReported now id qty reason s (answered text_of (λ _. no_content 200) p)
  reported text_of now id qty reason b s (err e, s') found (idle, inl (_, _, kept)) =
      (idle, inl ([], refl, kept))
  reported text_of now id qty reason b s (ok _, s') found (idle, inl (_, r, _)) =
      absurd (err≢ok (sym r))
  reported text_of now id qty reason b s (ok _, s') found (idle, inr (free, saved, inl (_, kept))) =
      let left = (writeoff now qty reason b).0 in
      let rows = published marshal aggregate_of put repo (repo.find_by_id id (begin s).1).1 left in
      (idle, inr (b, rows, (refl, found, free, saved, kept)))
  reported text_of now id qty reason b s (err _, s') found (idle, inr (_, _, inl (r, _))) =
      absurd (err≢ok r)
  reported text_of now id qty reason b s (err e, s') found (idle, inr (_, _, inr (_, kept))) =
      let left = (writeoff now qty reason b).0 in
      let rows = published marshal aggregate_of put repo (repo.find_by_id id (begin s).1).1 left in
      (idle, inl (rows, refl, kept))
  reported text_of now id qty reason b s (ok _, s') found (idle, inr (_, _, inr (r, _))) =
      absurd (err≢ok (sym r))

  IsLost : Session T X → Result (Unit {0}) × Session T X → Type 0
  IsLost s (r, s') = IsIdle s' × ((e : Error) × (r ≡ err e) × (s'.committed ≡ s.committed))

  missing :
      (now : Time) (id : BatchId) (qty : ℤ) (reason : String) (e : Error) (s : Session T X)
      → IsIdle s
      → (repo.find_by_id id (begin s).1).0 ≡ err e
      → IsLost s (writeoff_batch marshal aggregate_of put repo now id qty reason s)
  unfolding writeoff_batch run_tx begin IsLost close_tx
  missing now id qty reason e s idle = elim (Bool-cases (next_reply s.replies).0) [
    | inr c ↦ λ _. rw c (idle, (driver, refl, refl))
    | inl c ↦
        let s1 : Session T X = record s {
          working = s.committed;
          replies = (next_reply s.replies).1;
        } in
        rw c (λ gone. rw gone (refl, (e, refl, (repo.find_by_id-IsQuery id s1).0)))
  ]

  answered_lost :
      (text_of : Error → String) (now : Time) (id : BatchId) (qty : ℤ) (reason : String)
      (s : Session T X) (p : Result (Unit {0}) × Session T X)
      → IsLost s p
      → IsReported now id qty reason s (answered text_of (λ _. no_content 200) p)
  unfolding IsLost
  answered_lost text_of now id qty reason s (err e, s') (idle, (_, _, kept)) =
      (idle, inl ([], refl, kept))
  answered_lost text_of now id qty reason s (ok _, s') (idle, (_, r, _)) = absurd (err≢ok (sym r))

  -- A request to write off, with no transaction open, is answered with 400 and nothing is touched; or with
  -- 500, and then nothing but rows of the outbox is committed; or with 200, and then `Writeoff` has
  -- accepted the quantity for the batch that the query finds and its update is committed, with rows
  -- of the outbox. No transaction stays open.
  pub writeoff_batch_handler_reports :
      (text_of : Error → String) (decode : String → Result (BatchId × ℤ × String)) (now : Time)
      (body : String) (s : Session T X)
      → IsIdle s
      → let (response, s') =
          writeoff_batch_handler marshal aggregate_of put repo text_of decode now body s in
        ((response.status ≡ 400) × (s' ≡ s))
        ⊎ ((cmd : BatchId × ℤ × String) × (decode body ≡ ok cmd)
            × IsReported now cmd.0 cmd.1 cmd.2 s (response, s'))
  unfolding writeoff_batch_handler
  writeoff_batch_handler_reports text_of decode now body s idle =
      elim (Result-cases (decode body)) [
        | inr (x, bad) ↦ rw bad (inl (refl, refl))
        | inl (cmd, good) ↦
            let p = writeoff_batch marshal aggregate_of put repo now cmd.0 cmd.1 cmd.2 s in
            rw good (
              inr (
                cmd,
                refl,
                elim (Result-cases (repo.find_by_id cmd.0 (begin s).1).0) [
                  | inr (e, gone) ↦
                      answered_lost text_of now cmd.0 cmd.1 cmd.2 s p
                        (missing now cmd.0 cmd.1 cmd.2 e s idle gone)
                  | inl (b, found) ↦ reported text_of now cmd.0 cmd.1 cmd.2 b s p found (
                      writeoff_batch_leaves marshal aggregate_of put repo now cmd.0 cmd.1 cmd.2 b s
                        idle found)
                ],
              ))
      ]
