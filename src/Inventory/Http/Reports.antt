-- ===== src/Inventory/Http/Reports.antt =====
-- What the status of an answer says of the tables.
use florist_core.Prelude.{◌≡◌, refl, sym, ◌∙◌, ◌⊎◌, inl, inr, String, Option}
use florist_core.Prelude.Int.{ℤ}
use florist_core.Kernel.Errors.{Error, Result, ok, err}
use florist_core.Kernel.Errors.Cases.{err≢ok, Result-cases}
use florist_core.Kernel.Types.{BatchId, Time}
use florist_core.Inventory.Batch.{Batch, DomainEvent}
use florist_core.Inventory.Handlers.{BatchRepository, consume_batch}
use florist_core.Inventory.Handlers.Atomic.{IsConsumed, consume_batch_atomic}
use florist_core.Inventory.Http.{consume_batch_handler}
use florist_core.Outbox.Publisher.{NewRow}
use florist_core.Http.{Response, no_content, answered}
use florist_core.Db.{Session}
use florist_core.Db.Atomic.{IsIdle}

module _ {T X : Type 0} (marshal : DomainEvent → Result String)
    (aggregate_of : DomainEvent → Option (String × String)) (put : NewRow → T → T)
    (repo : BatchRepository T X) where
  -- What a request to consume may come to.
  abbrev pub IsReported : Time → BatchId → ℤ → Session T X → Response String × Session T X → Type 0
  IsReported now id qty s (response, s') =
      ((response.status ≡ 500) × IsIdle s' × (s'.committed ≡ s.committed))
      ⊎ ((b : Batch) × (response.status ≡ 200)
          × ((repo.find_by_id id s).0 ≡ ok b)
          × IsConsumed marshal aggregate_of put repo now qty b (repo.find_by_id id s).1 (ok tt, s'))

module _ {T X : Type 0} (marshal : DomainEvent → Result String)
    (aggregate_of : DomainEvent → Option (String × String)) (put : NewRow → T → T)
    (repo : BatchRepository T X) (text_of : Error → String) where
  reported :
      (now : Time) (id : BatchId) (qty : ℤ) (b : Batch) (s : Session T X)
      (p : Result (Unit {0}) × Session T X)
      → (repo.find_by_id id s).0 ≡ ok b
      → (repo.find_by_id id s).1.committed ≡ s.committed
      → IsConsumed marshal aggregate_of put repo now qty b (repo.find_by_id id s).1 p
      → IsReported marshal aggregate_of put repo now id qty s
          (answered text_of (λ _. no_content 200) p)
  reported now id qty b s (ok tt, s') found same c = inr (b, refl, found, c)
  reported now id qty b s (err e, s') found same (idle, inl (_, _, c)) = inl (refl, idle, c ∙ same)
  reported now id qty b s (err e, s') found same (idle, inr (_, r, _, _, _, _)) = absurd (err≢ok r)

  consume-IsReported :
      (now : Time) (id : BatchId) (qty : ℤ) (s : Session T X)
      → IsIdle s
      → IsReported marshal aggregate_of put repo now id qty s (
          answered text_of
            (λ _. no_content 200)
            (consume_batch marshal aggregate_of put repo now id qty s))
  unfolding consume_batch
  consume-IsReported now id qty s idle =
      let (same, unopened) = repo.find_by_id-IsQuery id s in
      elim (Result-cases (repo.find_by_id id s).0) [
        | inr (e, missing) ↦ rw missing (inl (refl, unopened ∙ idle ∙ sym same, same))
        | inl (b, found) ↦
            reported now id qty b s (consume_batch marshal aggregate_of put repo now id qty s) found
              same (consume_batch_atomic marshal aggregate_of put repo now id qty b s idle found)
      ]

  -- A request to consume from a batch, with no transaction open, is answered with 400 and nothing is
  -- touched, or with 500 and nothing is committed, or with 200, and then the batch that the query
  -- finds is committed as the consumption leaves it, with its events in the outbox. No transaction
  -- stays open.
  pub consume_batch_handler_reports :
      (decode : String → Result (BatchId × ℤ)) (now : Time) (body : String) (s : Session T X)
      → IsIdle s
      → let (response, s') =
          consume_batch_handler marshal aggregate_of put repo text_of decode now body s in
        ((response.status ≡ 400) × (s' ≡ s))
        ⊎ ((cmd : BatchId × ℤ) × (decode body ≡ ok cmd)
            × IsReported marshal aggregate_of put repo now cmd.0 cmd.1 s (response, s'))
  unfolding consume_batch_handler
  consume_batch_handler_reports decode now body s idle = elim (Result-cases (decode body)) [
    | inr (x, bad) ↦ rw bad (inl (refl, refl))
    | inl (cmd, good) ↦ rw good (inr (cmd, refl, consume-IsReported now cmd.0 cmd.1 s idle))
  ]
