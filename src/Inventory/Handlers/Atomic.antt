-- ===== src/Inventory/Handlers/Atomic.antt =====
-- The handlers and what their transactions leave.
use florist_core.Prelude.{String, Option, none, some, List, ◌≡◌, refl, sym, ◌∙◌, ap, ◌⊎◌, inl, inr}
use florist_core.Prelude.Int.{ℤ}
use florist_core.Kernel.Errors.{Error, Result, ok, err}
use florist_core.Kernel.Errors.Cases.{ok_inj}
use florist_core.Kernel.Types.{BatchId, Time}
use florist_core.Inventory.Batch.{Batch, DomainEvent, event_name, new_batch, consume, pop_events}
use florist_core.Inventory.Handlers.{
  BatchRepository, ReceiveBatchCommand, received, publish_events, receive_body, receive_batch,
  consume_and_save, consume_batch, write_off_batch,
}
use florist_core.Outbox.Publisher.{NewRow}
use florist_core.Outbox.Publisher.Complete.{
  rows_of, put_all, publish_some-IsPending, publish_some_complete,
}
use florist_core.Db.{Action, Session, pure, ◌>>=◌, begin}
use florist_core.Db.Atomic.{IsPending, IsIdle, bind-IsPending, bind_ok, run_tx_atomic}

-- A body of two calls and an answer.
module _ {T X A : Type 0} (m k : Action T X (Unit {0})) (a : A) where
  abbrev body : Action T X A
  body = m >>= λ _. k >>= λ _. pure a

  body-IsPending : IsPending m → IsPending k → IsPending body
  body-IsPending hm hk =
      bind-IsPending {B = A} m (λ _. k >>= λ _. pure a) hm
        (λ _. bind-IsPending {B = A} k (λ _. pure a) hk (λ _ s. refl))

  body_ok :
      (x : A) (s : Session T X)
      → (body s).0 ≡ ok x
      → ((m s).0 ≡ ok tt) × ((k (m s).1).0 ≡ ok tt) × (x ≡ a) × ((body s).1 ≡ (k (m s).1).1)
  body_ok x s h =
      let (_, first, rest, same) = bind_ok m (λ _. k >>= λ _. pure a) x s h in
      let (_, second, last, same2) = bind_ok k (λ _. pure a) x (m s).1 rest in
      (first, second, ok_inj last, same ∙ same2)

module _ {T X : Type 0} (marshal : DomainEvent → Result String)
    (aggregate_of : DomainEvent → Option (String × String)) (put : NewRow → T → T)
    (repo : BatchRepository T X) where
  pub receive_body-IsPending :
      (b : Batch) → IsPending (receive_body marshal aggregate_of put repo b)
  unfolding pop_events
  receive_body-IsPending b =
      body-IsPending (repo.save_tx b) (publish_events marshal aggregate_of put repo b.events) b.id
        (repo.save_tx-IsPending b)
        (publish_some-IsPending event_name marshal aggregate_of put b.events)

  -- `ReceiveBatch` with no transaction open: if it answers with an error, nothing is committed.
  -- Otherwise the answer is the identifier of the batch, and what is committed is what saving the
  -- batch made of the tables with exactly one row more in the outbox for each event of the new
  -- batch. Either way no transaction stays open.
  pub receive_batch_atomic :
      (id : BatchId) (now : Time) (cmd : ReceiveBatchCommand) (s : Session T X)
      → IsIdle s
      → let (r, s') = receive_batch marshal aggregate_of put repo id now cmd s in
        let saved = repo.save_tx (received id now cmd) (begin s).1 in
        IsIdle s'
        × (((e : Error) × (r ≡ err e) × (s'.committed ≡ s.committed))
            ⊎ ((rows : List NewRow) × (r ≡ ok id)
                × (saved.0 ≡ ok tt)
                × (rows_of event_name marshal aggregate_of (received id now cmd).events ≡ ok rows)
                × (s'.committed ≡ put_all put rows saved.1.working)))
  unfolding receive_batch new_batch pop_events
  receive_batch_atomic id now cmd s idle =
      let b = received id now cmd in
      let m = repo.save_tx b in
      let k = publish_events marshal aggregate_of put repo b.events in
      let all = run_tx_atomic (body m k id) s (receive_body-IsPending b) idle in
      (
        all.0,
        elim all.1 [
          | inl failed ↦ inl failed
          | inr (x, r, q, c) ↦
              let (saved, done, same, end) = body_ok m k id x (begin s).1 q in
              let (rows, each, put) =
                publish_some_complete event_name marshal aggregate_of put b.events (m (begin s).1).1
                  done in
              inr (rows, r ∙ ap ok same, saved, each, c ∙ ap (λ z. z.working) end ∙ put)
        ],
      )

  -- What `ConsumeBatch` may come to from a session that has found `b`.
  abbrev pub IsConsumed : Time → ℤ → Batch → Session T X → Result (Unit {0}) × Session T X → Type 0
  IsConsumed now qty b s (r, s') =
      let left = (consume now qty b).0 in
      let saved = repo.update_tx left (begin s).1 in
      IsIdle s'
      × (((e : Error) × (r ≡ err e) × (s'.committed ≡ s.committed))
          ⊎ ((rows : List NewRow) × (r ≡ ok tt)
              × ((consume now qty b).1 ≡ none)
              × (saved.0 ≡ ok tt)
              × (rows_of event_name marshal aggregate_of left.events ≡ ok rows)
              × (s'.committed ≡ put_all put rows saved.1.working)))

  pub consume_found :
      (b : Batch) (o : Option Error) (s : Session T X)
      → IsIdle s
      → let (r, s') = consume_and_save marshal aggregate_of put repo (b, o) s in
        let saved = repo.update_tx b (begin s).1 in
        IsIdle s'
        × (((e : Error) × (r ≡ err e) × (s'.committed ≡ s.committed))
            ⊎ ((rows : List NewRow) × (r ≡ ok tt)
                × (o ≡ none)
                × (saved.0 ≡ ok tt)
                × (rows_of event_name marshal aggregate_of b.events ≡ ok rows)
                × (s'.committed ≡ put_all put rows saved.1.working)))
  unfolding pop_events
  consume_found b (some e) s idle = (idle, inl (e, refl, refl))
  consume_found b none s idle =
      let m = repo.update_tx b in
      let k = publish_events marshal aggregate_of put repo b.events in
      let pending =
        body-IsPending m k tt (repo.update_tx-IsPending b)
          (publish_some-IsPending event_name marshal aggregate_of put b.events) in
      let all = run_tx_atomic (body m k tt) s pending idle in
      (
        all.0,
        elim all.1 [
          | inl failed ↦ inl failed
          | inr (x, r, q, c) ↦
              let (saved, done, same, end) = body_ok m k tt x (begin s).1 q in
              let (rows, each, put) =
                publish_some_complete event_name marshal aggregate_of put b.events (m (begin s).1).1
                  done in
              inr (rows, r, refl, saved, each, c ∙ ap (λ z. z.working) end ∙ put)
        ],
      )

  -- `ConsumeBatch` of a batch that the query finds, with no transaction open: if it answers with an
  -- error, nothing is committed. Otherwise `Consume` has accepted the quantity, and what is
  -- committed is what the update with the batch that is left made of the tables, with exactly one
  -- row more in the outbox for each of its events. Either way no transaction stays open.
  pub consume_batch_atomic :
      (now : Time) (id : BatchId) (qty : ℤ) (b : Batch) (s : Session T X)
      → IsIdle s
      → (repo.find_by_id id s).0 ≡ ok b
      → IsConsumed now qty b
          (repo.find_by_id id s).1
          (consume_batch marshal aggregate_of put repo now id qty s)
  unfolding consume_batch
  consume_batch_atomic now id qty b s idle found =
      let (same, unopened) = repo.find_by_id-IsQuery id s in
      rw found (
        consume_found (consume now qty b).0 (consume now qty b).1 (repo.find_by_id id s).1
          (unopened ∙ idle ∙ sym same))

  -- `WriteOffBatch` of a batch that the query finds, with no transaction open, where `write_off` is the
  -- method it calls: if it answers with an error, nothing is committed. Otherwise the method has
  -- answered no error, and what is committed is what the update with the batch that is left made of
  -- the tables, with exactly one row more in the outbox for each of its events. Either way no
  -- transaction stays open.
  pub write_off_batch_atomic :
      (write_off : String → Batch → Batch × Option Error) (id : BatchId) (reason : String)
      (b : Batch) (s : Session T X)
      → IsIdle s
      → (repo.find_by_id id s).0 ≡ ok b
      → let (left, refused) = write_off reason b in
        let (r, s') = write_off_batch marshal aggregate_of put repo write_off id reason s in
        let saved = repo.update_tx left (begin (repo.find_by_id id s).1).1 in
        IsIdle s'
        × (((e : Error) × (r ≡ err e) × (s'.committed ≡ s.committed))
            ⊎ ((rows : List NewRow) × (r ≡ ok tt)
                × (refused ≡ none)
                × (saved.0 ≡ ok tt)
                × (rows_of event_name marshal aggregate_of left.events ≡ ok rows)
                × (s'.committed ≡ put_all put rows saved.1.working)))
  unfolding write_off_batch
  write_off_batch_atomic write_off id reason b s idle found =
      let (same, unopened) = repo.find_by_id-IsQuery id s in
      let (closed, outcome) =
        consume_found (write_off reason b).0 (write_off reason b).1 (repo.find_by_id id s).1
          (unopened ∙ idle ∙ sym same) in
      rw found
        (closed, elim outcome [ inl (e, r, kept) ↦ inl (e, r, kept ∙ same) | inr done ↦ inr done ])
