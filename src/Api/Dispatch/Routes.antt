-- ===== src/Api/Dispatch/Routes.antt =====
-- What becomes of the events of a batch that the worker hands to `main`'s handler.
use mathlib.Core.Path.{subst}
use florist_core.Prelude.{
  ℕ, suc, ◌≡◌, refl, Bool, true, false, String, Option, none, List, [], ◌∷◌, ◌++◌, append, All,
  if◌then◌else◌, Bool-cases, inl, inr,
}
use florist_core.Prelude.Int.{ℤ, ltb_ℤ}
use florist_core.Kernel.Errors.{Error, Result, ok}
use florist_core.Kernel.Money.{Money}
use florist_core.Kernel.Types.{BatchId, StoreId, IngredientId, Time}
use florist_core.Inventory.Batch.{
  Batch, DomainEvent, batch_received, batch_expired_event, batch_written_off,
  batch_freshness_changed, batch_consumed, event_name, new_batch, consume, writeoff, mark_aging,
  mark_aging_from, mark_critical, mark_critical_from, expire, is_expired, Freshness, fresh, aging,
  critical, expired,
}
use florist_core.Inventory.Batch.Ops.{
  Op, consume_op, release_op, mark_aging_op, mark_critical_op, expire_op, writeoff_op, pop_op,
  apply, handed, published,
}
use florist_core.Inventory.Recalc.{handle}
use florist_core.Inventory.Recalc.Table.{refreshed, map_row}
use florist_core.Inventory.Recalc.Run.{IsReady, IsReady-room, handle_refreshes}
use florist_core.Inventory.Repository.{Tables, find_row}
use florist_core.Api.Dispatch.{Served, is_recalc, handled, on_event}
use florist_core.Db.{Session}

-- The events that lower a stock or end a batch.
abbrev pub calls_for_recalc : DomainEvent → Bool
calls_for_recalc (batch_received _ _ _ _ _) = false
calls_for_recalc (batch_expired_event _ _ _ _ _) = true
calls_for_recalc (batch_written_off _ _ _ _) = true
calls_for_recalc (batch_freshness_changed _ _ _) = false
calls_for_recalc (batch_consumed _ _ _ _ _ _) = true

-- An event whose name sends it where its kind wants it.
IsRouted : DomainEvent → Type 0
IsRouted ev = is_recalc (event_name ev) ≡ calls_for_recalc ev

All-append :
    (xs ys : List DomainEvent) → All IsRouted xs → All IsRouted ys → All IsRouted (xs ++ ys)
All-append [] ys h k = k
All-append (x ∷ xs) ys (h, hs) k = (h, All-append xs ys hs k)

All-record :
    (xs : List DomainEvent) (y : DomainEvent)
    → All IsRouted xs
    → IsRouted y
    → All IsRouted (append xs y)
All-record [] y h k = (k, tt)
All-record (x ∷ xs) y (h, hs) k = (h, All-record xs y hs k)

apply-IsRouted :
    (op : Op) (b : Batch)
    → All IsRouted b.events
    → All IsRouted (handed op b) × All IsRouted (apply op b).0.events
unfolding apply consume writeoff mark_aging mark_critical expire event_name IsRouted
apply-IsRouted (consume_op now qty) b h = elim (Bool-cases (is_expired b.freshness)) [
  | inl e ↦ rw e (tt, h)
  | inr e ↦ elim (Bool-cases (ltb_ℤ b.remaining_qty qty)) [
    | inl few ↦ rw (e, few) (tt, h)
    | inr enough ↦ rw (e, enough) (tt, All-record b.events _ h refl)
  ]
]
apply-IsRouted (release_op qty) b h = (tt, h)
apply-IsRouted (writeoff_op now qty reason) b h = elim (Bool-cases (is_expired b.freshness)) [
  | inl e ↦ rw e (tt, h)
  | inr e ↦ elim (Bool-cases (ltb_ℤ b.remaining_qty qty)) [
    | inl few ↦ rw (e, few) (tt, h)
    | inr enough ↦ rw (e, enough) (tt, All-record b.events _ h refl)
  ]
]
apply-IsRouted (mark_aging_op now) b h = (tt, go b.freshness)
  where
    go : (f : Freshness) → All IsRouted (mark_aging_from f now b).events
    go fresh = All-record b.events _ h refl
    go aging = h
    go critical = h
    go expired = h
apply-IsRouted mark_critical_op b h = (tt, go b.freshness)
  where
    go : (f : Freshness) → All IsRouted (mark_critical_from f b).events
    go fresh = h
    go aging = h
    go critical = h
    go expired = h
apply-IsRouted (expire_op now) b h = elim (Bool-cases (is_expired b.freshness)) [
  | inl e ↦ rw e (tt, h)
  | inr e ↦ rw e (tt, All-record b.events _ h refl)
]
apply-IsRouted pop_op b h = (h, tt)

published-IsRouted :
    (ops : List Op) (b : Batch) → All IsRouted b.events → All IsRouted (published ops b)
unfolding published
published-IsRouted [] b h = tt
published-IsRouted (op ∷ ops) b h =
    let (out, left) = apply-IsRouted op b h in
    All-append (handed op b) (published ops (apply op b).0) out
      (published-IsRouted ops (apply op b).0 left)

All-map :
    (P Q : DomainEvent → Type 0)
    → ((ev : DomainEvent) → P ev → Q ev)
    → (evs : List DomainEvent) → All P evs
    → All Q evs
All-map P Q f [] h = tt
All-map P Q f (ev ∷ evs) (h, hs) = (f ev h, All-map P Q f evs hs)

module _ {X : Type 0} (clock : ℕ → Time) (n : ℕ) (v : Served X) where
  -- What the handler makes of an event: it answers no error, and every batch is looked at once if the event
  -- calls for it; otherwise nothing is touched.
  abbrev pub IsDispatched : Bool → Served X × Option Error → Type 0
  IsDispatched c (v', failed) =
      (failed ≡ none)
      × IsReady n v'.session
      × (v'.runs ≡ (if c then suc v.runs else v.runs))
      × ((j : BatchId)
          → find_row j v'.session.committed.batches ≡ (
              if c
              then map_row (refreshed (clock v.runs)) (find_row j v.session.committed.batches)
              else find_row j v.session.committed.batches))
      × (v'.session.committed.outbox ≡ v.session.committed.outbox)

  handled_ok :
      (k : ℕ) (p : Result (Unit {0}) × Session Tables X)
      → p.0 ≡ ok tt
      → handled k p ≡ (record { session = p.1; runs = k }, none)
  handled_ok k p h = rw h refl

  pub turn :
      (event_type payload : String)
      → IsReady (suc n) v.session
      → IsDispatched (is_recalc event_type) (on_event clock v event_type payload)
  unfolding on_event
  turn event_type payload ready =
      let now = clock v.runs in
      let (answers, rows, still, ready') = handle_refreshes now n v.session ready in
      elim (Bool-cases (is_recalc event_type)) [
        | inl c ↦
            rw (c, handled_ok (suc v.runs) (handle now v.session) answers)
              (refl, ready', refl, rows, still)
        | inr c ↦ rw c (refl, IsReady-room n v.session ready, refl, (λ j. refl), refl)
      ]

  dispatched :
      (payload : String) (ev : DomainEvent)
      → IsReady (suc n) v.session
      → IsRouted ev
      → IsDispatched (calls_for_recalc ev) (on_event clock v (event_name ev) payload)
  unfolding IsRouted
  dispatched payload ev ready routed =
      subst (λ c. IsDispatched c (on_event clock v (event_name ev) payload)) routed
        (turn (event_name ev) payload ready)

  -- Of a new batch, any sequence of calls hands out events of which the handler in `main` recognises the
  -- consumptions, expiries and write-offs by their names, and no others. On a working database with
  -- no transaction open, over a table with its primary key and rows that its columns and checks allow,
  -- their versions below the largest 32-bit number, it answers no error to any of them; for those three
  -- it has the freshness of every active batch looked at once, at the time of the run, and for the
  -- others it touches nothing. It publishes nothing.
  pub published-IsDispatched :
      (payload : String) (id : BatchId) (at : Time) (store_id : StoreId)
      (ingredient_id : IngredientId) (qty : ℤ) (price : Money) (received_at expires_at : Time)
      (ops : List Op)
      → IsReady (suc n) v.session
      → All
          (λ ev. IsDispatched (calls_for_recalc ev) (on_event clock v (event_name ev) payload))
          (published ops (new_batch id at store_id ingredient_id qty price received_at expires_at))
  unfolding new_batch IsRouted event_name
  published-IsDispatched payload id at store_id ingredient_id qty price received_at expires_at ops
        ready =
      let b = new_batch id at store_id ingredient_id qty price received_at expires_at in
      All-map IsRouted
        (λ ev. IsDispatched (calls_for_recalc ev) (on_event clock v (event_name ev) payload))
        (λ ev r. dispatched payload ev ready r) (published ops b)
        (published-IsRouted ops b (refl, tt))
