-- ===== src/Ordering/Confirm/Outcome.antt =====
-- What a confirmation may come to, and what it leaves in the tables.
use mathlib.Core.Path.{subst}
use florist_core.Prelude.{
  ◌≡◌, ◌≢◌, refl, sym, ◌∙◌, ap, Bool-cases, ◌⊎◌, inl, inr, String, List, [], All,
}
use florist_core.Kernel.Errors.{Error, Result, ok, err, wrapped, order_not_draft}
use florist_core.Kernel.Errors.Cases.{Result-cases}
use florist_core.Kernel.Types.{OrderId, Time}
use florist_core.Ordering.Order.{Order, draft, event_name, is_draft, confirm, pop_events}
use florist_core.Ordering.Confirm.{
  ConfirmOrderHandler, check_items, publish_events, store_confirmed, confirm_body, confirm_found,
  confirm_order,
}
use florist_core.Outbox.Publisher.{NewRow}
use florist_core.Outbox.Publisher.Complete.{
  rows_of, put_all, publish_some-IsPending, publish_some_complete,
}
use florist_core.Db.{Session, continue, check, ◌>>◌, run_tx, begin}
use florist_core.Db.Atomic.{
  IsPending, IsIdle, bind-IsPending, bind_ok, run_tx_atomic, begin-working,
}
use florist_core.Ordering.Confirm.Checks.{
  IsAvailable, check_items-IsQuery, check_items_ok, check-IsPending, check_ok, confirm_ok,
}

module _ {T X : Type 0} (h : ConfirmOrderHandler T X) where
  -- The order as it is stored.
  abbrev confirmed : Time → Order → Order
  confirmed now o = (confirm now o).0

  store_confirmed-IsPending :
      (now : Time) (o : Order) → IsPending (store_confirmed h (confirm now o))
  unfolding pop_events
  store_confirmed-IsPending now o =
      let events = (confirmed now o).events in
      let store = h.orders.update_tx (confirmed now o) in
      let tail : IsPending (store >> publish_events h events) =
        bind-IsPending {B = Unit {0}} store (λ _. publish_events h events)
          (h.orders.update_tx-IsPending (confirmed now o))
          (λ _. publish_some-IsPending event_name h.marshal h.aggregate_of h.put events) in
      bind-IsPending {B = Unit {0}} (check (confirm now o).1)
        (λ _. store >> publish_events h events) (check-IsPending (confirm now o).1) (λ _. tail)

  -- The update and the events of the transaction, after a reservation that left `t`.
  abbrev pub IsStored : Time → Order → T → T → Type 0
  IsStored now o before after =
      (t : Session T X) × (rows : List NewRow) × (t.working ≡ before)
      × ((h.orders.update_tx (confirmed now o) t).0 ≡ ok tt)
      × (rows_of event_name h.marshal h.aggregate_of (confirmed now o).events ≡ ok rows)
      × (after ≡ put_all h.put rows (h.orders.update_tx (confirmed now o) t).1.working)

  confirm_body_ok :
      (now : Time) (o : Order) (s : Session T X)
      → (confirm_body h now o s).0 ≡ ok tt
      → (o.status ≡ draft)
        × (o.items ≢ [])
        × IsStored now o s.working (confirm_body h now o s).1.working
  unfolding pop_events
  confirm_body_ok now o s q =
      let reserve = h.reservations.reserve_for_order o.id in
      let events = (confirmed now o).events in
      let store = h.orders.update_tx (confirmed now o) in
      let send = publish_events h events in
      let verdict = check {T = T} {X = X} (confirm now o).1 in
      let (_, _, rest, same) = bind_ok reserve (λ _. store_confirmed h (confirm now o)) tt s q in
      let t = (reserve s).1 in
      let (_, passed, rest2, same2) = bind_ok verdict (λ _. store >> send) tt t rest in
      let (sound, kept) = check_ok (confirm now o).1 t passed in
      let t' = (verdict t).1 in
      let (_, stored, rest3, same3) = bind_ok store (λ _. send) tt t' rest2 in
      let (rows, each, end) =
        publish_some_complete event_name h.marshal h.aggregate_of h.put events (store t').1 rest3 in
      let (status, items) = confirm_ok now o sound in
      (
        status,
        items,
        (
          t',
          rows,
          ap (λ z. z.working) kept ∙ (h.reservations.reserve_keeps o.id s).1,
          stored,
          each,
          ap (λ z. z.working) (same ∙ same2 ∙ same3) ∙ end,
        ),
      )

  confirm_body-IsPending : (now : Time) (o : Order) → IsPending (confirm_body h now o)
  confirm_body-IsPending now o =
      bind-IsPending {B = Unit {0}} (h.reservations.reserve_for_order o.id)
        (λ _. store_confirmed h (confirm now o)) (λ s. (h.reservations.reserve_keeps o.id s).0)
        (λ _. store_confirmed-IsPending now o)

  -- What a confirmation of the order may come to, from a session with these committed tables.
  abbrev pub IsConfirmed : Time → Order → T → Result (Unit {0}) × Session T X → Type 0
  IsConfirmed now o before (r, s') =
      IsIdle s'
      × (((e : Error) × (r ≡ err e) × (s'.committed ≡ before))
          ⊎ ((r ≡ ok tt)
              × (o.status ≡ draft)
              × (o.items ≢ [])
              × All (IsAvailable h o.store_id) o.items
              × IsStored now o before s'.committed))

  confirm_checked :
      (now : Time) (o : Order) (s : Session T X)
      → IsIdle s
      → All (IsAvailable h o.store_id) o.items
      → IsConfirmed now o s.committed (run_tx (confirm_body h now o) s)
  confirm_checked now o s idle available =
      let all = run_tx_atomic (confirm_body h now o) s (confirm_body-IsPending now o) idle in
      (
        all.0,
        elim all.1 [
          | inl failed ↦ inl failed
          | inr (x, r, q, c) ↦
              let (status, items, (t, rows, w, stored, each, end)) =
                confirm_body_ok now o (begin s).1 q in
              inr (
                r,
                status,
                items,
                available,
                (t, rows, w ∙ begin-working s idle, stored, each, c ∙ end),
              )
        ],
      )

  after_checks :
      (now : Time) (o : Order) (s : Session T X) (p : Result (Unit {0}) × Session T X)
      → IsIdle s
      → (p.1.committed ≡ s.committed) × (p.1.working ≡ s.working)
      → (p.0 ≡ ok tt → All (IsAvailable h o.store_id) o.items)
      → IsConfirmed now o s.committed (continue p (λ _. run_tx (confirm_body h now o)))
  after_checks now o s (ok _, s') idle (e0, e1) k =
      subst (λ c. IsConfirmed now o c (run_tx (confirm_body h now o) s')) e0
        (confirm_checked now o s' (e1 ∙ idle ∙ sym e0) (k refl))
  after_checks now o s (err e, s') idle (e0, e1) k = (e1 ∙ idle ∙ sym e0, inl (e, refl, e0))

  confirm_found_outcome :
      (now : Time) (o : Order) (s : Session T X)
      → IsIdle s
      → IsConfirmed now o s.committed (confirm_found h now o s)
  confirm_found_outcome now o s idle = elim (Bool-cases (is_draft o.status)) [
    | inr e ↦ rw e (idle, inl (wrapped "ConfirmOrderHandler" order_not_draft, refl, refl))
    | inl e ↦ rw e (
        let (e0, e1, _) = check_items-IsQuery h o.store_id o.items s in
        after_checks now o s (check_items h o.store_id o.items s) idle (e0, e1)
          (check_items_ok h o.store_id o.items s))
  ]

  -- What a confirmation by the text of an identifier may come to.
  abbrev pub IsConfirmedBy : Time → String → Session T X → Result (Unit {0}) × Session T X → Type 0
  IsConfirmedBy now order_id s (r, s') =
      IsIdle s'
      × (((e : Error) × (r ≡ err e) × (s'.committed ≡ s.committed))
          ⊎ ((id : OrderId) × (o : Order) × (r ≡ ok tt)
              × (h.parse_id order_id ≡ ok id)
              × ((h.orders.find_by_id id s).0 ≡ ok o)
              × (o.status ≡ draft)
              × (o.items ≢ [])
              × All (IsAvailable h o.store_id) o.items
              × IsStored now o s.committed s'.committed))

  of_order :
      (now : Time) (order_id : String) (id : OrderId) (o : Order) (s : Session T X)
      (q : Result (Unit {0}) × Session T X)
      → h.parse_id order_id ≡ ok id
      → (h.orders.find_by_id id s).0 ≡ ok o
      → IsConfirmed now o s.committed q
      → IsConfirmedBy now order_id s q
  of_order now order_id id o s q parsed found (idle, inl failed) = (idle, inl failed)
  of_order now order_id id o s q parsed found (idle, inr (r, status, items, available, stored)) =
      (idle, inr (id, o, r, parsed, found, status, items, available, stored))

  -- `ConfirmOrder` with no transaction open: if it answers with an error, nothing is committed.
  -- Otherwise the text is an identifier, and the order that the query finds for it was a draft with
  -- lines, for every one of which the availability service has answered that it may be sold; and what
  -- is committed is what the update with the confirmed order made of the tables with exactly one row
  -- more in the outbox for each event of it. Either way no transaction stays open.
  pub confirm_order_atomic :
      (now : Time) (order_id : String) (s : Session T X)
      → IsIdle s
      → IsConfirmedBy now order_id s (confirm_order h now order_id s)
  unfolding confirm_order
  confirm_order_atomic now order_id s idle = elim (Result-cases (h.parse_id order_id)) [
    | inr (e, bad) ↦
        rw bad (idle, inl (wrapped "ConfirmOrderHandler: invalid order id" e, refl, refl))
    | inl (id, parsed) ↦
        let (e0, e1, _) = h.orders.find_by_id-IsQuery id s in
        elim (Result-cases (h.orders.find_by_id id s).0) [
          | inr (e, missing) ↦ rw (parsed, missing) (e1 ∙ idle ∙ sym e0, inl (e, refl, e0))
          | inl (o, found) ↦
              of_order now order_id id o s (confirm_order h now order_id s) parsed found (
                rw (parsed, found)
                  (subst
                    (λ c. IsConfirmed now o c (confirm_found h now o (h.orders.find_by_id id s).1))
                    e0
                    (confirm_found_outcome now o (h.orders.find_by_id id s).1
                      (e1 ∙ idle ∙ sym e0))))
        ]
  ]
