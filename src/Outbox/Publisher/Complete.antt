-- ===== src/Outbox/Publisher/Complete.antt =====
-- What a publication leaves in the table.
use Prim.Native.String.{◌++◌ as ◌<>◌}
use florist_core.Prelude.{
  ◌≡◌, refl, String, Option, some, List, [], ◌∷◌, Bool-cases, inl, inr, if◌then◌else◌,
}
use florist_core.Kernel.Errors.{Error, Result, ok, err, driver, wrapped, ◌>>=◌ as ◌⟫=◌}
use florist_core.Kernel.Errors.Cases.{err≢ok, Result-cases}
use florist_core.Db.{Session, Action, tx_exec, next_reply}
use florist_core.Db.Atomic.{IsPending}
use florist_core.Outbox.Publisher.{NewRow, new_row, publish_tx, publish_some}

-- The insertion as a statement of the transaction.
abbrev pub insert_tx : {T X : Type 0} → (NewRow → T → T) → NewRow → Action T X (Unit {0})
insert_tx put row = tx_exec (λ t. some (tt, put row t))

module _ {E : Type 0} (event_name : E → String) (marshal : E → Result String)
    (aggregate_of : E → Option (String × String)) where
  -- One row for each event, in their order.
  abbrev pub rows_of : List E → Result (List NewRow)
  rows_of [] = ok []
  rows_of (ev ∷ evs) = marshal ev ⟫= λ payload.
      rows_of evs ⟫= λ rows. ok (new_row event_name marshal aggregate_of ev payload ∷ rows)

abbrev pub put_all : {T : Type 0} → (NewRow → T → T) → List NewRow → T → T
put_all put [] t = t
put_all put (row ∷ rows) t = put_all put rows (put row t)

module _ {E T X : Type 0} (event_name : E → String) (marshal : E → Result String)
    (aggregate_of : E → Option (String × String)) (put : NewRow → T → T) where
  -- The transaction after one row more.
  after_insert : NewRow → Session T X → Session T X
  after_insert row s = record s { working = put row s.working; replies = (next_reply s.replies).1 }

  -- The last insertion is refused, with everything before it still pending.
  after_refusal : Session T X → Session T X
  after_refusal s = record s { replies = (next_reply s.replies).1 }

  publish_cons :
      (ev : E) (evs : List E) (payload : String) (s : Session T X)
      → marshal ev ≡ ok payload
      → publish_tx event_name marshal aggregate_of (insert_tx put) (ev ∷ evs) s ≡ (
          if (next_reply s.replies).0
          then publish_tx event_name marshal aggregate_of
              (insert_tx put)
              evs
              (after_insert (new_row event_name marshal aggregate_of ev payload) s)
          else (
            err (wrapped ("outbox publisher: insert " <> event_name ev) driver),
            after_refusal s,
          ))
  unfolding publish_tx tx_exec after_insert after_refusal
  publish_cons ev evs payload s m =
      rw (m, publish_tx)
        (elim (Bool-cases (next_reply s.replies).0) [ inl e ↦ rw e refl | inr e ↦ rw e refl ])

  publish_unmarshalled :
      (ev : E) (evs : List E) (e : Error) (s : Session T X)
      → marshal ev ≡ err e
      → publish_tx event_name marshal aggregate_of (insert_tx put) (ev ∷ evs) s
        ≡ (err (wrapped ("outbox publisher: marshal " <> event_name ev) e), s)
  unfolding publish_tx
  publish_unmarshalled ev evs e s m = rw (m, publish_tx) refl

  -- Publishing in a transaction commits nothing by itself.
  pub publish_tx-IsPending :
      (evs : List E)
      → IsPending {T = T} {X = X} (publish_tx event_name marshal aggregate_of (insert_tx put) evs)
  unfolding after_insert after_refusal
  publish_tx-IsPending [] s = unfold publish_tx in refl
  publish_tx-IsPending (ev ∷ evs) s = elim (Result-cases (marshal ev)) [
    | inr (e, m) ↦ rw (publish_unmarshalled ev evs e s m) refl
    | inl (payload, m) ↦
        rw (publish_cons ev evs payload s m) (elim (Bool-cases (next_reply s.replies).0) [
          | inr e ↦ rw e refl
          | inl e ↦ rw e (
              publish_tx-IsPending evs
                (after_insert (new_row event_name marshal aggregate_of ev payload) s))
        ])
  ]

  -- If `PublishTx` succeeds, every event has its JSON and has got exactly one row in the
  -- transaction, in their order, and nothing else has changed in it.
  pub publish_tx_complete :
      (evs : List E) (s : Session T X)
      → (publish_tx event_name marshal aggregate_of (insert_tx put) evs s).0 ≡ ok tt
      → (rows : List NewRow) × (rows_of event_name marshal aggregate_of evs ≡ ok rows)
        × ((publish_tx event_name marshal aggregate_of (insert_tx put) evs s).1.working
            ≡ put_all put rows s.working)
  unfolding after_insert after_refusal
  publish_tx_complete [] s = λ h. unfold publish_tx in ([], refl, refl)
  publish_tx_complete (ev ∷ evs) s = elim (Result-cases (marshal ev)) [
    | inr (e, m) ↦ rw (publish_unmarshalled ev evs e s m) (λ h. absurd (err≢ok h))
    | inl (payload, m) ↦
        rw (publish_cons ev evs payload s m, m)
          (elim (Bool-cases (next_reply s.replies).0) [
            | inr e ↦ rw e (λ h. absurd (err≢ok h))
            | inl e ↦ rw e (λ h.
                let row = new_row event_name marshal aggregate_of ev payload in
                let found = publish_tx_complete evs (after_insert row s) h in
                (row ∷ found.0, rw found.1 refl, found.2))
          ])
  ]

  pub publish_some-IsPending :
      (evs : List E)
      → IsPending {T = T} {X = X} (publish_some event_name marshal aggregate_of (insert_tx put) evs)
  publish_some-IsPending [] s = refl
  publish_some-IsPending (ev ∷ evs) s = publish_tx-IsPending (ev ∷ evs) s

  pub publish_some_complete :
      (evs : List E) (s : Session T X)
      → (publish_some event_name marshal aggregate_of (insert_tx put) evs s).0 ≡ ok tt
      → (rows : List NewRow) × (rows_of event_name marshal aggregate_of evs ≡ ok rows)
        × ((publish_some event_name marshal aggregate_of (insert_tx put) evs s).1.working
            ≡ put_all put rows s.working)
  publish_some_complete [] s h = ([], refl, refl)
  publish_some_complete (ev ∷ evs) s h = publish_tx_complete (ev ∷ evs) s h
