-- ===== src/Ordering/Http/Reports.antt =====
-- What the status of an answer says of the tables.
use florist_core.Prelude.{◌≡◌, refl, ◌⊎◌, inl, inr, String, Bool-cases, str_eq}
use florist_core.Kernel.Errors.{Error, Result, ok, err}
use florist_core.Kernel.Errors.Cases.{err≢ok, Result-cases}
use florist_core.Kernel.Types.{Time}
use florist_core.Ordering.Confirm.{ConfirmOrderHandler, confirm_order}
use florist_core.Ordering.Confirm.Outcome.{IsConfirmedBy, confirm_order_atomic}
use florist_core.Ordering.Http.{confirm_order_handler}
use florist_core.Http.{Response, no_content, answered}
use florist_core.Db.{Session}
use florist_core.Db.Atomic.{IsIdle}

module _ {T X : Type 0} (h : ConfirmOrderHandler T X) where
  -- What a request to confirm may come to.
  abbrev pub IsReported : Time → String → Session T X → Response String × Session T X → Type 0
  IsReported now order_id s (response, s') =
      ((response.status ≡ 400) × (s' ≡ s))
      ⊎ ((response.status ≡ 500) × IsIdle s' × (s'.committed ≡ s.committed))
      ⊎ ((response.status ≡ 200) × IsConfirmedBy h now order_id s (ok tt, s'))

module _ {T X : Type 0} (h : ConfirmOrderHandler T X) (text_of : Error → String)
    (decode : String → Result String) where
  reported :
      (now : Time) (order_id : String) (s : Session T X) (p : Result (Unit {0}) × Session T X)
      → IsConfirmedBy h now order_id s p
      → IsReported h now order_id s (answered text_of (λ _. no_content 200) p)
  reported now order_id s (ok tt, s') c = inr (inr (refl, c))
  reported now order_id s (err e, s') (idle, inl (_, _, c)) = inr (inl (refl, idle, c))
  reported now order_id s (err e, s') (idle, inr (_, _, r, _, _, _, _, _, _)) = absurd (err≢ok r)

  -- A request to confirm an order, with no transaction open, is answered with 400 and nothing is
  -- touched, or with 500 and nothing is committed, or with 200, and then the order of the path is
  -- confirmed and its events are in the outbox. No transaction stays open.
  pub confirm_order_handler_reports :
      (now : Time) (order_id body : String) (s : Session T X)
      → IsIdle s
      → IsReported h now order_id s (confirm_order_handler h text_of decode now order_id body s)
  unfolding confirm_order_handler
  confirm_order_handler_reports now order_id body s idle = elim (Bool-cases (str_eq order_id "")) [
    | inl e ↦ rw e (inl (refl, refl))
    | inr e ↦ elim (Result-cases (decode body)) [
      | inr (x, bad) ↦ rw (e, bad) (inl (refl, refl))
      | inl (x, good) ↦
          rw (e, good)
            (reported now order_id s (confirm_order h now order_id s)
              (confirm_order_atomic h now order_id s idle))
    ]
  ]
