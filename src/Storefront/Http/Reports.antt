-- ===== src/Storefront/Http/Reports.antt =====
-- What the status of an answer says of the tables.
use florist_core.Prelude.{◌≡◌, refl, sym, ap, ◌⊎◌, inl, inr, String, Bool-cases, str_eq}
use florist_core.Kernel.Errors.{Error, Result, ok, err}
use florist_core.Kernel.Errors.Cases.{err≢ok, ok_inj, Result-cases}
use florist_core.Kernel.Types.{Time, OrderId}
use florist_core.Ordering.Order.{Order}
use florist_core.Ordering.Confirm.Outcome.{IsConfirmedBy}
use florist_core.Storefront.Orders.{PlaceOrderHandler, PlaceOrderCommand, place_order}
use florist_core.Storefront.Orders.Outcome.{IsPlaced, IsOrdered, IsSaved, place_order_outcome}
use florist_core.Storefront.Http.{Request, command_of, place_order_handler}
use florist_core.Http.{Response, json, answered}
use florist_core.Db.{Session}
use florist_core.Db.Atomic.{IsIdle}

module _ {T X : Type 0} (h : PlaceOrderHandler T X) where
  -- What the request to place an order with a command may come to.
  abbrev pub IsReplied :
      Time → PlaceOrderCommand → Session T X → Response String × Session T X → Type 0
  IsReplied now cmd s (response, s') =
      ((response.status ≡ 500) × IsIdle s' × (s'.committed ≡ s.committed))
      ⊎ ((o : Order) × (m : Session T X) × IsOrdered h cmd o
          × IsSaved h o s.committed m.committed
          × (((response.status ≡ 500) × IsIdle s' × (s'.committed ≡ m.committed))
              ⊎ ((response ≡ record { status = 201; content = json (h.text_of_id o.id) })
                  × IsConfirmedBy h.confirmation now (h.text_of_id o.id) m (ok tt, s'))))

module _ {T X : Type 0} (h : PlaceOrderHandler T X) (text_of : Error → String)
    (decode : String → Result Request) where
  abbrev reply : OrderId → Response String
  reply id = record { status = 201; content = json (h.text_of_id id) }

  replied :
      (now : Time) (cmd : PlaceOrderCommand) (s : Session T X) (p : Result OrderId × Session T X)
      → IsPlaced h now cmd s.committed p
      → IsReplied h now cmd s (answered text_of reply p)
  replied now cmd s (err e, s') (idle, inl (_, _, c)) = inl (refl, idle, c)
  replied now cmd s (ok id, s') (idle, inl (_, r, _)) = absurd (err≢ok (sym r))
  replied now cmd s (ok id, s') (idle, inr (o, m, k, saved, inl (_, r, _, _))) =
      absurd (err≢ok (sym r))
  replied now cmd s (ok id, s') (idle, inr (o, m, k, saved, inr (r, c))) =
      inr (o, m, k, saved, inr (ap reply (ok_inj (sym r)), c))
  replied now cmd s (err e, s') (idle, inr (o, m, k, saved, inl (_, _, _, c))) =
      inr (o, m, k, saved, inl (refl, idle, c))
  replied now cmd s (err e, s') (idle, inr (o, m, k, saved, inr (r, _))) = absurd (err≢ok r)

  -- A request to place an order, with no transaction open, is answered with 400 and nothing is
  -- touched; or with 500, and then nothing is committed, or just the draft of the order is; or with
  -- 201 and the order's identifier, and then the order is saved and confirmed. No transaction stays
  -- open.
  pub place_order_handler_reports :
      (now : Time) (body : String) (s : Session T X)
      → IsIdle s
      → let (response, s') = place_order_handler h text_of decode now body s in
        ((response.status ≡ 400) × (s' ≡ s))
        ⊎ ((req : Request) × (decode body ≡ ok req)
            × IsReplied h now (command_of req) s (response, s'))
  unfolding place_order_handler
  place_order_handler_reports now body s idle = elim (Result-cases (decode body)) [
    | inr (x, bad) ↦ rw bad (inl (refl, refl))
    | inl (req, good) ↦ elim (Bool-cases (str_eq req.store_id "")) [
      | inl e ↦ rw (good, e) (inl (refl, refl))
      | inr e ↦
          rw (good, e)
            (inr (
              req,
              refl,
              replied now (command_of req) s (place_order h now (command_of req) s)
                  (place_order_outcome h now (command_of req) s idle),
            ))
    ]
  ]
