-- ===== src/Ordering/Confirm/Inside.antt =====
-- Calls that leave what is outside of the tables alone.
use Prim.Native.String.{◌++◌ as ◌<>◌}
use florist_core.Prelude.{
  ◌≡◌, refl, ◌∙◌, inl, inr, String, List, [], ◌∷◌, Option, none, some, arith,
}
use florist_core.Kernel.Errors.{Error, Result, ok, err, wrapped}
use florist_core.Kernel.Errors.Cases.{Result-cases}
use florist_core.Ordering.Confirm.{IsInside}
use florist_core.Outbox.Publisher.{NewRow, new_row, publish_tx, publish_some}
use florist_core.Outbox.Publisher.Complete.{insert_tx}
use florist_core.Db.{
  Action, Session, Statement, continue, check, ◌>>=◌, close_tx, tx_exec, wrap_error,
}

pub bind-IsInside :
    {T X A B : Type 0} (m : Action T X A) (f : A → Action T X B)
    → IsInside m
    → ((a : A) → IsInside (f a))
    → IsInside (m >>= f)
bind-IsInside {T} {X} {A} {B} m f h k s = go (m s) (h s)
  where
    go :
        (r : Result A × Session T X)
        → r.1.outside ≡ s.outside
        → (continue r f).1.outside ≡ s.outside
    go (ok a, s') e = k a s' ∙ e
    go (err x, s') e = e

pub check-IsInside : {T X : Type 0} (e : Option Error) → IsInside {T = T} {X = X} (check e)
check-IsInside none s = refl
check-IsInside (some x) s = refl

pub close_tx-outside :
    {T X A : Type 0} (q : Result A × Session T X) → (close_tx q).1.outside ≡ q.1.outside
unfolding close_tx
close_tx-outside q = ground arith

pub tx_exec-IsInside : {T X A : Type 0} (q : Statement T A) → IsInside {X = X} (tx_exec q)
unfolding tx_exec
tx_exec-IsInside q s = ground arith

insert_tx-IsInside :
    {T X : Type 0} (label : Error → Error) (put : NewRow → T → T) (row : NewRow)
    → IsInside {X = X} (wrap_error label (insert_tx put row))
unfolding tx_exec
insert_tx-IsInside label put row s = ground arith

pub close_tx_fails :
    {T X A : Type 0} (q : Result A × Session T X) (e : Error) → q.0 ≡ err e → (close_tx q).0 ≡ err e
unfolding close_tx
close_tx_fails q e failed = ground arith

pub continue_done :
    {T X B : Type 0} (p : Result (Unit {0}) × Session T X) (f : Unit {0} → Action T X B)
    → p.0 ≡ ok tt
    → continue p f ≡ f tt p.1
continue_done p f done = ground arith

module _ {E T X : Type 0} (event_name : E → String) (marshal : E → Result String)
    (aggregate_of : E → Option (String × String)) (put : NewRow → T → T) where
  publish_tx-IsInside :
      (evs : List E)
      → IsInside {T = T} {X = X} (publish_tx event_name marshal aggregate_of (insert_tx put) evs)
  unfolding publish_tx
  publish_tx-IsInside [] s = refl
  publish_tx-IsInside (ev ∷ evs) s = elim (Result-cases (marshal ev)) [
    | inr (e, m) ↦ rw (m, publish_tx) refl
    | inl (payload, m) ↦
        rw (m, publish_tx)
          (bind-IsInside {B = Unit {0}}
            (wrap_error (wrapped ("outbox publisher: insert " <> event_name ev))
              (insert_tx put (new_row event_name marshal aggregate_of ev payload)))
            (λ _. publish_tx event_name marshal aggregate_of (insert_tx put) evs)
            (insert_tx-IsInside (wrapped ("outbox publisher: insert " <> event_name ev)) put
              (new_row event_name marshal aggregate_of ev payload))
            (λ _. publish_tx-IsInside evs) s)
  ]

  pub publish_some-IsInside :
      (evs : List E)
      → IsInside {T = T} {X = X} (publish_some event_name marshal aggregate_of (insert_tx put) evs)
  publish_some-IsInside [] s = refl
  publish_some-IsInside (ev ∷ evs) s = publish_tx-IsInside (ev ∷ evs) s
