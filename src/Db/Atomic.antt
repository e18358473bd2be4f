-- ===== src/Db/Atomic.antt =====
-- Transactions and what they leave.
use florist_core.Prelude.{ap, sym, some, ◌≡◌, ◌∙◌, refl, Bool-cases, ◌⊎◌, inl, inr, arith}
use florist_core.Kernel.Errors.{Error, Result, ok, err, driver}
use florist_core.Kernel.Errors.Cases.{err≢ok}
use florist_core.Db.{
  Session, Action, Statement, continue, next_reply, ◌>>=◌, tx_exec, begin, close_tx, close_labelled,
  with_labelled_tx, run_tx, with_tx, wrap_error, relabel,
}

-- No transaction is open.
abbrev pub IsIdle : {T X : Type 0} → Session T X → Type 0
IsIdle s = s.working ≡ s.committed

-- A call that commits nothing by itself.
abbrev pub IsPending : {T X A : Type 0} → Action T X A → Type 0
IsPending {T} {X} m = (s : Session T X) → (m s).1.committed ≡ s.committed

pub begin-working : {T X : Type 0} (s : Session T X) → IsIdle s → (begin s).1.working ≡ s.committed
unfolding begin
begin-working s idle = elim (Bool-cases (next_reply s.replies).0) [
  | inl e ↦ rw e refl
  | inr e ↦ rw e idle
]

module _ {T X A : Type 0} where
  pub tx_exec-IsPending : (q : Statement T A) → IsPending {X = X} (tx_exec q)
  unfolding tx_exec
  tx_exec-IsPending q s = ground arith

  pub bind-IsPending :
      {B : Type 0} (m : Action T X A) (f : A → Action T X B)
      → IsPending m
      → ((a : A) → IsPending (f a))
      → IsPending (m >>= f)
  bind-IsPending m f h k s = go (m s) (h s)
    where
      go :
          (r : Result A × Session T X)
          → r.1.committed ≡ s.committed
          → (continue r f).1.committed ≡ s.committed
      go (ok a, s') e = k a s' ∙ e
      go (err x, s') e = e

  -- What a transaction from the tables `t` with the body `fn`, which ended as `q`, may come to.
  abbrev pub IsAllOrNothing : T → Result A × Session T X → Result A × Session T X → Type 0
  IsAllOrNothing t q (r, s') =
      IsIdle s'
      × (((e : Error) × (r ≡ err e) × (s'.committed ≡ t))
          ⊎ ((a : A) × (r ≡ ok a) × (q.0 ≡ ok a) × (s'.committed ≡ q.1.working)))

  close_tx_atomic :
      (t : T) (q : Result A × Session T X) → q.1.committed ≡ t → IsAllOrNothing t q (close_tx q)
  unfolding close_tx
  close_tx_atomic t (ok a, s) h = elim (Bool-cases (next_reply s.replies).0) [
    | inl e ↦ rw e (refl, inr (a, refl, refl, refl))
    | inr e ↦ rw e (refl, inl (driver, refl, h))
  ]
  close_tx_atomic t (err e, s) h = (refl, inl (e, refl, h))

  -- A transaction over calls that commit nothing by themselves, started while none is open, is all or
  -- nothing: either it answers with an error and nothing is committed, or it answers as its body did,
  -- without error, and what is committed is exactly what the body left. Afterwards no transaction is
  -- open.
  pub run_tx_atomic :
      (fn : Action T X A) (s : Session T X)
      → IsPending fn
      → IsIdle s
      → IsAllOrNothing s.committed (fn (begin s).1) (run_tx fn s)
  unfolding run_tx begin
  run_tx_atomic fn s h idle = elim (Bool-cases (next_reply s.replies).0) [
    | inl e ↦ rw e (
        close_tx_atomic s.committed _
          (h (record s { working = s.committed; replies = (next_reply s.replies).1 })))
    | inr e ↦ rw e (idle, inl (driver, refl, refl))
  ]

  pub with_tx_atomic :
      (label : Error → Error) (fn : Action T X A) (s : Session T X)
      → IsPending fn
      → IsIdle s
      → IsAllOrNothing s.committed (fn (begin s).1) (with_tx label fn s)
  unfolding with_tx begin
  with_tx_atomic label fn s h idle = elim (Bool-cases (next_reply s.replies).0) [
    | inl e ↦ rw e (
        close_tx_atomic s.committed _
          (h (record s { working = s.committed; replies = (next_reply s.replies).1 })))
    | inr e ↦ rw e (idle, inl (label driver, refl, refl))
  ]

module _ {T X A : Type 0} where
  close_labelled_atomic :
      (last : Error → Error) (t : T) (q : Result A × Session T X)
      → q.1.committed ≡ t
      → IsAllOrNothing t q (close_labelled last q)
  unfolding close_labelled
  close_labelled_atomic last t (ok a, s) h = elim (Bool-cases (next_reply s.replies).0) [
    | inl e ↦ rw e (refl, inr (a, refl, refl, refl))
    | inr e ↦ rw e (refl, inl (last driver, refl, h))
  ]
  close_labelled_atomic last t (err e, s) h = (refl, inl (e, refl, h))

  pub with_labelled_tx_atomic :
      (label last : Error → Error) (fn : Action T X A) (s : Session T X)
      → IsPending fn
      → IsIdle s
      → IsAllOrNothing s.committed (fn (begin s).1) (with_labelled_tx label last fn s)
  unfolding with_labelled_tx begin
  with_labelled_tx_atomic label last fn s h idle = elim (Bool-cases (next_reply s.replies).0) [
    | inl e ↦ rw e (
        close_labelled_atomic last s.committed _
          (h (record s { working = s.committed; replies = (next_reply s.replies).1 })))
    | inr e ↦ rw e (idle, inl (label driver, refl, refl))
  ]

-- What the success of a chain says of its links.
module _ {T X A B : Type 0} where
  abbrev pub IsChainOk :
      Result A × Session T X → (A → Action T X B) → B → Result B × Session T X → Type 0
  IsChainOk p f b q = (a : A) × (p.0 ≡ ok a) × ((f a p.1).0 ≡ ok b) × (q.1 ≡ (f a p.1).1)

  continue_ok :
      (p : Result A × Session T X) (f : A → Action T X B) (b : B)
      → (continue p f).0 ≡ ok b
      → IsChainOk p f b (continue p f)
  continue_ok (ok a, s) f b h = (a, refl, h, refl)
  continue_ok (err e, s) f b h = absurd (err≢ok h)

  pub bind_ok :
      (m : Action T X A) (f : A → Action T X B) (b : B) (s : Session T X)
      → ((m >>= f) s).0 ≡ ok b
      → IsChainOk (m s) f b ((m >>= f) s)
  bind_ok m f b s h = continue_ok (m s) f b h

module _ {T X A : Type 0} where
  relabel_ok :
      (label : Error → Error) (p : Result A × Session T X) (a : A)
      → (relabel label p).0 ≡ ok a
      → (p.0 ≡ ok a) × ((relabel label p).1 ≡ p.1)
  relabel_ok label (ok b, s) a h = (h, refl)
  relabel_ok label (err e, s) a h = absurd (err≢ok h)

  pub wrap_error_ok :
      (label : Error → Error) (m : Action T X A) (a : A) (s : Session T X)
      → (wrap_error label m s).0 ≡ ok a
      → ((m s).0 ≡ ok a) × ((wrap_error label m s).1 ≡ (m s).1)
  wrap_error_ok label m a s h = relabel_ok label (m s) a h

  relabel-committed :
      (label : Error → Error) (p : Result A × Session T X)
      → (relabel label p).1.committed ≡ p.1.committed
  relabel-committed label (ok a, s) = refl
  relabel-committed label (err e, s) = refl

  pub wrap_error-IsPending :
      (label : Error → Error) (m : Action T X A) → IsPending m → IsPending (wrap_error label m)
  wrap_error-IsPending label m h s = relabel-committed label (m s) ∙ h s

  -- A statement of a transaction that succeeds has done its work there.
  pub tx_exec_ok :
      (q : Statement T A) (a : A) (s : Session T X)
      → (tx_exec q s).0 ≡ ok a
      → q s.working ≡ some (a, (tx_exec q s).1.working)
  unfolding tx_exec
  tx_exec_ok q a s h = ground arith

  pub wrapped_exec_ok :
      (label : Error → Error) (q : Statement T A) (a : A) (s : Session T X)
      → (wrap_error label (tx_exec q) s).0 ≡ ok a
      → q s.working ≡ some (a, (wrap_error label (tx_exec q) s).1.working)
  wrapped_exec_ok label q a s h =
      let (done, same) = wrap_error_ok label (tx_exec q) a s h in
      tx_exec_ok q a s done ∙ ap (λ z. some (a, z.working)) (sym same)

  pub wrapped_exec-IsPending :
      (label : Error → Error) (q : Statement T A) → IsPending {X = X} (wrap_error label (tx_exec q))
  wrapped_exec-IsPending label q = wrap_error-IsPending label (tx_exec q) (tx_exec-IsPending q)
