-- ===== src/Db.antt =====
-- A session of the database as the code sees it through pgx, and `TxRunner.RunTx` of
-- internal/shared/infrastructure/postgres/tx_runner.go. `committed` is what other sessions see,
-- `working` what the open transaction sees, and the two agree while none is open. A statement on the
-- pool inside a transaction is committed at once, and the transaction sees it too. `replies` says of
-- each coming statement, `Begin` and `Commit` included, whether the server carries it out; a `Commit`
-- that fails has committed nothing. `outside` is the state of what stands beside the database.
pub mod Atomic
use florist_core.Prelude.{
  Bool, true, false, String, Option, none, some, List, [], ◌∷◌, if◌then◌else◌,
}
use florist_core.Kernel.Errors.{Error, Result, ok, err, driver}

pub record Session (T X : Type 0) : Type 0 where
  pub committed : T
  pub working : T
  pub outside : X
  pub replies : List Bool

abbrev pub next_reply : List Bool → Bool × List Bool
next_reply [] = (true, [])
next_reply (r ∷ rs) = (r, rs)

-- A call that may fail. The session comes back after an error too.
abbrev pub Action : Type 0 → Type 0 → Type 0 → Type 0
Action T X A = Session T X → Result A × Session T X

abbrev pub pure : {T X A : Type 0} → A → Action T X A
pure a s = (ok a, s)

abbrev pub raise : {T X A : Type 0} → Error → Action T X A
raise e s = (err e, s)

abbrev pub continue :
    {T X A B : Type 0} → Result A × Session T X → (A → Action T X B) → Result B × Session T X
continue (ok a, s) f = f a s
continue (err e, s) f = (err e, s)

infixl 5 ◌>>=◌ ◌>>◌
abbrev pub ◌>>=◌ : {T X A B : Type 0} → Action T X A → (A → Action T X B) → Action T X B
◌>>=◌ m f s = continue (m s) f

abbrev pub ◌>>◌ : {T X B : Type 0} → Action T X (Unit {0}) → Action T X B → Action T X B
m >> k = m >>= λ _. k

-- A call that touches no database.
abbrev pub lift : {T X A : Type 0} → Result A → Action T X A
lift (ok a) = pure a
lift (err e) = raise e

-- `if err != nil { return err }` after a method of an aggregate.
abbrev pub check : {T X : Type 0} → Option Error → Action T X (Unit {0})
check none = pure tt
check (some e) = raise e

abbrev pub relabel :
    {T X A : Type 0} → (Error → Error) → Result A × Session T X → Result A × Session T X
relabel f (ok a, s) = (ok a, s)
relabel f (err e, s) = (err (f e), s)

-- `fmt.Errorf("…: %w", err)` around the error of a call.
abbrev pub wrap_error : {T X A : Type 0} → (Error → Error) → Action T X A → Action T X A
wrap_error f m s = relabel f (m s)

-- What a statement answers and makes of the tables; `none` if it is refused.
abbrev pub Statement : Type 0 → Type 0 → Type 0
Statement T A = T → Option (A × T)

abbrev pub tables_after : {T A : Type 0} → Option (A × T) → T → T
tables_after none t = t
tables_after (some (_, t')) t = t'

abbrev pub after_statement : {T A : Type 0} → Statement T A → T → T
after_statement q t = tables_after (q t) t

abbrev pub answer : {T A : Type 0} → Option (A × T) → Result A
answer none = err driver
answer (some (a, _)) = ok a

-- A statement on the pool.
unfoldable pub pool_exec : {T X A : Type 0} → Statement T A → Action T X A
pool_exec q s =
    let (carried, replies) = next_reply s.replies in
    if carried
    then (
      answer (q s.committed),
      record s {
        committed = after_statement q s.committed;
        working = after_statement q s.working;
        replies = replies;
      },
    )
    else (err driver, record s { replies = replies })

-- A statement on the open transaction.
unfoldable pub tx_exec : {T X A : Type 0} → Statement T A → Action T X A
tx_exec q s =
    let (carried, replies) = next_reply s.replies in
    if carried
    then (
      answer (q s.working),
      record s { working = after_statement q s.working; replies = replies },
    )
    else (err driver, record s { replies = replies })

unfoldable pub begin : {T X : Type 0} → Action T X (Unit {0})
begin s =
    let (carried, replies) = next_reply s.replies in
    if carried
    then (ok tt, record s { working = s.committed; replies = replies })
    else (err driver, record s { replies = replies })

unfoldable pub rollback : {T X : Type 0} → Session T X → Session T X
rollback s = record s { working = s.committed }

unfoldable pub commit : {T X A : Type 0} → A → Action T X A
commit a s =
    let (carried, replies) = next_reply s.replies in
    if carried
    then (ok a, record s { committed = s.working; replies = replies })
    else (err driver, record s { working = s.committed; replies = replies })

-- The deferred call and the return of `RunTx`; what `fn` leaves in captured variables is its answer.
unfoldable pub close_tx : {T X A : Type 0} → Result A × Session T X → Result A × Session T X
unfolding commit rollback
close_tx (ok a, s) = commit a s
close_tx (err e, s) = (err e, rollback s)

unfoldable pub run_tx : {T X A : Type 0} → Action T X A → Action T X A
unfolding begin close_tx
run_tx fn = begin >>= λ _ s. close_tx (fn s)

-- `tx, err := pool.Begin(ctx)` with the text put before its error, `defer tx.Rollback(ctx)`, the body, and
-- `return tx.Commit(ctx)`: the rollback does nothing after a commit.
unfoldable pub with_tx : {T X A : Type 0} → (Error → Error) → Action T X A → Action T X A
unfolding begin close_tx
with_tx label fn = wrap_error label begin >>= λ _ s. close_tx (fn s)

-- The same where the error of the commit gets a text too.
unfoldable pub close_labelled :
    {T X A : Type 0} → (Error → Error) → Result A × Session T X → Result A × Session T X
unfolding commit rollback
close_labelled last (ok a, s) = wrap_error last (commit a) s
close_labelled last (err e, s) = (err e, rollback s)

unfoldable pub with_labelled_tx :
    {T X A : Type 0} → (Error → Error) → (Error → Error) → Action T X A → Action T X A
unfolding begin close_labelled
with_labelled_tx label last fn = wrap_error label begin >>= λ _ s. close_labelled last (fn s)
