-- ===== src/Outbox/Direct/Prefix.antt =====
-- What a publication on the pool leaves.
use Prim.Native.String.{◌++◌ as ◌<>◌}
use florist_core.Prelude.{
  ◌≡◌, ◌≢◌, refl, ap, ◌⊎◌, inl, inr, String, List, [], ◌∷◌, ◌++◌, Bool-cases,
}
use florist_core.Kernel.Errors.{Error, Result, ok, err, wrapped, driver}
use florist_core.Kernel.Errors.Cases.{Result-cases}
use florist_core.Outbox.Direct.{EventRow, EventMethods, row_of, publish, publish_tx}
use florist_core.Db.{Session, pool_exec, next_reply}

abbrev pub put_all : {T : Type 0} → (EventRow → T → T) → List EventRow → T → T
put_all put [] t = t
put_all put (row ∷ rows) t = put_all put rows (put row t)

-- The rows are those of the events, one for each, in their order.
abbrev pub IsRowsOf : {E : Type 0} → EventMethods E → List E → List EventRow → Type 0
IsRowsOf ev [] [] = Unit
IsRowsOf ev [] (row ∷ rows) = ⊥
IsRowsOf ev (e ∷ events) [] = ⊥
IsRowsOf ev (e ∷ events) (row ∷ rows) =
    ((payload : String) × (ev.marshal e ≡ ok payload) × (row ≡ row_of ev e payload))
    × IsRowsOf ev events rows

lost : {E : Type 0} → EventMethods E → E → Error
lost ev e = wrapped ("outbox: insert event " <> ev.event_name e) driver

module _ {E T X : Type 0} (ev : EventMethods E) (put : EventRow → T → T) where
  -- What a publication may come to.
  abbrev pub IsPublished : List E → T → Result (Unit {0}) × Session T X → Type 0
  IsPublished events before (r, s') =
      (done : List E) × (rows : List EventRow) × (left : List E) × (events ≡ done ++ left)
      × IsRowsOf ev done rows
      × (s'.committed ≡ put_all put rows before)
      × (((r ≡ ok tt) × (left ≡ [])) ⊎ ((x : Error) × (r ≡ err x) × (left ≢ [])))

  refused_at :
      (e : E) (events : List E) (s : Session T X) (p : Result (Unit {0}) × Session T X) (x : Error)
      → p.0 ≡ err x
      → p.1.committed ≡ s.committed
      → IsPublished (e ∷ events) s.committed p
  refused_at e events s p x r c = ([], [], e ∷ events, refl, tt, c, inr (x, r, λ h. cc))

  IsPublished-cons :
      (e : E) (events : List E) (payload : String) (before : T)
      (p : Result (Unit {0}) × Session T X)
      → ev.marshal e ≡ ok payload
      → IsPublished events (put (row_of ev e payload) before) p
      → IsPublished (e ∷ events) before p
  IsPublished-cons e events payload before p m (done, rows, left, split, each, c, end) = (
    e ∷ done,
    row_of ev e payload ∷ rows,
    left,
    ap (λ l. e ∷ l) split,
    ((payload, m, refl), each),
    c,
    end,
  )

  -- The session after one row more.
  after_row : E → String → Session T X → Session T X
  after_row e payload s = record s {
    committed = put (row_of ev e payload) s.committed;
    working = put (row_of ev e payload) s.working;
    replies = (next_reply s.replies).1;
  }

  -- `Publish` writes every event with a statement of its own, outside of any transaction: what is
  -- committed in the end is one row more for each event of a first part of the list, in their order.
  -- That part is the whole list exactly where the answer is no error.
  pub publish_prefix :
      (events : List E) (s : Session T X) → IsPublished events s.committed (publish ev put events s)
  unfolding publish publish_tx pool_exec after_row lost
  publish_prefix [] s = ([], [], [], refl, tt, refl, inl (refl, refl))
  publish_prefix (e ∷ events) s = elim (Result-cases (ev.marshal e)) [
    | inr (x, m) ↦
        rw (m, publish, publish_tx)
          (refused_at e events s (err (wrapped ("outbox: marshal event " <> ev.event_name e) x), s)
            (wrapped ("outbox: marshal event " <> ev.event_name e) x) refl refl)
    | inl (payload, m) ↦ elim (Bool-cases (next_reply s.replies).0) [
      | inl c ↦
          rw (m, publish, publish_tx, c)
            (IsPublished-cons e events payload s.committed
              (publish ev put events (after_row e payload s)) m
              (publish_prefix events (after_row e payload s)))
      | inr c ↦
          rw (m, publish, publish_tx, c)
            (refused_at e events s
              (err (lost ev e), record s { replies = (next_reply s.replies).1 }) (lost ev e) refl
              refl)
    ]
  ]
