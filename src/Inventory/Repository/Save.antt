-- ===== src/Inventory/Repository/Save.antt =====
-- `Save`: the optimistic lock, and what is read back.
use florist_core.Prelude.{
  ◌≡◌, ◌≢◌, refl, ◌∙◌, sym, ap, Bool, true, false, Bool-cases, Option, none, some, List, [], ◌∷◌,
  arith, ◌==◌, if◌then◌else◌, inl, inr, ◌&&◌,
}
use florist_core.Prelude.Int.{◌+ℤ◌, eq_ℤ}
use florist_core.Kernel.Errors.{Error, ok, err, driver, wrapped, inventory_optimistic_lock}
use florist_core.Kernel.Types.{BatchId}
use florist_core.Inventory.Batch.{Batch}
use florist_core.Inventory.Repository.{
  BatchRow, Tables, new_row_of, updated_row, upsert, is_storable, save_statement, save, find_row,
}
use florist_core.Inventory.Repository.Fields.{IsWithin, is_storable-IsWithin}
use florist_core.Db.{Session, pool_exec, next_reply}
use florist_core.Db.Atomic.{IsIdle}

-- What `Save` writes for a batch over the row that it finds.
abbrev pub written : Batch → Option BatchRow → BatchRow
written b none = new_row_of b
written b (some r) = updated_row b r

-- Whether it may write: there is no such row yet, or its version is the batch's.
abbrev pub may_write : Batch → Option BatchRow → Bool
may_write b none = true
may_write b (some r) = eq_ℤ r.version b.version

upsert_refused :
    (b : Batch) (rows : List BatchRow)
    → may_write b (find_row b.id rows) ≡ false
    → upsert b rows ≡ (0, rows)
unfolding upsert find_row
upsert_refused b [] h = cc
upsert_refused b (r ∷ rows) h = ground (arith, upsert_refused b rows)

pub upsert-written :
    (b : Batch) (rows : List BatchRow) (j : BatchId)
    → may_write b (find_row b.id rows) ≡ true
    → ((upsert b rows).0 ≡ 1)
      × (find_row j (upsert b rows).1
          ≡ (if j == b.id then some (written b (find_row b.id rows)) else find_row j rows))
unfolding upsert find_row new_row_of updated_row
upsert-written b [] j h = ground arith
upsert-written b (r ∷ rows) j h = ground (arith, upsert-written b rows j)

pub ok≢err : {A : Type 0} {a : A} {e : Error} → ok a ≡ err e → ⊥
ok≢err h = cc

pub find_row-upsert :
    (b : Batch) (j : BatchId) (rows : List BatchRow)
    → j ≡ b.id
    → may_write b (find_row b.id rows) ≡ true
    → find_row j (upsert b rows).1 ≡ some (written b (find_row b.id rows))
find_row-upsert b j rows e m = ground (arith, upsert-written b rows j)

-- A row that has been written over is newer than the batch it was read as.
stale :
    (b c : Batch) (old : Option BatchRow)
    → old ≢ none
    → may_write b old ≡ true
    → c.version ≡ b.version
    → may_write c (some (written b old)) ≡ false
unfolding updated_row ◌+ℤ◌
stale b c none ne m e = absurd (ne refl)
stale b c (some r) ne m e = rw e (ground arith)

statement_unfit : (b : Batch) (t : Tables) → is_storable b ≡ false → save_statement b t ≡ none
unfolding save_statement
statement_unfit b t h = rw h refl

statement_fit :
    (b : Batch) (t : Tables)
    → is_storable b ≡ true
    → save_statement b t
      ≡ some ((upsert b t.batches).0, record t { batches = (upsert b t.batches).1 })
unfolding save_statement
statement_fit b t h = rw h refl

module _ {X : Type 0} where
  -- The session after a statement that has left these tables.
  abbrev pub answered : Tables → Session Tables X → Session Tables X
  answered t s = record s { committed = t; working = t; replies = (next_reply s.replies).1 }

  save_lost :
      (b : Batch) (s : Session Tables X)
      → IsIdle s
      → (next_reply s.replies).0 ≡ false
      → save b s ≡ (err (wrapped "BatchRepository.Save" driver), answered s.committed s)
  unfolding save pool_exec
  save_lost b s idle e = rw e (simp idle refl)

  pub save_unfit :
      (b : Batch) (s : Session Tables X)
      → IsIdle s
      → (next_reply s.replies).0 ≡ true
      → is_storable b ≡ false
      → save b s ≡ (err (wrapped "BatchRepository.Save" driver), answered s.committed s)
  unfolding save pool_exec
  save_unfit b s idle e f = rw e (simp (idle, statement_unfit b s.committed f) refl)

  pub save_refused :
      (b : Batch) (s : Session Tables X)
      → IsIdle s
      → (next_reply s.replies).0 ≡ true
      → is_storable b ≡ true
      → may_write b (find_row b.id s.committed.batches) ≡ false
      → save b s
        ≡ (err (wrapped "BatchRepository.Save" inventory_optimistic_lock), answered s.committed s)
  unfolding save pool_exec
  save_refused b s idle e f m =
      rw e (simp (idle, statement_fit b s.committed f, upsert_refused b s.committed.batches m) refl)

  pub save_done :
      (b : Batch) (s : Session Tables X)
      → IsIdle s
      → (next_reply s.replies).0 ≡ true
      → is_storable b ≡ true
      → may_write b (find_row b.id s.committed.batches) ≡ true
      → save b s
        ≡ (ok tt, answered (record s.committed { batches = (upsert b s.committed.batches).1 }) s)
  unfolding save pool_exec
  save_done b s idle e f m = rw e (
      simp (idle, statement_fit b s.committed f, (upsert-written b s.committed.batches 0 m).0) refl)

  -- A `Save` with no transaction open that answers with an error has changed no table, whatever the
  -- error: a statement that was lost, a quantity that is no 32-bit number, or the optimistic lock.
  pub save_error_unchanged :
      (b : Batch) (s : Session Tables X) {e : Error}
      → IsIdle s
      → (save b s).0 ≡ err e
      → ((save b s).1.committed ≡ s.committed) × IsIdle (save b s).1
  save_error_unchanged b s idle h = elim (Bool-cases (next_reply s.replies).0) [
    | inr lost ↦ rw (save_lost b s idle lost) (refl, refl)
    | inl c ↦ elim (Bool-cases (is_storable b)) [
      | inr unfit ↦ rw (save_unfit b s idle c unfit) (refl, refl)
      | inl fit ↦ elim (Bool-cases (may_write b (find_row b.id s.committed.batches))) [
        | inr refused ↦ rw (save_refused b s idle c fit refused) (refl, refl)
        | inl allowed ↦ absurd (ok≢err (rw (save_done b s idle c fit allowed) at h))
      ]
    ]
  ]

  -- On a working database with no transaction open, a storable batch is saved exactly where its row
  -- is missing or has the batch's version, and every other one is refused by the optimistic lock.
  -- After a save the row of the batch is the one written; every other row, and after a refusal
  -- every row, is as it was.
  pub save_answers :
      (b : Batch) (j : BatchId) (s : Session Tables X)
      → IsIdle s
      → s.replies ≡ []
      → is_storable b ≡ true
      → let old = find_row b.id s.committed.batches in
        ((save b s).0 ≡ (
          if may_write b old
          then ok tt
          else err (wrapped "BatchRepository.Save" inventory_optimistic_lock)))
        × (find_row j (save b s).1.committed.batches ≡ (
            if may_write b old && (j == b.id)
            then some (written b old)
            else find_row j s.committed.batches))
  save_answers b j s idle r f =
      let rows = s.committed.batches in
      let c : (next_reply s.replies).0 ≡ true = simp r refl in
      elim (Bool-cases (may_write b (find_row b.id rows))) [
        | inr m ↦ rw (save_refused b s idle c f m, m) (refl, refl)
        | inl m ↦ rw (save_done b s idle c f m, m) (refl, (upsert-written b rows j m).1)
      ]

  -- Of two clients that hold one version of a batch that is in the table, the one that saves second
  -- is refused by the optimistic lock: on a working database with no transaction open, where the
  -- first save succeeds and the second copy is within the bounds of its columns.
  pub second_save_refused :
      (b c : Batch) (s : Session Tables X)
      → IsIdle s
      → s.replies ≡ []
      → IsWithin c
      → c.id ≡ b.id
      → c.version ≡ b.version
      → find_row b.id s.committed.batches ≢ none
      → (save b s).0 ≡ ok tt
      → (save c (save b s).1).0 ≡ err (wrapped "BatchRepository.Save" inventory_optimistic_lock)
  second_save_refused b c s idle r fits same version there done =
      let rows = s.committed.batches in
      let carried : (next_reply s.replies).0 ≡ true = simp r refl in
      elim (Bool-cases (is_storable b)) [
        | inr unfit ↦ absurd (ok≢err (sym done ∙ ap (λ x. x.0) (save_unfit b s idle carried unfit)))
        | inl fb ↦ elim (Bool-cases (may_write b (find_row b.id rows))) [
          | inr m ↦ absurd (ok≢err (sym done ∙ ap (λ x. x.0) (save_refused b s idle carried fb m)))
          | inl m ↦ rw (save_done b s idle carried fb m) (
              ap (λ x. x.0)
                (save_refused c (answered (record s.committed { batches = (upsert b rows).1 }) s)
                  refl (simp r refl) (is_storable-IsWithin c fits)
                  (ap (may_write c) (find_row-upsert b c.id rows same m)
                    ∙ stale b c (find_row b.id rows) there m version)))
        ]
      ]
