-- ===== src/Inventory/Recalc/Run.antt =====
-- What a whole run of `Handle` makes of the table.
use florist_core.Prelude.{
  ◌≡◌, refl, ◌∙◌, ap, true, false, Bool-cases, inl, inr, Option, some, List, [], ◌∷◌, map, ◌==◌,
  arith, All, ℕ, suc, if◌then◌else◌,
}
use florist_core.Prelude.Int.{◌+ℤ◌}
use florist_core.Kernel.Errors.{Result, ok}
use florist_core.Kernel.Types.{BatchId, Time}
use florist_core.Inventory.Batch.{Batch}
use florist_core.Inventory.Recalc.{recalc_one, save_updated, recalc_all, handle}
use florist_core.Inventory.Recalc.Table.{
  has_row, NodupIds, IsStorable, looked_at, refreshed, map_row, recalc_one_keeps,
  where_rows-NodupIds, where_rows-All, where_rows-refreshed, IsKept, IsKept-room, upsert-IsKept,
}
use florist_core.Inventory.Repository.{
  BatchRow, Tables, row_to_batch, is_storable, upsert, find_row, where_rows, is_active, find_active,
}
use florist_core.Inventory.Repository.Save.{may_write, upsert-written, save_done}
use florist_core.Db.{Session, Action, continue, pool_exec}
use florist_core.Db.Atomic.{IsIdle}

-- What the columns and checks allow can be saved.
allowed : (n : ℕ) (r : BatchRow) → IsStorable (suc n) r → is_storable (row_to_batch r) ≡ true
unfolding ◌+ℤ◌ row_to_batch
allowed n r h = ground arith

module _ (now : Time) where
  lock_held :
      (r : BatchRow) (rows : List BatchRow) (b : Batch)
      → b.id ≡ r.id
      → b.version ≡ r.version
      → find_row r.id rows ≡ some r
      → (find_row b.id rows ≡ some r) × (may_write b (find_row b.id rows) ≡ true)
  lock_held r rows b i v h = rw i (rw h (refl, rw v (ground arith)))

  storable :
      (n : ℕ) (r : BatchRow)
      → IsStorable (suc n) r
      → is_storable (recalc_one now (row_to_batch r)).0 ≡ true
  unfolding row_to_batch
  storable n r h =
      let (_, v, got, left, c) = recalc_one_keeps now r in rw (v, got, left, c) (allowed n r h)

  row_saved :
      (r : BatchRow) (rows : List BatchRow) (j : BatchId)
      → (recalc_one now (row_to_batch r)).1 ≡ true
      → find_row r.id rows ≡ some r
      → let b = (recalc_one now (row_to_batch r)).0 in
        find_row j (upsert b rows).1
        ≡ (if j == r.id then some (looked_at now r) else find_row j rows)
  unfolding looked_at
  row_saved r rows j u h =
      let b = (recalc_one now (row_to_batch r)).0 in
      let (i, v, _, _, _) = recalc_one_keeps now r in
      let (there, free) = lock_held r rows b i v h in
      (upsert-written b rows j free).1 ∙ rw (there, i, u) refl

  row_left :
      (r : BatchRow) (rows : List BatchRow) (j : BatchId)
      → (recalc_one now (row_to_batch r)).1 ≡ false
      → find_row r.id rows ≡ some r
      → find_row j rows ≡ (if j == r.id then some (looked_at now r) else find_row j rows)
  unfolding looked_at
  row_left r rows j u h = rw u (ground arith)

-- The rows are in the table as they were read.
abbrev AreRead : List BatchRow → List BatchRow → Type 0
AreRead rows table = All (λ r. find_row r.id table ≡ some r) rows

AreRead-rest :
    (now : Time) (r : BatchRow) (rest before after : List BatchRow)
    → has_row r.id rest ≡ false
    → ((j : BatchId)
        → find_row j after ≡ (if j == r.id then some (looked_at now r) else find_row j before))
    → AreRead rest before
    → AreRead rest after
AreRead-rest now r [] before after new same _ = tt
AreRead-rest now r (x ∷ rest) before after new same (h, hs) =
    (ground (arith, same x.id), AreRead-rest now r rest before after (ground arith) same hs)

-- Two steps of the loop on the row of `j`.
joined :
    (now : Time) (j : BatchId) (r : BatchRow) (rest : List BatchRow) (f0 f1 f2 : Option BatchRow)
    → has_row r.id rest ≡ false
    → (j ≡ r.id → f0 ≡ some r)
    → f1 ≡ (if j == r.id then some (looked_at now r) else f0)
    → f2 ≡ (if has_row j rest then map_row (looked_at now) f1 else f1)
    → f2 ≡ (if has_row j (r ∷ rest) then map_row (looked_at now) f0 else f0)
joined now j r rest f0 f1 f2 new there e1 e2 = ground arith

AreRead-cons :
    (r : BatchRow) (rows table : List BatchRow)
    → has_row r.id rows ≡ false
    → AreRead rows table
    → AreRead rows (r ∷ table)
unfolding find_row
AreRead-cons r [] table new _ = tt
AreRead-cons r (x ∷ rows) table new (h, hs) =
    (ground arith, AreRead-cons r rows table (ground arith) hs)

AreRead-self : (rows : List BatchRow) → NodupIds rows → AreRead rows rows
unfolding find_row
AreRead-self [] u = tt
AreRead-self (r ∷ rows) (new, u) =
    (ground arith, AreRead-cons r rows rows new (AreRead-self rows u))

-- A working database with no transaction open, whose table has its primary key and rows that the columns and
-- checks allow, their versions with room for `n` more saves.
abbrev pub IsReady : {X : Type 0} → ℕ → Session Tables X → Type 0
IsReady n s = IsIdle s × (s.replies ≡ []) × IsKept n s.committed.batches

pub IsReady-room : {X : Type 0} (n : ℕ) (s : Session Tables X) → IsReady (suc n) s → IsReady n s
IsReady-room n s (idle, quiet, kept) = (idle, quiet, IsKept-room n s.committed.batches kept)

module _ {X : Type 0} (now : Time) (n : ℕ) where
  -- What a step of the loop comes to at the row `r`.
  abbrev IsStep : BatchRow → Session Tables X → Result (Unit {0}) × Session Tables X → Type 0
  IsStep r s (answer, s') =
      (answer ≡ ok tt)
      × IsReady n s'
      × ((j : BatchId)
          → find_row j s'.committed.batches
            ≡ (if j == r.id then some (looked_at now r) else find_row j s.committed.batches))
      × (s'.committed.outbox ≡ s.committed.outbox)

  step :
      (r : BatchRow) (s : Session Tables X)
      → IsReady n s
      → IsStorable (suc n) r
      → find_row r.id s.committed.batches ≡ some r
      → IsStep r s (save_updated (recalc_one now (row_to_batch r)) s)
  step r s (idle, quiet, kept) fit there = elim (Bool-cases (recalc_one now (row_to_batch r)).1) [
    | inr u ↦
        rw u (refl, (idle, quiet, kept), λ j. row_left now r s.committed.batches j u there, refl)
    | inl u ↦
        let b = (recalc_one now (row_to_batch r)).0 in
        let (i, v, _, q, _) = recalc_one_keeps now r in
        let (held, free) = lock_held now r s.committed.batches b i v there in
        rw (u, save_done b s idle (simp quiet refl) (storable now n r fit) free)
          (
            refl,
            (refl, simp quiet refl, upsert-IsKept n b r s.committed.batches held fit q kept),
            λ j. row_saved now r s.committed.batches j u there,
            refl,
          )
  ]

  after_step :
      (p : Result (Unit {0}) × Session Tables X) (k : Action Tables X (Unit {0}))
      → p.0 ≡ ok tt
      → continue p (λ _. k) ≡ k p.1
  after_step p k h = rw h refl

  recalc_cons :
      (r : BatchRow) (rest : List BatchRow) (s : Session Tables X)
      → (save_updated (recalc_one now (row_to_batch r)) s).0 ≡ ok tt
      → recalc_all now (map row_to_batch (r ∷ rest)) s
        ≡ recalc_all now
            (map row_to_batch rest)
            (save_updated (recalc_one now (row_to_batch r)) s).1
  unfolding recalc_all
  recalc_cons r rest s h =
      after_step (save_updated (recalc_one now (row_to_batch r)) s)
        (recalc_all now (map row_to_batch rest)) h

  loop :
      (rest : List BatchRow) (s : Session Tables X)
      → IsReady n s
      → NodupIds rest
      → All (IsStorable (suc n)) rest
      → AreRead rest s.committed.batches
      → let (answer, s') = recalc_all now (map row_to_batch rest) s in
        (answer ≡ ok tt)
        × ((j : BatchId)
            → find_row j s'.committed.batches ≡ (
                if has_row j rest
                then map_row (looked_at now) (find_row j s.committed.batches)
                else find_row j s.committed.batches))
        × (s'.committed.outbox ≡ s.committed.outbox)
        × IsReady n s'
  loop [] s ready u fit read = unfold recalc_all in (refl, λ j. refl, refl, ready)
  loop (r ∷ rest) s ready (new, u) (f, fit) (there, read) =
      let p = save_updated (recalc_one now (row_to_batch r)) s in
      let (done, ready', one, kept) = step r s ready f there in
      let read' = AreRead-rest now r rest s.committed.batches p.1.committed.batches new one read in
      let (all_done, others, still, end) = loop rest p.1 ready' u fit read' in
      rw (recalc_cons r rest s done) (
        all_done,
        λ j.
            joined now j r rest _ _ _ new (λ e. ap (λ z. find_row z s.committed.batches) e ∙ there)
              (one j) (others j),
        still ∙ kept,
        end,
      )

  pub handle_refreshes :
      (s : Session Tables X)
      → IsReady (suc n) s
      → let (answer, s') = handle now s in
        (answer ≡ ok tt)
        × ((j : BatchId)
            → find_row j s'.committed.batches
              ≡ map_row (refreshed now) (find_row j s.committed.batches))
        × (s'.committed.outbox ≡ s.committed.outbox)
        × IsReady n s'
  unfolding handle find_active pool_exec
  handle_refreshes s (idle, quiet, (u, fit)) =
      let rows = s.committed.batches in
      let active = where_rows is_active rows in
      let read : Session Tables X = record s { replies = [] } in
      let (done, each, still, ready) =
        loop active read (idle, refl, IsKept-room n rows (u, fit))
          (where_rows-NodupIds is_active rows u)
          (where_rows-All is_active (IsStorable (suc n)) rows fit)
          (where_rows-All is_active (λ r. find_row r.id rows ≡ some r) rows
            (AreRead-self rows u)) in
      rw quiet (done, (λ j. each j ∙ where_rows-refreshed now j rows u), still, ready)
