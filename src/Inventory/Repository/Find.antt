-- ===== src/Inventory/Repository/Find.antt =====
-- The queries: what is read back after a save, and the order in which batches are offered.
use florist_core.Prelude.{
  ◌≡◌, ◌≢◌, refl, ◌∙◌, sym, ap, true, false, Bool-cases, some, List, [], ◌∷◌, arith, inl, inr, All,
  All-imp, map, ◌++◌,
}
use mathlib.Core.List.{Perm, perm_middle}
use mathlib.Core.List.Perm
use florist_core.Prelude.Int.{pos, ◌≤ℤ◌, leb_ℤ}
use florist_core.Kernel.Errors.{ok}
use florist_core.Kernel.Types.{BatchId, StoreId, IngredientId}
use florist_core.Inventory.Batch.{Batch, expired}
use florist_core.Inventory.Repository.{
  BatchRow, Tables, row_to_batch, save, find_row, find_by_id, where_rows, insert_by_expiry,
  sort_by_expiry, is_available, upsert, is_storable, find_available_by_ingredient,
}
use florist_core.Inventory.Repository.Save.{
  written, may_write, ok≢err, save_unfit, save_refused, save_done, answered, find_row-upsert,
}
use florist_core.Inventory.Repository.Fields.{to_micros-IsCutDown}
use florist_core.Inventory.Repository.ReadBack.{SameBirth, IsReadBack, as_stored, batch_back}
use florist_core.Db.{Session, next_reply, pool_exec}
use florist_core.Db.Atomic.{IsIdle}

-- The rows stand in the order of their expiry.
abbrev pub IsByExpiry : List BatchRow → Type 0
IsByExpiry [] = Unit
IsByExpiry (r ∷ rows) = All (λ x. r.expires_at ≤ℤ x.expires_at) rows × IsByExpiry rows

insert_by_expiry-All :
    (P : BatchRow → Type 0) (r : BatchRow) (rows : List BatchRow)
    → P r
    → All P rows
    → All P (insert_by_expiry r rows)
unfolding insert_by_expiry
insert_by_expiry-All P r [] p h = (p, tt)
insert_by_expiry-All P r (x ∷ rows) p h = ground (arith, insert_by_expiry-All P r rows p h.1)

sort_by_expiry-All :
    (P : BatchRow → Type 0) (rows : List BatchRow) → All P rows → All P (sort_by_expiry rows)
unfolding sort_by_expiry
sort_by_expiry-All P [] h = tt
sort_by_expiry-All P (r ∷ rows) h =
    insert_by_expiry-All P r (sort_by_expiry rows) h.0 (sort_by_expiry-All P rows h.1)

earlier :
    (r x y : BatchRow)
    → leb_ℤ r.expires_at x.expires_at ≡ true
    → x.expires_at ≤ℤ y.expires_at
    → r.expires_at ≤ℤ y.expires_at
earlier r x y e k = ground arith

insert_by_expiry-IsByExpiry :
    (r : BatchRow) (rows : List BatchRow) → IsByExpiry rows → IsByExpiry (insert_by_expiry r rows)
unfolding insert_by_expiry
insert_by_expiry-IsByExpiry r [] h = (tt, tt)
insert_by_expiry-IsByExpiry r (x ∷ rows) h = elim (Bool-cases (leb_ℤ r.expires_at x.expires_at)) [
  | inl e ↦ rw e (
    (
      ground arith,
      All-imp (λ y. x.expires_at ≤ℤ y.expires_at) (λ y. r.expires_at ≤ℤ y.expires_at)
          (λ y k. earlier r x y e k) rows h.0,
    ),
    h,
  )
  | inr e ↦ rw e (
    insert_by_expiry-All (λ y. x.expires_at ≤ℤ y.expires_at) r rows (ground arith) h.0,
    insert_by_expiry-IsByExpiry r rows h.1,
  )
]

pub sort_by_expiry-IsByExpiry : (rows : List BatchRow) → IsByExpiry (sort_by_expiry rows)
unfolding sort_by_expiry
sort_by_expiry-IsByExpiry [] = tt
sort_by_expiry-IsByExpiry (r ∷ rows) =
    insert_by_expiry-IsByExpiry r (sort_by_expiry rows) (sort_by_expiry-IsByExpiry rows)

insert_by_expiry-perm :
    (r : BatchRow) (rows : List BatchRow) → Perm (insert_by_expiry r rows) (r ∷ rows)
unfolding insert_by_expiry
insert_by_expiry-perm r [] = Perm.refl (r ∷ [])
insert_by_expiry-perm r (x ∷ rows) = elim (Bool-cases (leb_ℤ r.expires_at x.expires_at)) [
  | inl e ↦ rw e (Perm.refl (r ∷ x ∷ rows))
  | inr e ↦ rw e (Perm.trans (Perm.cons x (insert_by_expiry-perm r rows)) (Perm.swap r x rows))
]

pub sort_by_expiry-perm : (rows : List BatchRow) → Perm (sort_by_expiry rows) rows
unfolding sort_by_expiry
sort_by_expiry-perm [] = Perm.refl []
sort_by_expiry-perm (r ∷ rows) =
    Perm.trans (insert_by_expiry-perm r (sort_by_expiry rows))
      (Perm.cons r (sort_by_expiry-perm rows))

-- What a batch on offer has to be.
abbrev pub IsOnOffer : StoreId → IngredientId → BatchRow → Type 0
IsOnOffer store_id ingredient_id r =
    (r.store_id ≡ store_id)
    × (r.ingredient_id ≡ ingredient_id)
    × (r.written_off ≡ false)
    × (r.freshness ≢ expired)
    × (pos 1 ≤ℤ r.remaining_qty)

-- What the filter takes, and what it leaves.
offered_split :
    (s : StoreId) (i : IngredientId) (rows : List BatchRow)
    → (others : List BatchRow) × Perm (where_rows (is_available s i) rows ++ others) rows
      × All (IsOnOffer s i) (where_rows (is_available s i) rows)
      × All (λ r. ¬ IsOnOffer s i r) others
unfolding where_rows
offered_split s i [] = ([], Perm.refl [], tt, tt)
offered_split s i (r ∷ rows) =
    let (others, split, taken, left) = offered_split s i rows in
    elim (Bool-cases (is_available s i r)) [
      | inl e ↦ rw e (others, Perm.cons r split, (ground arith, taken), left)
      | inr e ↦ rw e (
        r ∷ others,
        Perm.trans (perm_middle (where_rows (is_available s i) rows) others) (Perm.cons r split),
        taken,
        ((λ k. ground arith), left),
      )
    ]

module _ {X : Type 0} where
  find_carried :
      (id : BatchId) (s : Session Tables X) (row : BatchRow)
      → (next_reply s.replies).0 ≡ true
      → find_row id s.committed.batches ≡ some row
      → (find_by_id id s).0 ≡ ok (row_to_batch row)
  unfolding find_by_id pool_exec
  find_carried id s row c h = rw c (rw h refl)

  read_back :
      (b : Batch) (s : Session Tables X)
      → IsIdle s
      → s.replies ≡ []
      → SameBirth b (find_row b.id s.committed.batches)
      → (save b s).0 ≡ ok tt
      → (find_by_id b.id (save b s).1).0 ≡ ok (as_stored b)
  read_back b s idle r same done =
      let rows = s.committed.batches in
      let carried : (next_reply s.replies).0 ≡ true = simp r refl in
      elim (Bool-cases (is_storable b)) [
        | inr unfit ↦ absurd (ok≢err (sym done ∙ ap (λ x. x.0) (save_unfit b s idle carried unfit)))
        | inl f ↦ elim (Bool-cases (may_write b (find_row b.id rows))) [
          | inr m ↦ absurd (ok≢err (sym done ∙ ap (λ x. x.0) (save_refused b s idle carried f m)))
          | inl m ↦ rw (save_done b s idle carried f m) (
              find_carried b.id (answered (record s.committed { batches = (upsert b rows).1 }) s)
                (written b (find_row b.id rows)) (simp r refl) (find_row-upsert b b.id rows refl m)
              ∙ ap ok (batch_back b (find_row b.id rows) same m f))
        ]
      ]

  -- After a successful save with no transaction open, reading the batch on a working database gives
  -- it back as it was saved, one version on, without events and with its times cut down to whole
  -- microseconds, provided that what an update does not write is as in the row it was read from.
  pub find-save :
      (b : Batch) (s : Session Tables X)
      → IsIdle s
      → s.replies ≡ []
      → SameBirth b (find_row b.id s.committed.batches)
      → (save b s).0 ≡ ok tt
      → (got : Batch) × ((find_by_id b.id (save b s).1).0 ≡ ok got) × IsReadBack b got
  find-save b s idle r same done = (
    as_stored b,
    read_back b s idle r same done,
    (refl, to_micros-IsCutDown b.received_at, to_micros-IsCutDown b.expires_at),
  )

  -- On a working database the batches offered for an ingredient are rows of the store and the
  -- ingredient that are not written off, not expired and not empty, the first to expire comes first,
  -- and every row of the table is among them, as often as it is in the table, or is none such.
  pub find_available_fefo :
      (store_id : StoreId) (ingredient_id : IngredientId) (s : Session Tables X)
      → s.replies ≡ []
      → (rows : List BatchRow) × (others : List BatchRow) × ((find_available_by_ingredient store_id
            ingredient_id s).0
          ≡ ok (map row_to_batch rows))
        × IsByExpiry rows
        × All (IsOnOffer store_id ingredient_id) rows
        × Perm (rows ++ others) s.committed.batches
        × All (λ r. ¬ IsOnOffer store_id ingredient_id r) others
  unfolding find_available_by_ingredient pool_exec
  find_available_fefo store_id ingredient_id s r =
      let rows = where_rows (is_available store_id ingredient_id) s.committed.batches in
      let (others, split, taken, left) = offered_split store_id ingredient_id s.committed.batches in
      (
        sort_by_expiry rows,
        others,
        simp r refl,
        sort_by_expiry-IsByExpiry rows,
        sort_by_expiry-All (IsOnOffer store_id ingredient_id) rows taken,
        Perm.trans (Perm.append_right others (sort_by_expiry-perm rows)) split,
        left,
      )
