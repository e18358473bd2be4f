-- ===== src/Inventory/Recalc/Table.antt =====
-- What a run of `Handle` makes of a row, and which rows it reads.
use Prim.Native.String.{count}
use mathlib.Core.Path.{subst}
use florist_core.Prelude.{
  ◌≡◌, refl, Bool, true, false, Bool-cases, inl, inr, Option, none, some, List, [], ◌∷◌, ◌==◌, ◌||◌,
  ◌≢◌, arith, All, All-imp, sym, ℕ, suc, ◌≤◌, if◌then◌else◌,
}
use florist_core.Kernel.Types.{BatchId, Time}
use florist_core.Prelude.Int.{pos, ◌+ℤ◌, ◌≤ℤ◌, eq_ℤ}
use florist_core.Inventory.Batch.{Batch, expire, mark_aging, mark_critical}
use florist_core.Inventory.Recalc.{recalc_one}
use florist_core.Inventory.Repository.{
  BatchRow, row_to_batch, upsert, new_row_of, updated_row, fits32, find_row, where_rows, is_active,
}

abbrev pub has_row : BatchId → List BatchRow → Bool
has_row id [] = false
has_row id (r ∷ rows) = r.id == id || has_row id rows

-- The primary key.
abbrev pub NodupIds : List BatchRow → Type 0
NodupIds [] = Unit
NodupIds (r ∷ rows) = (has_row r.id rows ≡ false) × NodupIds rows

-- What the columns and checks hold a row to, with room for `n` more saves before its version passes 32 bits.
abbrev pub IsStorable : ℕ → BatchRow → Type 0
IsStorable n r =
    (fits32 r.received_qty ≡ true)
    × (fits32 r.remaining_qty ≡ true)
    × (fits32 r.version ≡ true)
    × (fits32 (r.version +ℤ pos n) ≡ true)
    × (pos 1 ≤ℤ r.received_qty)
    × (pos 0 ≤ℤ r.remaining_qty)
    × (count r.currency ≤ 3)

-- The row after the batch that is read from it has been looked at and, if it has changed, saved.
unfoldable pub looked_at : Time → BatchRow → BatchRow
looked_at now r =
    let (b, updated) = recalc_one now (row_to_batch r) in if updated then updated_row b r else r

-- The row after a run.
abbrev pub refreshed : Time → BatchRow → BatchRow
refreshed now r = if is_active r then looked_at now r else r

abbrev pub map_row : (BatchRow → BatchRow) → Option BatchRow → Option BatchRow
map_row f none = none
map_row f (some r) = some (f r)

-- What a change of freshness leaves alone.
pub recalc_one_keeps :
    (now : Time) (r : BatchRow)
    → let b = (recalc_one now (row_to_batch r)).0 in
      (b.id ≡ r.id)
      × (b.version ≡ r.version)
      × (b.received_qty ≡ r.received_qty)
      × (b.remaining_qty ≡ r.remaining_qty)
      × (b.purchase_price.currency ≡ r.currency)
unfolding recalc_one expire mark_aging mark_critical row_to_batch
recalc_one_keeps now r = ground arith

pub find_row-id :
    (id : BatchId) (rows : List BatchRow) (r : BatchRow) → find_row id rows ≡ some r → r.id ≡ id
unfolding find_row
find_row-id id [] r h = cc
find_row-id id (x ∷ rows) r h = ground (arith, find_row-id id rows r)

pub find_row-has_row :
    (id : BatchId) (rows : List BatchRow) → has_row id rows ≡ false → find_row id rows ≡ none
unfolding find_row
find_row-has_row id [] h = refl
find_row-has_row id (x ∷ rows) h = ground (arith, find_row-has_row id rows)

-- The rows that a condition picks are those that are found and satisfy it.
has_row-where_rows :
    (test : BatchRow → Bool) (id : BatchId) (rows : List BatchRow)
    → has_row id rows ≡ false
    → has_row id (where_rows test rows) ≡ false
unfolding where_rows
has_row-where_rows test id [] h = refl
has_row-where_rows test id (r ∷ rows) h = ground (arith, has_row-where_rows test id rows)

pub where_rows-NodupIds :
    (test : BatchRow → Bool) (rows : List BatchRow)
    → NodupIds rows
    → NodupIds (where_rows test rows)
unfolding where_rows
where_rows-NodupIds test [] u = tt
where_rows-NodupIds test (r ∷ rows) (new, u) = elim (Bool-cases (test r)) [
  | inl e ↦ rw e (has_row-where_rows test r.id rows new, where_rows-NodupIds test rows u)
  | inr e ↦ rw e (where_rows-NodupIds test rows u)
]

pub where_rows-All :
    (test : BatchRow → Bool) (P : BatchRow → Type 0) (rows : List BatchRow)
    → All P rows
    → All P (where_rows test rows)
unfolding where_rows
where_rows-All test P [] h = tt
where_rows-All test P (r ∷ rows) (h, hs) = elim (Bool-cases (test r)) [
  | inl e ↦ rw e (h, where_rows-All test P rows hs)
  | inr e ↦ rw e (where_rows-All test P rows hs)
]

-- Where all that is active has been looked at, every row is refreshed.
pub where_rows-refreshed :
    (now : Time) (j : BatchId) (rows : List BatchRow)
    → NodupIds rows
    → (if has_row j (where_rows is_active rows)
        then map_row (looked_at now) (find_row j rows)
        else find_row j rows)
      ≡ map_row (refreshed now) (find_row j rows)
unfolding where_rows find_row
where_rows-refreshed now j [] u = refl
where_rows-refreshed now j (r ∷ rows) (new, u) =
    let ih = where_rows-refreshed now j rows u in
    let absent = has_row-where_rows is_active j rows in
    elim (Bool-cases (r.id == j)) [
      | inr e ↦ elim (Bool-cases (is_active r)) [ inl a ↦ rw (a, e) ih | inr a ↦ rw (a, e) ih ]
      | inl e ↦ elim (Bool-cases (is_active r)) [
        | inl a ↦ rw (a, e) (rw a refl)
        | inr a ↦ rw (a, e, absent (ground arith)) (rw a refl)
      ]
    ]

-- The primary key, and rows that the columns and checks allow.
abbrev pub IsKept : ℕ → List BatchRow → Type 0
IsKept n rows = NodupIds rows × All (IsStorable n) rows

upsert-absent :
    (b : Batch) (id : BatchId) (rows : List BatchRow)
    → has_row id rows ≡ false
    → id ≢ b.id
    → has_row id (upsert b rows).1 ≡ false
unfolding upsert new_row_of updated_row
upsert-absent b id [] h ne = ground arith
upsert-absent b id (r ∷ rows) h ne = ground (arith, upsert-absent b id rows)

none≢some : {A : Type 0} {a : A} → none ≡ some a → ⊥
none≢some h = cc

some_inj : {A : Type 0} {a b : A} → some a ≡ some b → a ≡ b
some_inj h = cc

upsert-NodupIds : (b : Batch) (rows : List BatchRow) → NodupIds rows → NodupIds (upsert b rows).1
unfolding upsert new_row_of updated_row
upsert-NodupIds b [] u = (refl, tt)
upsert-NodupIds b (r ∷ rows) (new, u) = elim (Bool-cases (r.id == b.id)) [
  | inl e ↦ elim (Bool-cases (eq_ℤ r.version b.version)) [
    | inl v ↦ rw (e, v) (new, u)
    | inr v ↦ rw (e, v) (new, u)
  ]
  | inr e ↦ rw e (upsert-absent b r.id rows new (ground arith), upsert-NodupIds b rows u)
]

room_left : (n : ℕ) (r : BatchRow) → IsStorable (suc n) r → IsStorable n r
unfolding ◌+ℤ◌
room_left n r h = ground arith

saved-IsStorable :
    (n : ℕ) (r : BatchRow) (b : Batch)
    → IsStorable (suc n) r
    → b.remaining_qty ≡ r.remaining_qty
    → IsStorable n (updated_row b r)
unfolding updated_row ◌+ℤ◌
saved-IsStorable n r b h e = ground arith

upsert-IsStorable :
    (n : ℕ) (b : Batch) (r : BatchRow) (rows : List BatchRow)
    → find_row b.id rows ≡ some r
    → IsStorable (suc n) r
    → b.remaining_qty ≡ r.remaining_qty
    → All (IsStorable n) rows
    → All (IsStorable n) (upsert b rows).1
unfolding upsert find_row
upsert-IsStorable n b r [] there f q h = absurd (none≢some there)
upsert-IsStorable n b r (x ∷ rows) there f q (h, hs) = elim (Bool-cases (x.id == b.id)) [
  | inl e ↦ elim (Bool-cases (eq_ℤ x.version b.version)) [
    | inl v ↦
        let same : x ≡ r = some_inj (rw e at there) in
        rw (e, v)
          (subst (λ y. IsStorable n (updated_row b y)) (sym same) (saved-IsStorable n r b f q), hs)
    | inr v ↦ rw (e, v) (h, hs)
  ]
  | inr e ↦ rw e (h, upsert-IsStorable n b r rows (rw e at there) f q hs)
]

pub IsKept-room : (n : ℕ) (rows : List BatchRow) → IsKept (suc n) rows → IsKept n rows
IsKept-room n rows (u, h) = (u, All-imp (IsStorable (suc n)) (IsStorable n) (room_left n) rows h)

pub upsert-IsKept :
    (n : ℕ) (b : Batch) (r : BatchRow) (rows : List BatchRow)
    → find_row b.id rows ≡ some r
    → IsStorable (suc n) r
    → b.remaining_qty ≡ r.remaining_qty
    → IsKept n rows
    → IsKept n (upsert b rows).1
upsert-IsKept n b r rows there f q (u, h) =
    (upsert-NodupIds b rows u, upsert-IsStorable n b r rows there f q h)
