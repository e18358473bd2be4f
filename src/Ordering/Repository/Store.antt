-- ===== src/Ordering/Repository/Store.antt =====
-- The two tables as one store of batches, and what each statement of the repository does to it.
use florist_core.Prelude.{
  append_assoc, append_nil, ℕ, ◌≡◌, ◌≢◌, refl, sym, ◌∙◌, ap, Bool, true, false, Bool-cases, inl,
  inr, Option, none, some, List, [], ◌∷◌, ◌++◌, append, ◌==◌, if◌then◌else◌, arith,
}
use florist_core.Prelude.Map.{Map, lookup, insert, NodupKeys}
use florist_core.Prelude.Int.{ℤ, pos, ◌+ℤ◌, eq_ℤ}
use florist_core.Kernel.Types.{BatchId, Time}
use florist_core.Ordering.Allocation.{Batch}
use florist_core.Ordering.BatchTables.{
  BatchRow, BatchAllocationRow, Tables, update_rows, without, find_row, allocations_of, contains,
}
use florist_core.Ordering.Repository.{allocs_into, row_to_domain}

-- The batch that a row and its allocations stand for.
abbrev pub view_row : Option BatchRow → List BatchAllocationRow → Option Batch
view_row none allocs = none
view_row (some row) allocs = some (row_to_domain row allocs)

-- The store that the tables stand for: a batch for each identifier, or none.
abbrev pub Store : Type 0
Store = BatchId → Option Batch

abbrev pub view : Tables → Store
view t id = view_row (find_row id t.batches) (allocations_of id t.allocations)

-- The store with one batch put in.
abbrev pub put : BatchId → Batch → Store → Store
put id b store j = if j == id then some b else store j

-- Whether the store has the version that a batch was read at.
abbrev pub is_current : Batch → Option Batch → Bool
is_current b none = false
is_current b (some c) = eq_ℤ c.version b.version

-- No two rows have one identifier.
abbrev pub NodupIds : List BatchRow → Type 0
NodupIds [] = Unit
NodupIds (r ∷ rows) = (contains r.id rows ≡ false) × NodupIds rows

-- The rows that hold a map of allocations.
abbrev pub rows_for : Time → BatchId → Map ℤ → List BatchAllocationRow
rows_for now id [] = []
rows_for now id ((order_id, qty) ∷ m) =
    record { batch_id = id; order_id = order_id; qty = qty; created_at = now } ∷ rows_for now id m

pub allocations_of-append :
    (id : BatchId) (xs ys : List BatchAllocationRow)
    → allocations_of id (xs ++ ys) ≡ allocations_of id xs ++ allocations_of id ys
unfolding allocations_of
allocations_of-append id [] ys = refl
allocations_of-append id (x ∷ xs) ys = ground (arith, allocations_of-append id xs ys)

allocations_of-without :
    (j id : BatchId) (xs : List BatchAllocationRow)
    → allocations_of j (without id xs) ≡ (if j == id then [] else allocations_of j xs)
unfolding allocations_of without
allocations_of-without j id [] = ground arith
allocations_of-without j id (x ∷ xs) = ground (arith, allocations_of-without j id xs)

pub allocations_of-rows_for :
    (j id : BatchId) (now : Time) (m : Map ℤ)
    → allocations_of j (rows_for now id m) ≡ (if j == id then rows_for now id m else [])
unfolding allocations_of
allocations_of-rows_for j id now [] = ground arith
allocations_of-rows_for j id now ((k, v) ∷ m) = ground (arith, allocations_of-rows_for j id now m)

-- A key that is not there is put at the end.
insert_new : (k : ℕ) (v : ℤ) (m : Map ℤ) → lookup k m ≡ none → insert k v m ≡ append m (k, v)
insert_new k v [] h = refl
insert_new k v ((j, w) ∷ m) h = ground (arith, insert_new k v m)

abbrev Fresh : Map ℤ → Map ℤ → Type 0
Fresh m [] = Unit
Fresh m ((k, _) ∷ n) = (lookup k m ≡ none) × Fresh m n

lookup-append_ne :
    (j k : ℕ) (v : ℤ) (m : Map ℤ) → lookup j m ≡ none → k ≢ j → lookup j (append m (k, v)) ≡ none
lookup-append_ne j k v [] h ne = ground arith
lookup-append_ne j k v ((i, w) ∷ m) h ne = ground (arith, lookup-append_ne j k v m)

Fresh-append :
    (k : ℕ) (v : ℤ) (m n : Map ℤ) → Fresh m n → lookup k n ≡ none → Fresh (append m (k, v)) n
Fresh-append k v m [] f h = tt
Fresh-append k v m ((j, w) ∷ n) f h = ground (arith, lookup-append_ne j k v m, Fresh-append k v m n)

allocs_into-rows_for :
    (now : Time) (id : BatchId) (m n : Map ℤ)
    → NodupKeys n
    → Fresh m n
    → allocs_into m (rows_for now id n) ≡ m ++ n
unfolding allocs_into
allocs_into-rows_for now id m [] u f = sym (append_nil m)
allocs_into-rows_for now id m ((k, v) ∷ n) u f =
    ap (λ x. allocs_into x (rows_for now id n)) (insert_new k v m f.0)
    ∙ allocs_into-rows_for now id (append m (k, v)) n u.1 (Fresh-append k v m n f.1 u.0)
    ∙ append_assoc m ((k, v) ∷ []) n

-- Every map is fresh to the empty one.
nothing_held : (n : Map ℤ) → Fresh [] n
nothing_held [] = tt
nothing_held (x ∷ n) = (refl, nothing_held n)

-- The rows written for a map are read back as that map.
pub allocs_back :
    (now : Time) (id : BatchId) (m : Map ℤ) → NodupKeys m → allocs_into [] (rows_for now id m) ≡ m
allocs_back now id m u = allocs_into-rows_for now id [] m u (nothing_held m)

pub allocations_rewritten :
    (j id : BatchId) (now : Time) (m : Map ℤ) (xs : List BatchAllocationRow)
    → allocations_of j (without id xs ++ rows_for now id m)
      ≡ (if j == id then rows_for now id m else allocations_of j xs)
allocations_rewritten j id now m xs =
    rw
      (
        allocations_of-append j (without id xs) (rows_for now id m),
        allocations_of-without j id xs,
        allocations_of-rows_for j id now m,
      )
      (elim (Bool-cases (j == id)) [
        | inl e ↦ rw e refl
        | inr e ↦ rw e (append_nil (allocations_of j xs))
      ])

-- Of rows with different identifiers an update meets at most the one of the batch.
update_rows_absent :
    (now : Time) (b : Batch) (rows : List BatchRow)
    → contains b.id rows ≡ false
    → update_rows now b rows ≡ (0, rows)
unfolding update_rows
update_rows_absent now b [] h = refl
update_rows_absent now b (r ∷ rows) h = ground (arith, update_rows_absent now b rows)

find_row_absent :
    (id : BatchId) (rows : List BatchRow) → contains id rows ≡ false → find_row id rows ≡ none
unfolding find_row
find_row_absent id [] h = refl
find_row_absent id (r ∷ rows) h = ground (arith, find_row_absent id rows)

-- The row after the update.
abbrev pub updated : Time → Batch → BatchRow → BatchRow
updated now b r = record r {
  sku = b.sku;
  qty = b.qty;
  eta = b.eta;
  version = r.version +ℤ pos 1;
  updated_at = now;
}

abbrev pub row_is_current : Batch → Option BatchRow → Bool
row_is_current b none = false
row_is_current b (some r) = eq_ℤ r.version b.version

abbrev pub found_after : Time → Batch → BatchId → List BatchRow → Option BatchRow → Option BatchRow
found_after now b j rows none = find_row j rows
found_after now b j rows (some r) = if j == b.id then some (updated now b r) else find_row j rows

pub update_rows_stale :
    (now : Time) (b : Batch) (rows : List BatchRow)
    → NodupIds rows
    → row_is_current b (find_row b.id rows) ≡ false
    → update_rows now b rows ≡ (0, rows)
unfolding update_rows find_row
update_rows_stale now b [] u h = refl
update_rows_stale now b (r ∷ rows) u h =
    ground (arith, update_rows_absent now b rows, update_rows_stale now b rows u.1)

pub update_rows_current :
    (now : Time) (b : Batch) (j : BatchId) (rows : List BatchRow)
    → NodupIds rows
    → row_is_current b (find_row b.id rows) ≡ true
    → ((update_rows now b rows).0 ≡ 1)
      × (find_row j (update_rows now b rows).1 ≡ found_after now b j rows (find_row b.id rows))
unfolding update_rows find_row
update_rows_current now b j [] u h = cc
update_rows_current now b j (r ∷ rows) u h =
    ground (arith, update_rows_absent now b rows, update_rows_current now b j rows u.1)
