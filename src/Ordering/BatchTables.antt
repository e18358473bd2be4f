-- ===== src/Ordering/BatchTables.antt =====
-- The tables `batches` and `batch_allocations` with the statements of
-- internal/ordering/infrastructure/postgres/batch_repository.go. The repository has no migration for them:
-- whatever a constraint may refuse is a statement that is not carried out.
use florist_core.Prelude.{
  ℕ, suc, Bool, String, Option, none, some, List, [], ◌∷◌, append, ◌==◌, ◌&&◌, ◌||◌, str_eq,
  if◌then◌else◌,
}
use florist_core.Prelude.Int.{ℤ, pos, ◌+ℤ◌, eq_ℤ, ltb_ℤ}
use florist_core.Kernel.Types.{BatchId, OrderId, Time}
use florist_core.Ordering.Allocation.{Batch}
use florist_core.Db.{Statement}

pub record BatchRow : Type 0 where
  pub id : BatchId
  pub sku : String
  pub qty : ℤ
  pub eta : Option Time
  pub version : ℤ
  pub created_at : Time
  pub updated_at : Time

pub record BatchAllocationRow : Type 0 where
  pub batch_id : BatchId
  pub order_id : OrderId
  pub qty : ℤ
  pub created_at : Time

pub record Tables : Type 0 where
  pub batches : List BatchRow
  pub allocations : List BatchAllocationRow

-- The row of `INSERT INTO batches`.
abbrev pub new_row_of : Time → Batch → BatchRow
new_row_of now b = record {
  id = b.id;
  sku = b.sku;
  qty = b.qty;
  eta = b.eta;
  version = b.version;
  created_at = now;
  updated_at = now;
}

abbrev pub insert_batch : Time → Batch → Statement Tables (Unit {0})
insert_batch now b t = some (tt, record t { batches = append t.batches (new_row_of now b) })

abbrev pub insert_allocation : BatchAllocationRow → Statement Tables (Unit {0})
insert_allocation row t = some (tt, record t { allocations = append t.allocations row })

-- `UPDATE batches SET … WHERE id = $1 AND version = $5`: the rows affected, and the table.
unfoldable pub update_rows : Time → Batch → List BatchRow → ℕ × List BatchRow
update_rows now b [] = (0, [])
update_rows now b (r ∷ rs) =
    let (n, rest) = update_rows now b rs in
    if r.id == b.id && eq_ℤ r.version b.version
    then (
      suc n,
      record r {
        sku = b.sku;
        qty = b.qty;
        eta = b.eta;
        version = r.version +ℤ pos 1;
        updated_at = now;
      }
          ∷ rest,
    )
    else (n, r ∷ rest)

abbrev pub update_batch : Time → Batch → Statement Tables ℕ
update_batch now b t =
    let (n, rows) = update_rows now b t.batches in some (n, record t { batches = rows })

-- `DELETE FROM batch_allocations WHERE batch_id = $1`
unfoldable pub without : BatchId → List BatchAllocationRow → List BatchAllocationRow
without id [] = []
without id (a ∷ others) =
    let rest = without id others in if a.batch_id == id then rest else a ∷ rest

abbrev pub delete_allocations : BatchId → Statement Tables (Unit {0})
delete_allocations id t = some (tt, record t { allocations = without id t.allocations })

-- `SELECT … FROM batches WHERE id = $1`, the first row
unfoldable pub find_row : BatchId → List BatchRow → Option BatchRow
find_row id [] = none
find_row id (r ∷ rs) = if r.id == id then some r else find_row id rs

-- `SELECT … FROM batch_allocations WHERE batch_id = $1`
unfoldable pub allocations_of : BatchId → List BatchAllocationRow → List BatchAllocationRow
allocations_of id [] = []
allocations_of id (a ∷ others) =
    let rest = allocations_of id others in if a.batch_id == id then a ∷ rest else rest

-- `SELECT … WHERE sku = $1`
unfoldable pub where_sku : String → List BatchRow → List BatchRow
where_sku sku [] = []
where_sku sku (r ∷ rs) = let rest = where_sku sku rs in if str_eq r.sku sku then r ∷ rest else rest

-- `ORDER BY eta NULLS LAST, created_at`: whether `r` stands strictly before `x`.
abbrev pub eta_before : Option Time → Option Time → Bool → Bool
eta_before (some a) (some b) earlier = ltb_ℤ a b || (eq_ℤ a b && earlier)
eta_before (some _) none earlier = Bool.true
eta_before none (some _) earlier = Bool.false
eta_before none none earlier = earlier

abbrev pub before : BatchRow → BatchRow → Bool
before r x = eta_before r.eta x.eta (ltb_ℤ r.created_at x.created_at)

unfoldable pub insert_by_eta : BatchRow → List BatchRow → List BatchRow
insert_by_eta r [] = r ∷ []
insert_by_eta r (x ∷ xs) = if before x r then x ∷ insert_by_eta r xs else r ∷ x ∷ xs

unfoldable pub sort_by_eta : List BatchRow → List BatchRow
unfolding insert_by_eta
sort_by_eta [] = []
sort_by_eta (r ∷ rs) = insert_by_eta r (sort_by_eta rs)

abbrev pub contains : BatchId → List BatchRow → Bool
contains id [] = Bool.false
contains id (r ∷ rs) = r.id == id || contains id rs

-- `SELECT … FROM batch_allocations WHERE batch_id = ANY($1)`
unfoldable pub allocations_of_any :
    List BatchRow → List BatchAllocationRow → List BatchAllocationRow
allocations_of_any rows [] = []
allocations_of_any rows (a ∷ others) =
    let rest = allocations_of_any rows others in if contains a.batch_id rows then a ∷ rest else rest
