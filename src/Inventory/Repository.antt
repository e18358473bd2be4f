-- ===== src/Inventory/Repository.antt =====
-- internal/inventory/infrastructure/postgres/batch_repository.go over the table `inventory_batches`.
-- The text of a UUID and back is the UUID. `INT` columns hold 32 bits, and pgx refuses to encode an
-- `int` outside of them; a `TIMESTAMPTZ` holds whole microseconds, and pgx drops what is below. What the
-- database may refuse besides is a statement that is not carried out.
pub mod Fields
pub mod Save
pub mod ReadBack
pub mod Find
mod Tests
use Prim.Native.String.{count}
use florist_core.Prelude.{
  ℕ, suc, Bool, true, false, not, String, Option, none, some, List, [], ◌∷◌, map, ◌==◌, ◌&&◌,
  str_eq, if◌then◌else◌, ◌^◌, ◌-◌, ◌+◌, ◌*◌, ◌/◌, leb,
}
use florist_core.Prelude.Int.{ℤ, pos, negsuc, ◌+ℤ◌, ltb_ℤ, leb_ℤ, wrap64, eq_ℤ}
use florist_core.Kernel.Errors.{
  Error, Result, ok, err, wrapped, batch_not_found, inventory_optimistic_lock,
}
use florist_core.Kernel.Types.{BatchId, StoreId, IngredientId, Time, unchecked_money}
use florist_core.Inventory.Batch.{Batch, Freshness, RehydrateParams, rehydrate_batch, is_expired}
use florist_core.Outbox.Publisher.{NewRow}
use florist_core.Db.{Action, Statement, pure, raise, ◌>>=◌, wrap_error, pool_exec}

pub record BatchRow : Type 0 where
  pub id : BatchId
  pub store_id : StoreId
  pub ingredient_id : IngredientId
  pub received_qty : ℤ
  pub remaining_qty : ℤ
  pub purchase_price : ℤ
  pub currency : String
  pub received_at : Time
  pub expires_at : Time
  pub freshness : Freshness
  pub written_off : Bool
  pub write_off_reason : Option String
  pub version : ℤ

-- The tables that the inventory context writes.
pub record Tables : Type 0 where
  pub batches : List BatchRow
  pub outbox : List NewRow

unfoldable pub ptr_str : Option String → String
ptr_str none = ""
ptr_str (some s) = s

unfoldable pub nilable_str : String → Option String
nilable_str s = if str_eq s "" then none else some s

unfoldable pub row_to_batch : BatchRow → Batch
unfolding ptr_str rehydrate_batch
row_to_batch r = rehydrate_batch (record {
  id = r.id;
  store_id = r.store_id;
  ingredient_id = r.ingredient_id;
  received_qty = r.received_qty;
  remaining_qty = r.remaining_qty;
  purchase_price = unchecked_money r.purchase_price r.currency;
  received_at = r.received_at;
  expires_at = r.expires_at;
  freshness = r.freshness;
  written_off = r.written_off;
  write_off_reason = ptr_str r.write_off_reason;
  version = r.version;
})

-- A time as the column holds it.
abbrev pub to_micros : Time → Time
to_micros (pos n) = pos (n / 1000 * 1000)
to_micros (negsuc n) = negsuc ((n / 1000 + 1) * 1000 - 1)

-- The row that `Save` inserts, with the version after the batch's.
unfoldable pub new_row_of : Batch → BatchRow
unfolding nilable_str
new_row_of b = record {
  id = b.id;
  store_id = b.store_id;
  ingredient_id = b.ingredient_id;
  received_qty = b.received_qty;
  remaining_qty = b.remaining_qty;
  purchase_price = b.purchase_price.amount;
  currency = b.purchase_price.currency;
  received_at = to_micros b.received_at;
  expires_at = to_micros b.expires_at;
  freshness = b.freshness;
  written_off = b.written_off;
  write_off_reason = nilable_str b.write_off_reason;
  version = wrap64 (b.version +ℤ pos 1);
}

-- `DO UPDATE SET …`
unfoldable pub updated_row : Batch → BatchRow → BatchRow
unfolding nilable_str
updated_row b r = record r {
  remaining_qty = b.remaining_qty;
  freshness = b.freshness;
  written_off = b.written_off;
  write_off_reason = nilable_str b.write_off_reason;
  version = r.version +ℤ pos 1;
}

-- `INSERT … ON CONFLICT (id) DO UPDATE … WHERE inventory_batches.version = $14`: the rows affected, and
-- the table.
unfoldable pub upsert : Batch → List BatchRow → ℕ × List BatchRow
unfolding new_row_of updated_row
upsert b [] = (1, new_row_of b ∷ [])
upsert b (r ∷ rs) =
    let (n, rest) = upsert b rs in
    if r.id == b.id
    then (if eq_ℤ r.version b.version then (1, updated_row b r ∷ rs) else (0, r ∷ rs))
    else (n, r ∷ rest)

abbrev pub fits32 : ℤ → Bool
fits32 a = leb_ℤ (negsuc (2 ^ 31 - 1)) a && ltb_ℤ a (pos (2 ^ 31))

-- What the columns and the checks of the row that is proposed ask for: the quantities and both versions are
-- `INT`, `CHECK (received_qty > 0)`, `CHECK (remaining_qty >= 0)` and `VARCHAR(3)`. They come before the
-- conflict is looked for.
abbrev pub is_storable : Batch → Bool
is_storable b =
    fits32 b.received_qty
    && (fits32 b.remaining_qty
        && (fits32 b.version
            && (fits32 (b.version +ℤ pos 1)
                && (ltb_ℤ (pos 0) b.received_qty
                    && (leb_ℤ (pos 0) b.remaining_qty
                        && leb (count b.purchase_price.currency) 3)))))

unfoldable pub save_statement : Batch → Statement Tables ℕ
unfolding upsert
save_statement b t =
    if is_storable b
    then (let (n, rows) = upsert b t.batches in some (n, record t { batches = rows }))
    else none

-- `SELECT … WHERE id = $1`
unfoldable pub find_row : BatchId → List BatchRow → Option BatchRow
find_row id [] = none
find_row id (r ∷ rs) = if r.id == id then some r else find_row id rs

-- `SELECT … WHERE …`
unfoldable pub where_rows : (BatchRow → Bool) → List BatchRow → List BatchRow
where_rows test [] = []
where_rows test (r ∷ rs) = let rest = where_rows test rs in if test r then r ∷ rest else rest

-- `ORDER BY expires_at ASC`
unfoldable pub insert_by_expiry : BatchRow → List BatchRow → List BatchRow
insert_by_expiry r [] = r ∷ []
insert_by_expiry r (x ∷ xs) =
    if leb_ℤ r.expires_at x.expires_at then r ∷ x ∷ xs else x ∷ insert_by_expiry r xs

unfoldable pub sort_by_expiry : List BatchRow → List BatchRow
unfolding insert_by_expiry
sort_by_expiry [] = []
sort_by_expiry (r ∷ rs) = insert_by_expiry r (sort_by_expiry rs)

-- `freshness != 'expired' AND remaining_qty > 0`
abbrev pub is_active : BatchRow → Bool
is_active r = not (is_expired r.freshness) && ltb_ℤ (pos 0) r.remaining_qty

abbrev pub is_available : StoreId → IngredientId → BatchRow → Bool
is_available store_id ingredient_id r =
    r.store_id == store_id && r.ingredient_id == ingredient_id && not r.written_off && is_active r

abbrev pub scan_batches : List BatchRow → List Batch
scan_batches rows = map row_to_batch rows

module _ {X : Type 0} where
  -- `if tag.RowsAffected() == 0`
  abbrev lock_check : ℕ → Action Tables X (Unit {0})
  lock_check n =
      if n == 0 then raise (wrapped "BatchRepository.Save" inventory_optimistic_lock) else pure tt

  unfoldable pub save : Batch → Action Tables X (Unit {0})
  save b = do
    n ← wrap_error (wrapped "BatchRepository.Save") (pool_exec (save_statement b))
    lock_check n

  abbrev found : Option BatchRow → Action Tables X Batch
  found none = raise (wrapped "BatchRepository.FindByID" batch_not_found)
  found (some r) = pure (row_to_batch r)

  unfoldable pub find_by_id : BatchId → Action Tables X Batch
  unfolding find_row row_to_batch
  find_by_id id = do
    row ←
        wrap_error (wrapped "BatchRepository.FindByID")
          (pool_exec (λ t. some (find_row id t.batches, t)))
    found row

  unfoldable pub find_active : Action Tables X (List Batch)
  unfolding where_rows row_to_batch
  find_active =
      wrap_error (wrapped "BatchRepository.FindActive")
        (pool_exec (λ t. some (scan_batches (where_rows is_active t.batches), t)))

  unfoldable pub find_by_store : StoreId → Action Tables X (List Batch)
  unfolding where_rows sort_by_expiry row_to_batch
  find_by_store store_id = wrap_error (wrapped "BatchRepository.FindByStore") (
      pool_exec (λ t. some (
        scan_batches
            (sort_by_expiry (where_rows (λ r. r.store_id == store_id && is_active r) t.batches)),
        t,
      )))

  unfoldable pub find_available_by_ingredient :
      StoreId → IngredientId → Action Tables X (List Batch)
  unfolding where_rows sort_by_expiry row_to_batch
  find_available_by_ingredient store_id ingredient_id =
      wrap_error (wrapped "BatchRepository.FindAvailableByIngredient") (
        pool_exec (λ t. some (
          scan_batches
              (sort_by_expiry (where_rows (is_available store_id ingredient_id) t.batches)),
          t,
        )))
