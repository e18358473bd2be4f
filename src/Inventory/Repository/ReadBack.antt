-- ===== src/Inventory/Repository/ReadBack.antt =====
-- What a query of internal/inventory/infrastructure/postgres/batch_repository.go reads of a batch that `Save` wrote.
use florist_core.Prelude.{◌≡◌, refl, ap, true, String, Option, none, some, [], arith, str_eq_iff}
use florist_core.Prelude.Int.{ℤ, pos, wrap64, ◌+ℤ◌, wrap64_fits, InRange64, eq_of_parts}
use florist_core.Inventory.Batch.{Batch}
use florist_core.Inventory.Repository.{
  BatchRow, row_to_batch, new_row_of, updated_row, ptr_str, nilable_str, is_storable, to_micros,
  fits32,
}
use florist_core.Inventory.Repository.Save.{written, may_write}
use florist_core.Inventory.Repository.Fields.{IsCutDown}

-- An empty reason is stored as NULL and comes back empty.
reason_back : (s : String) → ptr_str (nilable_str s) ≡ s
unfolding ptr_str nilable_str
reason_back s = ground (arith, str_eq_iff s "")

-- What no update changes is the same in the batch and in the row that it was read from, the times as the
-- columns hold them.
abbrev pub SameBirth : Batch → Option BatchRow → Type 0
SameBirth b none = Unit
SameBirth b (some r) =
    (b.id ≡ r.id)
    × (b.store_id ≡ r.store_id)
    × (b.ingredient_id ≡ r.ingredient_id)
    × (b.received_qty ≡ r.received_qty)
    × (b.purchase_price.amount ≡ r.purchase_price)
    × (b.purchase_price.currency ≡ r.currency)
    × (to_micros b.received_at ≡ r.received_at)
    × (to_micros b.expires_at ≡ r.expires_at)

-- What `Save` and a query make of a batch.
abbrev pub as_stored : Batch → Batch
as_stored b = record b {
  version = b.version +ℤ pos 1;
  received_at = to_micros b.received_at;
  expires_at = to_micros b.expires_at;
  events = [];
}

-- What is read back of a batch: it is one version on and without events, and its times are cut down to whole
-- microseconds.
abbrev pub IsReadBack : Batch → Batch → Type 0
IsReadBack b got =
    (got ≡ record b {
      version = b.version +ℤ pos 1;
      received_at = got.received_at;
      expires_at = got.expires_at;
      events = [];
    })
    × IsCutDown b.received_at got.received_at
    × IsCutDown b.expires_at got.expires_at

-- A version that the column holds is not wrapped.
version_fits : (b : Batch) → is_storable b ≡ true → wrap64 (b.version +ℤ pos 1) ≡ b.version +ℤ pos 1
version_fits b f = wrap64_fits (b.version +ℤ pos 1) (in_range (b.version +ℤ pos 1) (ground arith))
  where
    in_range : (v : ℤ) → fits32 v ≡ true → InRange64 v
    in_range v h = ground arith

pub batch_back :
    (b : Batch) (old : Option BatchRow)
    → SameBirth b old
    → may_write b old ≡ true
    → is_storable b ≡ true
    → row_to_batch (written b old) ≡ as_stored b
unfolding row_to_batch new_row_of updated_row
batch_back b none h m f = rw (reason_back b.write_off_reason, version_fits b f) refl
batch_back b (some r) h m f =
    let e : r.version ≡ b.version = eq_of_parts r.version b.version (ground arith) in
    ground (arith, reason_back b.write_off_reason, ap (λ x. x +ℤ pos 1) e)
