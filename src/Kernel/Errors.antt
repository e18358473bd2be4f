-- ===== src/Kernel/Errors.antt =====
-- Go's `error` values: the sentinels that the packages declare, inline `errors.New` texts, errors of
-- the database driver, and `fmt.Errorf("…: %w", err)`. Two packages declare an `ErrOptimisticLock`.
pub mod Cases
use florist_core.Prelude.{String}

pub data Error : Type 0 where
  currency_mismatch negative_money : Error
  batch_expired insufficient_batch batch_already_expired batch_not_found : Error
  inventory_optimistic_lock : Error
  insufficient_qty order_not_allocated ordering_optimistic_lock : Error
  order_not_draft order_not_confirmed order_already_cancelled : Error
  order_item_not_found empty_order order_not_found insufficient_stock : Error
  empty_recipe_name no_ingredients : Error
  driver no_rows : Error
  message : String → Error
  wrapped : String → Error → Error

pub data Result {ℓ} (A : Type ℓ) : Type ℓ where
  ok : A → Result A
  err : Error → Result A

infixl 5 ◌>>=◌
abbrev pub ◌>>=◌ {ℓ κ} : {A : Type ℓ} {B : Type κ} → Result A → (A → Result B) → Result B
ok a >>= f = f a
err e >>= f = err e

-- `errors.Is(err, target)` at a sentinel: the chain of `%w` is followed down.
abbrev pub root : Error → Error
root (wrapped _ e) = root e
root e = e

-- An error of a call, with the text put before it.
abbrev pub wrap_result : {A : Type 0} → (Error → Error) → Result A → Result A
wrap_result f (ok a) = ok a
wrap_result f (err e) = err (f e)
