-- ===== src/Ordering/Order/Items.antt =====
-- The lines of an order under its calls.
use florist_core.Prelude.{
  ℕ, suc, ◌+◌, ◌≡◌, ◌⊎◌, refl, ◌∙◌, ◌≢◌, ◌⊎◌, Option, none, some, List, [], ◌∷◌, arith, append,
  ◌==◌, if◌then◌else◌,
}
use florist_core.Prelude.Int.{ℤ}
use florist_core.Kernel.Money.{Money}
use florist_core.Kernel.Types.{Uuid, ProductId}
use florist_core.Kernel.Errors.{order_item_not_found}
use florist_core.Ordering.Order.{Order, OrderItem, draft, add_item, remove_item, remove_first}
use florist_core.Ordering.Order.Ops.{Op, apply, run}

-- The lines of one product.
abbrev pub lines_of : ProductId → List OrderItem → ℕ
lines_of p [] = 0
lines_of p (item ∷ items) = let n = lines_of p items in if item.product_id == p then suc n else n

remove_first-append :
    (p : ProductId) (items : List OrderItem) (item : OrderItem)
    → lines_of p items ≡ 0
    → item.product_id ≡ p
    → remove_first p (append items item) ≡ some items
unfolding remove_first
remove_first-append p [] item h e = ground arith
remove_first-append p (x ∷ items) item h e = ground (arith, remove_first-append p items item)

-- Removing the product that was just added restores a draft that had no line of it.
pub remove-add :
    (id : Uuid) (p : ProductId) (qty : ℤ) (price : Money) (o : Order)
    → o.status ≡ draft
    → lines_of p o.items ≡ 0
    → remove_item p (add_item id p qty price o).0 ≡ (o, none)
unfolding remove_item add_item
remove-add id p qty price o d h =
    let gone =
      remove_first-append p o.items
        (record { id = id; product_id = p; qty = qty; unit_price = price }) h refl in
    ground arith

remove_first-none :
    (p : ProductId) (items : List OrderItem) → lines_of p items ≡ 0 → remove_first p items ≡ none
unfolding remove_first
remove_first-none p [] h = refl
remove_first-none p (x ∷ items) h = ground (arith, remove_first-none p items)

-- What a removal has done to the lines of the product, and to those of another one.
abbrev AfterRemove : ProductId → ProductId → List OrderItem → Option (List OrderItem) → Type 0
AfterRemove p q items none = lines_of p items ≡ 0
AfterRemove p q items (some kept) =
    (lines_of p items ≡ lines_of p kept + 1) × (q ≢ p → lines_of q kept ≡ lines_of q items)

remove_first-after :
    (p q : ProductId) (items : List OrderItem) → AfterRemove p q items (remove_first p items)
unfolding remove_first
remove_first-after p q [] = refl
remove_first-after p q (x ∷ items) = ground (arith, remove_first-after p q items)

-- On a draft, `RemoveItem` either takes exactly one line of the product away and leaves as many lines
-- of any other product, or the order has no line of it, and it says so and changes nothing.
pub remove_item_answers :
    (p q : ProductId) (o : Order)
    → o.status ≡ draft
    → q ≢ p
    → ((lines_of p o.items ≡ 0) × (remove_item p o ≡ (o, some order_item_not_found)))
      ⊎ (((remove_item p o).1 ≡ none)
          × (lines_of p o.items ≡ lines_of p (remove_item p o).0.items + 1)
          × (lines_of q (remove_item p o).0.items ≡ lines_of q o.items))
unfolding remove_item
remove_item_answers p q o d ne =
    ground (arith, remove_first-after p q o.items, remove_first-none p o.items)

apply-items :
    (op : Op) (o : Order)
    → o.status ≢ draft
    → ((apply op o).0.status ≢ draft) × ((apply op o).0.items ≡ o.items)
unfolding apply
apply-items op o h = ground arith

-- Once an order is no longer a draft, no call changes its lines.
pub items_fixed : (ops : List Op) (o : Order) → o.status ≢ draft → (run ops o).items ≡ o.items
unfolding run
items_fixed [] o h = refl
items_fixed (op ∷ ops) o h =
    let step = apply-items op o h in items_fixed ops (apply op o).0 step.0 ∙ step.1
