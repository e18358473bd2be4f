-- ===== src/Ordering/Repository/Rows.antt =====
-- Rows by identifier, by SKU and by time of arrival, and allocations grouped by their batch.
use florist_core.Prelude.{
  ◌≡◌, refl, sym, ◌∙◌, ap, true, false, Bool-cases, inl, inr, some, List, [], ◌∷◌, ◌++◌, append,
  append_nil, append_assoc, if◌then◌else◌, ◌==◌, String, str_eq, All, arith,
}
use florist_core.Prelude.Map.{Map, insert, lookup-insert}
use florist_core.Kernel.Types.{BatchId}
use florist_core.Ordering.BatchTables.{
  BatchRow, BatchAllocationRow, find_row, allocations_of, where_sku, sort_by_eta, insert_by_eta,
  before, allocations_of_any, contains,
}
use florist_core.Ordering.Repository.{or_empty, group_at, group_into}
use florist_core.Ordering.Repository.Store.{NodupIds}

own_rows_skip :
    (r : BatchRow) (rows others : List BatchRow)
    → contains r.id rows ≡ false
    → All (λ x. find_row x.id others ≡ some x) rows
    → All (λ x. find_row x.id (r ∷ others) ≡ some x) rows
unfolding find_row
own_rows_skip r [] others n h = tt
own_rows_skip r (x ∷ rows) others n h = ground (arith, own_rows_skip r rows others)

-- Each row is found by its identifier.
pub own_rows : (rows : List BatchRow) → NodupIds rows → All (λ r. find_row r.id rows ≡ some r) rows
unfolding find_row
own_rows [] u = tt
own_rows (r ∷ rows) u = (ground arith, own_rows_skip r rows rows u.0 (own_rows rows u.1))

contained_skip :
    (r : BatchRow) (rows others : List BatchRow)
    → All (λ x. contains x.id others ≡ true) rows
    → All (λ x. contains x.id (r ∷ others) ≡ true) rows
contained_skip r [] others h = tt
contained_skip r (x ∷ rows) others h = ground (arith, contained_skip r rows others)

pub contained : (rows : List BatchRow) → All (λ r. contains r.id rows ≡ true) rows
contained [] = tt
contained (r ∷ rows) = (ground arith, contained_skip r rows rows (contained rows))

pub where_sku-All :
    (P : BatchRow → Type 0) (sku : String) (rows : List BatchRow)
    → All P rows
    → All P (where_sku sku rows)
unfolding where_sku
where_sku-All P sku [] h = tt
where_sku-All P sku (r ∷ rows) h = elim (Bool-cases (str_eq r.sku sku)) [
  | inl e ↦ rw e (h.0, where_sku-All P sku rows h.1)
  | inr e ↦ rw e (where_sku-All P sku rows h.1)
]

pub insert_by_eta-All :
    (P : BatchRow → Type 0) (r : BatchRow) (rows : List BatchRow)
    → P r
    → All P rows
    → All P (insert_by_eta r rows)
unfolding insert_by_eta
insert_by_eta-All P r [] p h = (p, tt)
insert_by_eta-All P r (x ∷ rows) p h = elim (Bool-cases (before x r)) [
  | inl e ↦ rw e (h.0, insert_by_eta-All P r rows p h.1)
  | inr e ↦ rw e (p, h)
]

pub sort_by_eta-All :
    (P : BatchRow → Type 0) (rows : List BatchRow) → All P rows → All P (sort_by_eta rows)
unfolding sort_by_eta
sort_by_eta-All P [] h = tt
sort_by_eta-All P (r ∷ rows) h =
    insert_by_eta-All P r (sort_by_eta rows) h.0 (sort_by_eta-All P rows h.1)

pub allocations_of-any :
    (id : BatchId) (rows : List BatchRow) (xs : List BatchAllocationRow)
    → contains id rows ≡ true
    → allocations_of id (allocations_of_any rows xs) ≡ allocations_of id xs
unfolding allocations_of allocations_of_any
allocations_of-any id rows [] h = refl
allocations_of-any id rows (a ∷ xs) h = ground (arith, allocations_of-any id rows xs)

group_at-insert :
    (id k : BatchId) (v : List BatchAllocationRow) (g : Map (List BatchAllocationRow))
    → group_at id (insert k v g) ≡ (if k == id then v else group_at id g)
group_at-insert id k v g =
    ap or_empty (lookup-insert k id v g)
    ∙ (elim (Bool-cases (k == id)) [ inl e ↦ rw e refl | inr e ↦ rw e refl ])

-- Grouped, the allocations of a batch are those that stand in the list, in their order.
pub group_at-into :
    (id : BatchId) (g : Map (List BatchAllocationRow)) (xs : List BatchAllocationRow)
    → group_at id (group_into g xs) ≡ group_at id g ++ allocations_of id xs
unfolding group_into allocations_of
group_at-into id g [] = sym (append_nil (group_at id g))
group_at-into id g (a ∷ xs) =
    group_at-into id (insert a.batch_id (append (group_at a.batch_id g) a) g) xs
    ∙ ap (λ l. l ++ allocations_of id xs)
        (group_at-insert id a.batch_id (append (group_at a.batch_id g) a) g)
    ∙ elim (Bool-cases (a.batch_id == id)) [
      | inr e ↦ rw e refl
      | inl e ↦
          let same : a.batch_id ≡ id = ground arith in
          rw e (
            ap (λ (j : BatchId). append (group_at j g) a ++ allocations_of id xs) same
            ∙ append_assoc (group_at id g) (a ∷ []) (allocations_of id xs))
    ]
