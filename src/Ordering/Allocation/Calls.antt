-- ===== src/Ordering/Allocation/Calls.antt =====
-- What allocating and releasing do to a valid batch.
use florist_core.Prelude.{
  ℕ, ◌≡◌, refl, Option, none, some, [], ◌∷◌, arith, ◌==◌, if◌then◌else◌, Bool-cases, ◌⊎◌, inl, inr,
}
use florist_core.Prelude.Map.{
  Map, lookup, insert, erase, insert-NodupKeys, erase-NodupKeys, lookup-insert, erase-insert_new,
}
use florist_core.Prelude.Int.{
  ℤ, pos, negsuc, ◌+ℤ◌, ◌≤ℤ◌, ◌<ℤ◌, leb_ℤ, parts_of_eq, eq_of_parts, int_laws,
}
use florist_core.Kernel.Errors.{insufficient_qty}
use florist_core.Kernel.Types.{OrderId}
use florist_core.Ordering.Allocation.{Batch, available_qty, allocate, deallocate}
use florist_core.Ordering.Allocation.Stock.{total, AllNonneg, IsValid, available_exact}

-- what one order holds
abbrev pub held : Option ℤ → ℤ
held none = pos 0
held (some qty) = qty

total-insert :
    (k : ℕ) (v : ℤ) (m : Map ℤ) → total (insert k v m) +ℤ held (lookup k m) ≡ total m +ℤ v
total-insert k v [] = omega int_laws
total-insert k v ((j, w) ∷ m) = grind (int_laws, total-insert k v m)

total-erase : (k : ℕ) (m : Map ℤ) → total (erase k m) +ℤ held (lookup k m) ≡ total m
total-erase k [] = omega int_laws
total-erase k ((j, w) ∷ m) = grind (int_laws, total-erase k m)

insert-AllNonneg : (k : ℕ) (v : ℤ) (m : Map ℤ) → AllNonneg m → pos 0 ≤ℤ v → AllNonneg (insert k v m)
insert-AllNonneg k v [] h p = (p, tt)
insert-AllNonneg k v ((j, w) ∷ m) h p = ground (arith, insert-AllNonneg k v m h.1 p)

erase-AllNonneg : (k : ℕ) (m : Map ℤ) → AllNonneg m → AllNonneg (erase k m)
erase-AllNonneg k [] h = tt
erase-AllNonneg k ((j, w) ∷ m) h = ground (arith, erase-AllNonneg k m h.1)

held_nonneg : (k : ℕ) (m : Map ℤ) → AllNonneg m → pos 0 ≤ℤ held (lookup k m)
held_nonneg k [] h = omega arith
held_nonneg k ((j, w) ∷ m) h = ground (arith, held_nonneg k m h.1)

insert_covered :
    (k : ℕ) (qty : ℤ) (b : Batch)
    → IsValid b
    → qty ≤ℤ available_qty b
    → total (insert k qty b.allocations) ≤ℤ b.qty
insert_covered k qty b v h = omega (
  int_laws,
  parts_of_eq (available_exact b v).0,
  parts_of_eq (total-insert k qty b.allocations),
  held_nonneg k b.allocations v.nonneg,
)

-- Allocating an amount that is not negative keeps a valid batch valid, whether it is granted or
-- refused, also where the order held an allocation before: the batch is never overbooked.
pub allocate-IsValid :
    (k : OrderId) (qty : ℤ) (b : Batch) → pos 0 ≤ℤ qty → IsValid b → IsValid (allocate k qty b).0
unfolding allocate
allocate-IsValid k qty b p v = ground (
  arith,
  insert_covered k qty b v,
  insert-NodupKeys k qty b.allocations v.nodup,
  insert-AllNonneg k qty b.allocations v.nonneg p,
)

erase_covered : (k : ℕ) (b : Batch) → IsValid b → total (erase k b.allocations) ≤ℤ b.qty
erase_covered k b v = omega (
  int_laws,
  v.covered,
  parts_of_eq (total-erase k b.allocations),
  held_nonneg k b.allocations v.nonneg,
)

-- Releasing an order's allocation keeps a valid batch valid.
pub deallocate-IsValid : (k : OrderId) (b : Batch) → IsValid b → IsValid (deallocate k b).0
unfolding deallocate
deallocate-IsValid k b v = ground (
  arith,
  erase_covered k b v,
  erase-NodupKeys k b.allocations v.nodup,
  erase-AllNonneg k b.allocations v.nonneg,
)

granted :
    (k : OrderId) (qty : ℤ) (b : Batch)
    → qty ≤ℤ available_qty b
    → allocate k qty b ≡ (record b { allocations = insert k qty b.allocations }, none)
unfolding allocate
granted k qty b h = ground arith

free_after :
    (k : OrderId) (qty : ℤ) (b : Batch)
    → IsValid b
    → pos 0 ≤ℤ qty
    → qty ≤ℤ available_qty b
    → available_qty (record b { allocations = insert k qty b.allocations }) +ℤ qty
      ≡ available_qty b +ℤ held (lookup k b.allocations)
free_after k qty b v p h =
    let b' : Batch = record b { allocations = insert k qty b.allocations } in
    let v' : IsValid b' = rw (granted k qty b h) at (allocate-IsValid k qty b p v) in
    eq_of_parts _ _ (
      omega (
        int_laws,
        parts_of_eq (available_exact b v).0,
        parts_of_eq (available_exact b' v').0,
        parts_of_eq (total-insert k qty b.allocations),
      ))

-- Releasing what was just allocated to an order that held nothing restores the batch.
pub deallocate-allocate :
    (k : OrderId) (qty : ℤ) (b : Batch)
    → lookup k b.allocations ≡ none
    → (allocate k qty b).1 ≡ none
    → deallocate k (allocate k qty b).0 ≡ (b, none)
unfolding allocate deallocate
deallocate-allocate k qty b new granted =
    ground (arith, erase-insert_new k qty b.allocations new, lookup-insert k k qty b.allocations)

-- On a valid batch an amount that is not negative is granted exactly where it is at most the free
-- quantity, and otherwise refused with nothing changed. A grant records the amount under the order,
-- leaves other orders alone, and lowers the free quantity by the amount less what the order held
-- before.
pub allocate_answers :
    (k j : OrderId) (qty : ℤ) (b : Batch)
    → IsValid b
    → pos 0 ≤ℤ qty
    → let (b', e) = allocate k qty b in
      ((available_qty b <ℤ qty) × (allocate k qty b ≡ (b, some insufficient_qty)))
      ⊎ ((qty ≤ℤ available_qty b)
          × (e ≡ none)
          × (lookup j b'.allocations ≡ (if k == j then some qty else lookup j b.allocations))
          × (available_qty b' +ℤ qty ≡ available_qty b +ℤ held (lookup k b.allocations)))
unfolding allocate
allocate_answers k j qty b v p = elim (Bool-cases (leb_ℤ qty (available_qty b))) [
  | inr e ↦ inl (ground arith, ground arith)
  | inl e ↦
      let h : qty ≤ℤ available_qty b = ground arith in
      inr (
        h,
        rw (granted k qty b h) refl,
        rw (granted k qty b h) (lookup-insert k j qty b.allocations),
        rw (granted k qty b h) (free_after k qty b v p h),
      )
]

-- A negative amount is granted on every valid batch, and lowers the sum of the allocations.
pub allocate_negative :
    (k : OrderId) (n : ℕ) (b : Batch)
    → IsValid b
    → ((allocate k (negsuc n) b).1 ≡ none)
      × (total (allocate k (negsuc n) b).0.allocations <ℤ total b.allocations)
allocate_negative k n b v =
    let free = available_exact b v in
    rw (granted k (negsuc n) b (omega (arith, free.1))) (
      refl,
      omega (
        int_laws,
        parts_of_eq (total-insert k (negsuc n) b.allocations),
        held_nonneg k b.allocations v.nonneg,
      ),
    )
