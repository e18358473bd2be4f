-- ===== src/Ordering/Repository/Update.antt =====
-- `Update` on the store of batches.
use mathlib.Core.Path.{fun_ext}
use florist_core.Prelude.{
  ℕ, ◌≡◌, ◌≢◌, refl, sym, ◌∙◌, ap, true, Bool-cases, Option-cases, inl, inr, Option, none, some,
  List, [], ◌∷◌, ◌++◌, append, append_assoc, append_nil, ◌==◌, arith,
}
use florist_core.Prelude.Map.{Map, NodupKeys}
use florist_core.Prelude.Int.{ℤ, pos, ◌+ℤ◌, eq_ℤ, eq_of_parts}
use florist_core.Kernel.Errors.{ok, wrapped}
use florist_core.Kernel.Types.{BatchId, Time}
use florist_core.Ordering.Allocation.{Batch, reconstruct_batch}
use florist_core.Ordering.BatchTables.{
  BatchRow, BatchAllocationRow, Tables, update_rows, update_batch, without, find_row,
  insert_allocation, delete_allocations,
}
use florist_core.Ordering.Repository.{row_to_domain, save_allocations, lock_check, update_tx}
use florist_core.Ordering.Repository.Store.{
  view, put, NodupIds, rows_for, allocs_back, allocations_rewritten, updated, row_is_current,
  update_rows_stale, update_rows_current,
}
use florist_core.Db.{Session, tx_exec, wrap_error, ◌>>◌}
use florist_core.Db.Atomic.{
  IsPending, bind-IsPending, bind_ok, wrapped_exec_ok, wrapped_exec-IsPending,
}

-- The batch as it is stored by an update.
abbrev pub next : Batch → Batch
next b = record b { version = b.version +ℤ pos 1 }

find_row-id :
    (id : BatchId) (rows : List BatchRow) {r : BatchRow} → find_row id rows ≡ some r → r.id ≡ id
unfolding find_row
find_row-id id [] h = cc
find_row-id id (x ∷ rows) {r = r} h = ground (arith, find_row-id id rows {r = r})

-- The tables after an update that meets its row.
abbrev pub after_update : Time → Time → Batch → Tables → Tables
after_update now at b t = record {
  batches = (update_rows now b t.batches).1;
  allocations = without b.id t.allocations ++ rows_for at b.id b.allocations;
}

domain_back :
    (now at : Time) (b : Batch) (r : BatchRow)
    → NodupKeys b.allocations
    → r.id ≡ b.id
    → eq_ℤ r.version b.version ≡ true
    → row_to_domain (updated now b r) (rows_for at b.id b.allocations) ≡ next b
unfolding row_to_domain reconstruct_batch
domain_back now at b r u e v =
    let w : r.version ≡ b.version = eq_of_parts r.version b.version (ground arith) in
    ground (arith, allocs_back at b.id b.allocations u, ap (λ x. x +ℤ pos 1) w)

not_current : (b : Batch) (o : Option BatchRow) → o ≡ none → row_is_current b o ≡ true → ⊥
not_current b none e h = cc
not_current b (some r) e h = cc

current_version :
    (b : Batch) (o : Option BatchRow) (r : BatchRow)
    → o ≡ some r
    → row_is_current b o ≡ true
    → eq_ℤ r.version b.version ≡ true
current_version b o r e h = rw e at h

pub view-after_update :
    (now at : Time) (b : Batch) (t : Tables)
    → NodupIds t.batches
    → NodupKeys b.allocations
    → row_is_current b (find_row b.id t.batches) ≡ true
    → view (after_update now at b t) ≡ put b.id (next b) (view t)
view-after_update now at b t u k c = fun_ext λ j.
    rw
      (
        (update_rows_current now b j t.batches u c).1,
        allocations_rewritten j b.id at b.allocations t.allocations,
      )
      (elim (Option-cases (find_row b.id t.batches)) [
        | inl e ↦ absurd (not_current b (find_row b.id t.batches) e c)
        | inr (r, e) ↦ rw e (elim (Bool-cases (j == b.id)) [
          | inl f ↦ rw f (
              ap some (
                domain_back now at b r k (find_row-id b.id t.batches e)
                  (current_version b _ r e c)))
          | inr f ↦ rw f refl
        ])
      ])

abbrev pub with_row : BatchAllocationRow → Tables → Tables
with_row row t = record t { allocations = append t.allocations row }

abbrev pub with_rows : List BatchAllocationRow → Tables → Tables
with_rows rows t = record t { allocations = t.allocations ++ rows }

abbrev dropped : BatchId → Tables → Tables
dropped id t = record t { allocations = without id t.allocations }

pub some_inj : {A : Type 0} {a b : A} → some a ≡ some b → a ≡ b
some_inj h = cc

is_met :
    (now : Time) (b : Batch) (rows : List BatchRow)
    → NodupIds rows
    → (update_rows now b rows).0 ≢ 0
    → row_is_current b (find_row b.id rows) ≡ true
is_met now b rows u met = elim (Bool-cases (row_is_current b (find_row b.id rows))) [
  | inl e ↦ e
  | inr e ↦ absurd (met (ap (λ z. z.0) (update_rows_stale now b rows u e)))
]

module _ {X : Type 0} where
  pub save_allocations_ok :
      (at : Time) (id : BatchId) (m : Map ℤ) (s : Session Tables X)
      → (save_allocations at id m s).0 ≡ ok tt
      → (save_allocations at id m s).1.working
        ≡ record s.working { allocations = s.working.allocations ++ rows_for at id m }
  unfolding save_allocations
  save_allocations_ok at id [] s h = rw (append_nil s.working.allocations) refl
  save_allocations_ok at id ((k, v) ∷ m) s h =
      let row : BatchAllocationRow = record {
        batch_id = id;
        order_id = k;
        qty = v;
        created_at = at;
      } in
      let label = wrapped "BatchRepository.saveAllocations" in
      let first = wrap_error label (tx_exec {X = X} (insert_allocation row)) in
      let (_, done, rest, same) = bind_ok first (λ _. save_allocations at id m) tt s h in
      let put_in = wrapped_exec_ok label (insert_allocation row) tt s done in
      let e : (first s).1.working ≡ with_row row s.working = cc in
      ap (λ z. z.working) same
      ∙ save_allocations_ok at id m (first s).1 rest
      ∙ ap (with_rows (rows_for at id m)) e
      ∙ ap (λ l. record s.working { allocations = l })
          (append_assoc s.working.allocations (row ∷ []) (rows_for at id m))

  pub save_allocations-IsPending :
      (at : Time) (id : BatchId) (m : Map ℤ) → IsPending {X = X} (save_allocations at id m)
  unfolding save_allocations
  save_allocations-IsPending at id [] = λ s. refl
  save_allocations-IsPending at id ((k, v) ∷ m) =
      bind-IsPending _ _ (wrapped_exec-IsPending _ _) (λ _. save_allocations-IsPending at id m)

  lock_check_ok :
      (n : ℕ) (s : Session Tables X) {x : Unit {0}}
      → (lock_check n s).0 ≡ ok x
      → (n ≢ 0) × ((lock_check n s).1 ≡ s)
  lock_check_ok n s h = ground arith

  lock_check-IsPending : (n : ℕ) → IsPending {X = X} (lock_check n)
  lock_check-IsPending n s = ground arith

  -- What the success of the body of an update says.
  pub update_tx_ok :
      (now at : Time) (b : Batch) (s : Session Tables X)
      → NodupIds s.working.batches
      → (update_tx now at b s).0 ≡ ok tt
      → (row_is_current b (find_row b.id s.working.batches) ≡ true)
        × ((update_tx now at b s).1.working ≡ after_update now at b s.working)
  unfolding update_tx
  update_tx_ok now at b s u h =
      let first =
        wrap_error (wrapped "BatchRepository.UpdateTx") (tx_exec {X = X} (update_batch now b)) in
      let second =
        wrap_error (wrapped "BatchRepository.UpdateTx delete allocations")
          (tx_exec {X = X} (delete_allocations b.id)) in
      let third = save_allocations {X = X} at b.id b.allocations in
      let (n, counted, rest, same) =
        bind_ok first (λ n. lock_check n >> (second >> third)) tt s h in
      let (_, passed, rest2, same2) =
        bind_ok (lock_check n) (λ _. second >> third) tt (first s).1 rest in
      let s1 = (lock_check {X = X} n (first s).1).1 in
      let (_, deleted, rest3, same3) = bind_ok second (λ _. third) tt s1 rest2 in
      let count =
        some_inj
          (wrapped_exec_ok (wrapped "BatchRepository.UpdateTx") (update_batch now b) n s counted) in
      let drop = some_inj (
        wrapped_exec_ok (wrapped "BatchRepository.UpdateTx delete allocations")
          (delete_allocations b.id) tt s1 deleted) in
      let (met, kept) = lock_check_ok n (first s).1 passed in
      (
        is_met now b s.working.batches u (λ e. met (sym (ap (λ z. z.0) count) ∙ e)),
        ap (λ z. z.working) (same ∙ same2 ∙ same3)
            ∙ save_allocations_ok at b.id b.allocations (second s1).1 rest3
            ∙ ap (with_rows (rows_for at b.id b.allocations)) (sym (ap (λ z. z.1) drop))
            ∙ ap (λ w. with_rows (rows_for at b.id b.allocations) (dropped b.id w))
                (ap (λ z. z.working) kept ∙ sym (ap (λ z. z.1) count)),
      )

  pub update_tx-IsPending : (now at : Time) (b : Batch) → IsPending {X = X} (update_tx now at b)
  unfolding update_tx
  update_tx-IsPending now at b =
      let third = save_allocations {X = X} at b.id b.allocations in
      let second =
        wrap_error (wrapped "BatchRepository.UpdateTx delete allocations")
          (tx_exec {X = X} (delete_allocations b.id)) in
      let tail : IsPending (second >> third) =
        bind-IsPending {B = Unit {0}} second (λ _. third)
          (wrapped_exec-IsPending (wrapped "BatchRepository.UpdateTx delete allocations")
            (delete_allocations b.id))
          (λ _. save_allocations-IsPending at b.id b.allocations) in
      bind-IsPending {B = Unit {0}}
        (wrap_error (wrapped "BatchRepository.UpdateTx") (tx_exec (update_batch now b)))
        (λ n. lock_check n >> (second >> third))
        (wrapped_exec-IsPending (wrapped "BatchRepository.UpdateTx") (update_batch now b))
        (λ n.
          bind-IsPending {B = Unit {0}} (lock_check n) (λ _. second >> third)
            (lock_check-IsPending n) (λ _. tail))
