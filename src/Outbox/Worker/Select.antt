-- ===== src/Outbox/Worker/Select.antt =====
-- Which rows a round claims: eligible ones, the oldest, at most fifty.
use florist_core.Prelude.{
  ℕ, zero, suc, ◌≡◌, ◌≢◌, ◌≤◌, refl, sym, true, false, List, [], ◌∷◌, map, arith, length, All,
  All-imp, All-zip, All-All, Bool-cases, ◌==◌, inl, inr,
}
use florist_core.Outbox.Table.{OutboxRow, contains, ids, NodupIds}
use florist_core.Outbox.Worker.{
  is_eligible, eligible, insert_by_age, sort_by_age, take, batch_limit, selected, mark, returning,
}

-- Whatever row of the list has the identifier of this one is this one.
abbrev pub IsOnly : List OutboxRow → OutboxRow → Type 0
IsOnly rows e = All (λ r. r.id ≡ e.id → r ≡ e) rows

absent-All :
    (k : ℕ) (rows : List OutboxRow) → contains k (ids rows) ≡ false → All (λ r. r.id ≢ k) rows
absent-All k [] h = tt
absent-All k (r ∷ rows) h = (ground arith, absent-All k rows (ground arith))

pub IsOnly-NodupIds : (rows : List OutboxRow) → NodupIds rows → All (IsOnly rows) rows
IsOnly-NodupIds [] u = tt
IsOnly-NodupIds (r ∷ rows) (new, u) =
    let others = absent-All r.id rows new in
    (
      (
        λ _. refl,
        All-imp (λ x. x.id ≢ r.id) (λ x. x.id ≡ r.id → x ≡ r) (λ x ne e. absurd (ne e)) rows others,
      ),
      All-imp (λ x. (x.id ≢ r.id) × IsOnly rows x) (IsOnly (r ∷ rows))
          (λ x h. (λ e. absurd (h.0 (sym e)), h.1)) rows
          (All-zip (λ x. x.id ≢ r.id) (IsOnly rows) rows others (IsOnly-NodupIds rows u)),
    )

-- What holds of all rows holds of those selected, which are eligible besides.
module _ (P : OutboxRow → Type 0) where
  eligible-All :
      (rows : List OutboxRow) → All P rows → All (λ r. (is_eligible r ≡ true) × P r) (eligible rows)
  unfolding eligible
  eligible-All [] h = tt
  eligible-All (r ∷ rows) h = elim (Bool-cases (is_eligible r)) [
    | inl e ↦ rw e ((e, h.0), eligible-All rows h.1)
    | inr e ↦ rw e (eligible-All rows h.1)
  ]

  insert_by_age-All :
      (r : OutboxRow) (rows : List OutboxRow) → P r → All P rows → All P (insert_by_age r rows)
  unfolding insert_by_age
  insert_by_age-All r [] p h = (p, tt)
  insert_by_age-All r (x ∷ rows) p h = ground (arith, insert_by_age-All r rows p h.1)

  sort_by_age-All : (rows : List OutboxRow) → All P rows → All P (sort_by_age rows)
  unfolding sort_by_age
  sort_by_age-All [] h = tt
  sort_by_age-All (r ∷ rows) h =
      insert_by_age-All r (sort_by_age rows) h.0 (sort_by_age-All rows h.1)

  take-All : (n : ℕ) (rows : List OutboxRow) → All P rows → All P (take n rows)
  unfolding take
  take-All zero rows h = tt
  take-All (suc n) [] h = tt
  take-All (suc n) (r ∷ rows) h = (h.0, take-All n rows h.1)

-- What holds of all rows holds of those selected, and they are eligible.
pub selected-All :
    (P : OutboxRow → Type 0) (rows : List OutboxRow)
    → All P rows
    → All (λ r. (is_eligible r ≡ true) × P r) (selected rows)
unfolding selected
selected-All P rows h =
    let Q : OutboxRow → Type 0 = λ r. (is_eligible r ≡ true) × P r in
    take-All Q batch_limit (sort_by_age (eligible rows))
      (sort_by_age-All Q (eligible rows) (eligible-All P rows h))

take-length : (n : ℕ) (rows : List OutboxRow) → length (take n rows) ≤ n
unfolding take
take-length zero rows = omega arith
take-length (suc n) [] = omega arith
take-length (suc n) (r ∷ rows) = omega (arith, take-length n rows)

pub length-selected-le : (rows : List OutboxRow) → length (selected rows) ≤ batch_limit
unfolding selected
length-selected-le rows = take-length batch_limit (sort_by_age (eligible rows))

chosen_step :
    (e : OutboxRow) (sel : List OutboxRow)
    → is_eligible e ≡ true
    → (r : OutboxRow)
    → (r.id ≡ e.id → r ≡ e) × (contains r.id (ids sel) ≡ true → is_eligible r ≡ true)
    → contains r.id (ids (e ∷ sel)) ≡ true
    → is_eligible r ≡ true
chosen_step e sel ok r h c = elim (Bool-cases (e.id == r.id)) [
  | inl same ↦ let x : r ≡ e = h.0 (ground arith) in rw x ok
  | inr other ↦ h.1 (ground arith)
]

chosen_of :
    (rows sel : List OutboxRow)
    → All (λ e. (is_eligible e ≡ true) × IsOnly rows e) sel
    → All (λ r. contains r.id (ids sel) ≡ true → is_eligible r ≡ true) rows
chosen_of rows [] h =
    All-All (λ r. contains r.id (ids []) ≡ true → is_eligible r ≡ true) (λ r e. cc) rows
chosen_of rows (e ∷ sel) h =
    All-imp (λ r. (r.id ≡ e.id → r ≡ e) × (contains r.id (ids sel) ≡ true → is_eligible r ≡ true))
      (λ r. contains r.id (ids (e ∷ sel)) ≡ true → is_eligible r ≡ true) (chosen_step e sel h.0.0)
      rows
      (All-zip (λ r. r.id ≡ e.id → r ≡ e)
        (λ r. contains r.id (ids sel) ≡ true → is_eligible r ≡ true) rows h.0.1
        (chosen_of rows sel h.1))

-- With unique identifiers, the rows whose identifier is chosen are eligible ones.
pub chosen-eligible :
    (rows : List OutboxRow)
    → NodupIds rows
    → All (λ r. contains r.id (ids (selected rows)) ≡ true → is_eligible r ≡ true) rows
chosen-eligible rows u =
    chosen_of rows (selected rows) (selected-All (IsOnly rows) rows (IsOnly-NodupIds rows u))

pub ids-mark : (chosen : List ℕ) (rows : List OutboxRow) → ids (map (mark chosen) rows) ≡ ids rows
unfolding mark
ids-mark chosen [] = refl
ids-mark chosen (r ∷ rows) = ground (arith, ids-mark chosen rows)

pub NodupIds-ids : (xs ys : List OutboxRow) → ids xs ≡ ids ys → NodupIds ys → NodupIds xs
NodupIds-ids [] ys e u = tt
NodupIds-ids (x ∷ xs) [] e u = cc
NodupIds-ids (x ∷ xs) (y ∷ ys) e u = ground (arith, NodupIds-ids xs ys)

pub returning-All :
    (P : OutboxRow → Type 0) (chosen : List ℕ) (rows : List OutboxRow)
    → All P rows
    → All (λ r. (contains r.id chosen ≡ true) × P r) (returning chosen rows)
unfolding returning
returning-All P chosen [] h = tt
returning-All P chosen (r ∷ rows) h = elim (Bool-cases (contains r.id chosen)) [
  | inl e ↦ rw e ((e, h.0), returning-All P chosen rows h.1)
  | inr e ↦ rw e (returning-All P chosen rows h.1)
]
