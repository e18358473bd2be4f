-- ===== src/Ordering/Repository/Eta.antt =====
-- The rows of a SKU, and the order of their arrival.
use mathlib.Core.List.{Perm, perm_middle}
use mathlib.Core.List.Perm
use florist_core.Prelude.{
  ◌≡◌, ◌≢◌, true, false, Bool-cases, inl, inr, Option, none, some, List, [], ◌∷◌, ◌++◌, All,
  All-imp, String, str_eq, str_eq_iff, arith,
}
use florist_core.Prelude.Int.{◌≤ℤ◌, ltb_ℤ}
use florist_core.Kernel.Types.{Time}
use florist_core.Ordering.BatchTables.{
  BatchRow, where_sku, sort_by_eta, insert_by_eta, before, eta_before,
}
use florist_core.Ordering.Repository.Rows.{insert_by_eta-All, sort_by_eta-All}

-- A batch with a date comes before one without, an earlier date first, and the one made first where the dates
-- leave it open.
abbrev pub Arrives : Option Time → Option Time → Time → Time → Type 0
Arrives (some a) (some b) made_a made_b = (a ≤ℤ b) × (b ≤ℤ a → made_a ≤ℤ made_b)
Arrives (some a) none made_a made_b = Unit
Arrives none (some b) made_a made_b = ⊥
Arrives none none made_a made_b = made_a ≤ℤ made_b

abbrev pub NoLater : BatchRow → BatchRow → Type 0
NoLater r x = Arrives r.eta x.eta r.created_at x.created_at

abbrev pub IsByEta : List BatchRow → Type 0
IsByEta [] = Unit
IsByEta (r ∷ rows) = All (NoLater r) rows × IsByEta rows

eta_before-Arrives :
    (a b : Option Time) (c d : Time) → eta_before a b (ltb_ℤ c d) ≡ true → Arrives a b c d
eta_before-Arrives (some a) (some b) c d h = (ground arith, λ k. ground arith)
eta_before-Arrives (some a) none c d h = tt
eta_before-Arrives none (some b) c d h = cc
eta_before-Arrives none none c d h = ground arith

eta_before-Arrives_not :
    (a b : Option Time) (c d : Time) → eta_before a b (ltb_ℤ c d) ≡ false → Arrives b a d c
eta_before-Arrives_not (some a) (some b) c d h = (ground arith, λ k. ground arith)
eta_before-Arrives_not (some a) none c d h = cc
eta_before-Arrives_not none (some b) c d h = tt
eta_before-Arrives_not none none c d h = ground arith

Arrives-trans :
    (a b e : Option Time) (c d f : Time) → Arrives a b c d → Arrives b e d f → Arrives a e c f
Arrives-trans (some a) (some b) (some e) c d f h k = (ground arith, λ l. ground arith)
Arrives-trans (some a) (some b) none c d f h k = tt
Arrives-trans (some a) none (some e) c d f h k = absurd k
Arrives-trans (some a) none none c d f h k = tt
Arrives-trans none (some b) e c d f h k = absurd h
Arrives-trans none none (some e) c d f h k = absurd k
Arrives-trans none none none c d f h k = ground arith

insert_by_eta-IsByEta :
    (r : BatchRow) (rows : List BatchRow) → IsByEta rows → IsByEta (insert_by_eta r rows)
unfolding insert_by_eta
insert_by_eta-IsByEta r [] h = (tt, tt)
insert_by_eta-IsByEta r (x ∷ rows) (h, hs) = elim (Bool-cases (before x r)) [
  | inl e ↦
      let first = eta_before-Arrives x.eta r.eta x.created_at r.created_at e in
      rw e (insert_by_eta-All (NoLater x) r rows first h, insert_by_eta-IsByEta r rows hs)
  | inr e ↦
      let second = eta_before-Arrives_not x.eta r.eta x.created_at r.created_at e in
      rw e (
        (
          second,
          All-imp (NoLater x) (NoLater r)
              (λ y k.
                Arrives-trans r.eta x.eta y.eta r.created_at x.created_at y.created_at second k)
              rows h,
        ),
        (h, hs),
      )
]

pub sort_by_eta-IsByEta : (rows : List BatchRow) → IsByEta (sort_by_eta rows)
unfolding sort_by_eta
sort_by_eta-IsByEta [] = tt
sort_by_eta-IsByEta (r ∷ rows) =
    insert_by_eta-IsByEta r (sort_by_eta rows) (sort_by_eta-IsByEta rows)

insert_by_eta-perm : (r : BatchRow) (rows : List BatchRow) → Perm (insert_by_eta r rows) (r ∷ rows)
unfolding insert_by_eta
insert_by_eta-perm r [] = Perm.refl (r ∷ [])
insert_by_eta-perm r (x ∷ rows) = elim (Bool-cases (before x r)) [
  | inl e ↦ rw e (Perm.trans (Perm.cons x (insert_by_eta-perm r rows)) (Perm.swap r x rows))
  | inr e ↦ rw e (Perm.refl (r ∷ x ∷ rows))
]

sort_by_eta-perm : (rows : List BatchRow) → Perm (sort_by_eta rows) rows
unfolding sort_by_eta
sort_by_eta-perm [] = Perm.refl []
sort_by_eta-perm (r ∷ rows) =
    Perm.trans (insert_by_eta-perm r (sort_by_eta rows)) (Perm.cons r (sort_by_eta-perm rows))

-- These are the rows of a SKU, in the order of their arrival, and the table has no others of it.
abbrev pub IsListing : String → List BatchRow → List BatchRow → Type 0
IsListing sku table rows =
    IsByEta rows
    × All (λ r. r.sku ≡ sku) rows
    × ((others : List BatchRow) × Perm (rows ++ others) table × All (λ r. r.sku ≢ sku) others)

sku_split :
    (sku : String) (rows : List BatchRow)
    → (others : List BatchRow) × Perm (where_sku sku rows ++ others) rows
      × All (λ r. r.sku ≡ sku) (where_sku sku rows)
      × All (λ r. r.sku ≢ sku) others
unfolding where_sku
sku_split sku [] = ([], Perm.refl [], tt, tt)
sku_split sku (r ∷ rows) =
    let (others, split, taken, left) = sku_split sku rows in
    let same = str_eq_iff r.sku sku in
    elim (Bool-cases (str_eq r.sku sku)) [
      | inl e ↦ rw e (others, Perm.cons r split, (same.0 e, taken), left)
      | inr e ↦ rw e (
        r ∷ others,
        Perm.trans (perm_middle (where_sku sku rows) others) (Perm.cons r split),
        taken,
        ((λ k. let h = same.1 k in cc), left),
      )
    ]

pub listing :
    (sku : String) (rows : List BatchRow) → IsListing sku rows (sort_by_eta (where_sku sku rows))
listing sku rows =
    let (others, split, taken, left) = sku_split sku rows in
    let own = where_sku sku rows in
    (
      sort_by_eta-IsByEta own,
      sort_by_eta-All (λ r. r.sku ≡ sku) own taken,
      (others, Perm.trans (Perm.append_right others (sort_by_eta-perm own)) split, left),
    )
