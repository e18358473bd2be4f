-- ===== src/Production/Cost/Bill.antt =====
-- What a calculated cost consists of.
use mathlib.Core.Path.{subst}
use florist_core.Prelude.{
  arith, append_assoc, append_nil, ◌≡◌, refl, sym, ap, ◌∙◌, String, List, [], ◌∷◌, ◌++◌, append,
  inl, inr,
}
use florist_core.Prelude.Int.{◌<ℤ◌, ◌≤ℤ◌, ℤ, pos, ◌+ℤ◌, ◌*ℤ◌, wrap64}
use florist_core.Kernel.Errors.{Result, ok}
use florist_core.Kernel.Errors.Cases.{err≢ok, ok_inj, Result-cases}
use florist_core.Kernel.Types.{IngredientId, RecipeId}
use florist_core.Production.Cost.{
  Ingredient, Recipe, CalcCostCommand, CostLine, CalcCostResult, at_least_one, cost_line, price_all,
  calc_cost,
}

-- The sum of the lines, from the first to the last, each step brought back to 64 bits.
abbrev pub sum_from : ℤ → List CostLine → ℤ
sum_from total [] = total
sum_from total (l ∷ ls) = sum_from (wrap64 (total +ℤ l.total)) ls

at_least_one_below : (q : ℤ) → q <ℤ pos 1 → at_least_one q ≡ pos 1
at_least_one_below q h = ground arith

at_least_one_above : (q : ℤ) → pos 1 ≤ℤ q → at_least_one q ≡ q
at_least_one_above q h = ground arith

module _ (parse : String → Result RecipeId) (text : IngredientId → String)
    (find_by_id : RecipeId → Result Recipe) (get_price : IngredientId → Result ℤ) where
  -- One line for each ingredient, in their order, at the price that the reader gives.
  abbrev pub IsBill : List Ingredient → List CostLine → Type 0
  IsBill [] [] = Unit
  IsBill (i ∷ is) (l ∷ ls) =
      (l.material_id ≡ text i.material_id)
      × (l.qty ≡ i.quantity)
      × (get_price i.material_id ≡ ok l.unit_price)
      × (l.total ≡ wrap64 (l.unit_price *ℤ l.qty))
      × IsBill is ls
  IsBill _ _ = ⊥

  price_all-IsBill :
      (ings : List Ingredient) (lines : List CostLine) (total t : ℤ) (out : List CostLine)
      → price_all parse text find_by_id get_price ings lines total ≡ ok (out, t)
      → (new : List CostLine) × (out ≡ lines ++ new) × IsBill ings new × (t ≡ sum_from total new)
  unfolding price_all
  price_all-IsBill [] lines total t out h = ([], cc (append_nil lines), tt, cc)
  price_all-IsBill (i ∷ is) lines total t out h = elim (Result-cases (get_price i.material_id)) [
    | inr (e, m) ↦ absurd (err≢ok (rw m at h))
    | inl (price, m) ↦
        let line = cost_line parse text find_by_id get_price i price in
        let (new, split, bill, sum) =
          price_all-IsBill is (append lines line) (wrap64 (total +ℤ line.total)) t out
            (rw m at h) in
        (line ∷ new, split ∙ append_assoc lines (line ∷ []) new, (refl, refl, m, refl, bill), sum)
  ]

  -- If the cost is calculated, the identifier was read and the recipe found; there is one line for
  -- each ingredient of it, in their order, with the price that the reader gives and the price times
  -- the quantity as its total; and the cost is the 64-bit sum of the lines times the number of
  -- bouquets, where a number below one counts as one, brought back to 64 bits.
  pub calc_cost-IsBill :
      (cmd : CalcCostCommand) (r : CalcCostResult)
      → calc_cost parse text find_by_id get_price cmd ≡ ok r
      → (id : RecipeId) × (recipe : Recipe) × (parse cmd.recipe_id ≡ ok id)
        × (find_by_id id ≡ ok recipe)
        × (cmd.qty <ℤ pos 1 → r.qty ≡ pos 1)
        × (pos 1 ≤ℤ cmd.qty → r.qty ≡ cmd.qty)
        × IsBill recipe.ingredients r.lines
        × (r.total_cost ≡ wrap64 (sum_from (pos 0) r.lines *ℤ r.qty))
  unfolding calc_cost
  calc_cost-IsBill cmd r h = elim (Result-cases (parse cmd.recipe_id)) [
    | inr (e, m) ↦ absurd (err≢ok (rw m at h))
    | inl (id, m) ↦ elim (Result-cases (find_by_id id)) [
      | inr (e, f) ↦ absurd (err≢ok (rw (m, f) at h))
      | inl (recipe, f) ↦
          elim (Result-cases
            (price_all parse text find_by_id get_price recipe.ingredients [] (pos 0))) [
              | inr (e, p) ↦ absurd (err≢ok (rw (m, f, p) at h))
              | inl ((lines, total), p) ↦
                  let (out, out_lines, bill, sum) =
                    price_all-IsBill recipe.ingredients [] (pos 0) total lines p in
                  rw (ok_inj (rw (m, f, p) at h)) (
                    id,
                    recipe,
                    m,
                    f,
                    (λ below. at_least_one_below cmd.qty below),
                    (λ above. at_least_one_above cmd.qty above),
                    subst (IsBill recipe.ingredients) (sym out_lines) bill,
                    ap (λ z. wrap64 (z *ℤ at_least_one cmd.qty))
                        (sum ∙ ap (sum_from (pos 0)) (sym out_lines)),
                  )
            ]
    ]
  ]
