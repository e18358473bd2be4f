-- ===== src/Production/Cost/Tests.antt =====
-- What three bouquets of two kinds of flowers cost.
use florist_core.Prelude.{◌≡◌, refl, String, [], ◌∷◌, ◌+◌}
use florist_core.Prelude.Int.{◌<ℤ◌, ◌≤ℤ◌, ℤ, pos, ◌*ℤ◌, ◌+ℤ◌, wrap64}
use florist_core.Kernel.Errors.{Result, ok, err, no_ingredients}
use florist_core.Kernel.Types.{IngredientId, RecipeId}
use florist_core.Production.Cost.{
  Recipe, CalcCostCommand, CalcCostResult, new_recipe, calc_cost, price_all,
}
use florist_core.Production.Cost.Bill.{IsBill, sum_from, calc_cost-IsBill}

abbrev parse : String → Result RecipeId
parse _ = ok 9

abbrev text : IngredientId → String
text _ = "flower"

abbrev bouquet : Recipe
bouquet = record {
  id = 9;
  name = "spring";
  ingredients =
      record { material_id = 1; quantity = pos 5 }
      ∷ record { material_id = 2; quantity = pos 2 }
      ∷ [];
  version = pos 1;
}

abbrev find_by_id : RecipeId → Result Recipe
find_by_id _ = ok bouquet

abbrev get_price : IngredientId → Result ℤ
get_price id = ok (pos (100 + id))

abbrev three : CalcCostCommand
three = record { recipe_id = "9"; qty = pos 3 }

abbrev bill : CalcCostResult
bill = record {
  recipe_id = "9";
  qty = pos 3;
  lines =
      record { material_id = "flower"; qty = pos 5; unit_price = pos 101; total = pos 505 }
      ∷ record { material_id = "flower"; qty = pos 2; unit_price = pos 102; total = pos 204 }
      ∷ [];
  total_cost = pos 2127;
}

no_bouquet : new_recipe 9 "spring" [] ≡ err no_ingredients
unfolding new_recipe
no_bouquet = refl

billed : calc_cost parse text find_by_id get_price three ≡ ok bill
unfolding calc_cost price_all wrap64 ◌*ℤ◌ ◌+ℤ◌
billed = refl

calc_cost-IsBill_example :
    (id : RecipeId) × (recipe : Recipe) × (parse "9" ≡ ok id)
    × (find_by_id id ≡ ok recipe)
    × (pos 3 <ℤ pos 1 → bill.qty ≡ pos 1)
    × (pos 1 ≤ℤ pos 3 → bill.qty ≡ pos 3)
    × IsBill parse text find_by_id get_price recipe.ingredients bill.lines
    × (bill.total_cost ≡ wrap64 (sum_from (pos 0) bill.lines *ℤ bill.qty))
calc_cost-IsBill_example = calc_cost-IsBill parse text find_by_id get_price three bill billed
