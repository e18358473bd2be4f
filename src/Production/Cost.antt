-- ===== src/Production/Cost.antt =====
-- internal/production/domain/recipe.go and internal/production/application/calc_cost.go. The parser of
-- identifiers, their text, the repository and the reader of prices are arguments.
pub mod Bill
mod Tests
use florist_core.Prelude.{
  ℕ, ◌≡◌, refl, ap, ◌∙◌, Bool, String, List, [], ◌∷◌, ◌++◌, map, str_eq, if◌then◌else◌, append, All,
  arith, ◌≤◌, ◌+◌, ◌⊎◌, inl, inr,
}
use Prim.Native.String.{◌++◌ as ◌<>◌}
use florist_core.Prelude.Int.{ℤ, pos, ◌+ℤ◌, ◌*ℤ◌, leb_ℤ, wrap64}
use florist_core.Kernel.Errors.{
  Error, Result, ok, err, wrapped, empty_recipe_name, no_ingredients, ◌>>=◌, wrap_result,
}
use florist_core.Kernel.Types.{IngredientId, RecipeId}

pub record Ingredient : Type 0 where
  pub material_id : IngredientId
  pub quantity : ℤ

-- `events` is never written.
pub record Recipe : Type 0 where
  pub id : RecipeId
  pub name : String
  pub ingredients : List Ingredient
  pub version : ℤ

abbrev pub recipe_of : RecipeId → String → List Ingredient → Result Recipe
recipe_of id name [] = err no_ingredients
recipe_of id name ingredients =
    ok (record { id = id; name = name; ingredients = ingredients; version = pos 0 })

unfoldable pub new_recipe : RecipeId → String → List Ingredient → Result Recipe
new_recipe id name ingredients =
    if str_eq name "" then err empty_recipe_name else recipe_of id name ingredients

-- `CreateRecipeHandler.Handle`; `id` is the new identifier, and `save` the call of the repository, on a
-- state of its own.
abbrev pub save_recipe :
    {S : Type 0} → (Recipe → S → Result (Unit {0}) × S) → Result Recipe → S → Result RecipeId × S
save_recipe save (err e) s = (err e, s)
save_recipe save (ok recipe) s = answer recipe.id (save recipe s)
  where
    answer : {S : Type 0} → RecipeId → Result (Unit {0}) × S → Result RecipeId × S
    answer id (ok _, s) = (ok id, s)
    answer id (err e, s) = (err e, s)

unfoldable pub create_recipe :
    {S : Type 0}
    → (Recipe → S → Result (Unit {0}) × S)
    → RecipeId
    → String
    → List Ingredient
    → S
    → Result RecipeId × S
unfolding new_recipe
create_recipe save id name ingredients s = save_recipe save (new_recipe id name ingredients) s

pub record CalcCostCommand : Type 0 where
  pub recipe_id : String
  pub qty : ℤ

pub record CostLine : Type 0 where
  pub material_id : String
  pub qty : ℤ
  pub unit_price : ℤ
  pub total : ℤ

pub record CalcCostResult : Type 0 where
  pub recipe_id : String
  pub qty : ℤ
  pub lines : List CostLine
  pub total_cost : ℤ

abbrev pub at_least_one : ℤ → ℤ
at_least_one qty = if leb_ℤ qty (pos 0) then pos 1 else qty

module _ (parse : String → Result RecipeId) (text : IngredientId → String)
    (find_by_id : RecipeId → Result Recipe) (get_price : IngredientId → Result ℤ) where
  abbrev pub cost_line : Ingredient → ℤ → CostLine
  cost_line ing price = record {
    material_id = text ing.material_id;
    qty = ing.quantity;
    unit_price = price;
    total = wrap64 (price *ℤ ing.quantity);
  }

  -- The loop over the ingredients, with `result.Lines` and `total`.
  unfoldable pub price_all : List Ingredient → List CostLine → ℤ → Result (List CostLine × ℤ)
  price_all [] lines total = ok (lines, total)
  price_all (ing ∷ rest) lines total =
      wrap_result (wrapped ("CalcCostHandler: get price for " <> text ing.material_id))
        (get_price ing.material_id)
      >>= λ price.
          price_all rest (append lines (cost_line ing price))
            (wrap64 (total +ℤ wrap64 (price *ℤ ing.quantity)))

  unfoldable pub calc_cost : CalcCostCommand → Result CalcCostResult
  unfolding price_all
  calc_cost cmd = do
    recipe_id ← wrap_result (wrapped "CalcCostHandler: invalid recipe id") (parse cmd.recipe_id)
    recipe ← wrap_result (wrapped "CalcCostHandler: load recipe") (find_by_id recipe_id)
    (lines, total) ← price_all recipe.ingredients [] (pos 0)
    ok (record {
      recipe_id = cmd.recipe_id;
      qty = at_least_one cmd.qty;
      lines = lines;
      total_cost = wrap64 (total *ℤ at_least_one cmd.qty);
    })
