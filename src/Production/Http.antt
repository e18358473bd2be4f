-- ===== src/Production/Http.antt =====
-- internal/production/http/handlers.go. `strconv.Atoi` is an argument, and so is the conversion of a text
-- to an identifier of a material. `CreateRecipe` answers with the plain text of an error.
pub mod Reports
use florist_core.Prelude.{String, Option, none, some, List, map, str_eq, if◌then◌else◌}
use florist_core.Prelude.Int.{ℤ, pos, ltb_ℤ}
use florist_core.Kernel.Errors.{Error, Result, ok, err}
use florist_core.Kernel.Types.{RecipeId, IngredientId}
use florist_core.Production.Cost.{Recipe, Ingredient, CalcCostResult, create_recipe, calc_cost}
use florist_core.Http.{Response, json, http_error, error_json}

pub record RequestIngredient : Type 0 where
  pub material_id : String
  pub quantity : ℤ

-- `createRecipeRequest`
pub record CreateRecipeRequest : Type 0 where
  pub name : String
  pub ingredients : List RequestIngredient

-- The body of the loop over the request's ingredients.
abbrev pub ingredient_of : (String → IngredientId) → RequestIngredient → Ingredient
ingredient_of material ing = record {
  material_id = material ing.material_id;
  quantity = ing.quantity;
}

abbrev pub created :
    {S : Type 0}
    → (Error → String)
    → (RecipeId → String)
    → Result RecipeId × S
    → Response String × S
created text_of text_of_id (ok id, s) = (record { status = 201; content = json (text_of_id id) }, s)
created text_of text_of_id (err e, s) = (http_error (text_of e) 500, s)

abbrev create_decoded :
    {S : Type 0}
    → (Recipe → S → Result (Unit {0}) × S)
    → (Error → String)
    → (RecipeId → String)
    → (String → IngredientId)
    → RecipeId
    → Result CreateRecipeRequest
    → S
    → Response String × S
create_decoded save text_of text_of_id material id (err e) s = (http_error (text_of e) 400, s)
create_decoded save text_of text_of_id material id (ok req) s =
    created text_of text_of_id
      (create_recipe save id req.name (map (ingredient_of material) req.ingredients) s)

-- `CreateRecipe`
unfoldable pub create_recipe_handler :
    {S : Type 0}
    → (Recipe → S → Result (Unit {0}) × S)
    → (Error → String)
    → (RecipeId → String)
    → (String → IngredientId)
    → (String → Result CreateRecipeRequest)
    → RecipeId
    → String
    → S
    → Response String × S
unfolding create_recipe
create_recipe_handler save text_of text_of_id material decode id body s =
    create_decoded save text_of text_of_id material id (decode body) s

-- `if n, err := strconv.Atoi(q); err == nil && n > 0 { qty = n }`
abbrev positive_or_one : Option ℤ → ℤ
positive_or_one none = pos 1
positive_or_one (some n) = if ltb_ℤ (pos 0) n then n else pos 1

abbrev pub qty_of : (String → Option ℤ) → String → ℤ
qty_of atoi q = if str_eq q "" then pos 1 else positive_or_one (atoi q)

abbrev priced : (Error → String) → Result CalcCostResult → Response CalcCostResult
priced text_of (ok result) = record { status = 200; content = json result }
priced text_of (err e) = http_error (error_json (text_of e)) 500

-- `CalcCost`, with the parameter `id` of the path and `qty` of the query.
unfoldable pub calc_cost_handler :
    (String → Result RecipeId)
    → (IngredientId → String)
    → (RecipeId → Result Recipe)
    → (IngredientId → Result ℤ)
    → (Error → String)
    → (String → Option ℤ)
    → String
    → String
    → Response CalcCostResult
unfolding calc_cost
calc_cost_handler parse text find_by_id get_price text_of atoi recipe_id q = priced text_of (
    calc_cost parse text find_by_id get_price
      (record { recipe_id = recipe_id; qty = qty_of atoi q }))
