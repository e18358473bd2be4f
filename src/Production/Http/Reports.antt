-- ===== src/Production/Http/Reports.antt =====
-- What the status of an answer says of the recipes that are stored.
use florist_core.Prelude.{◌≡◌, ◌⊎◌, String, map}
use florist_core.Kernel.Errors.{Result, ok}
use florist_core.Kernel.Types.{RecipeId, IngredientId}
use florist_core.Production.Cost.{Recipe, new_recipe}
use florist_core.Production.Recipes.{Tables}
use florist_core.Production.Recipes.Store.{view, put, IsStorable}
use florist_core.Production.Http.{CreateRecipeRequest, ingredient_of}
use florist_core.Http.{Response}
use florist_core.Db.{Session}
use florist_core.Db.Atomic.{IsIdle}

-- The recipe that a request asks for.
abbrev pub requested : (String → IngredientId) → RecipeId → CreateRecipeRequest → Result Recipe
requested material id req = new_recipe id req.name (map (ingredient_of material) req.ingredients)

module _ {X : Type 0} (material : String → IngredientId) where
  -- What a request to create a recipe may come to once it is decoded.
  abbrev pub IsCreated :
      RecipeId
      → CreateRecipeRequest
      → Session Tables X
      → Response String × Session Tables X
      → Type 0
  IsCreated id req s (response, s') =
      IsIdle s'
      × (((response.status ≡ 500) × (s'.committed ≡ s.committed))
          ⊎ ((recipe : Recipe) × (response.status ≡ 201)
              × (requested material id req ≡ ok recipe)
              × IsStorable recipe.ingredients
              × (view s'.committed ≡ put recipe (view s.committed))))
