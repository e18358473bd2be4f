-- ===== src/Production/Recipes.antt =====
-- `RecipeRepository` of internal/production/infrastructure/postgres/recipe_repository.go over the tables of
-- migrations/002_production_recipes.up.sql. `NOW()` is an argument. What the database may refuse besides a
-- quantity that is not positive or a material twice is a statement that is not carried out.
pub mod Store
pub mod Refine
mod Tests
use florist_core.Prelude.{
  Bool, false, String, some, none, List, [], ◌∷◌, append, ◌==◌, ◌&&◌, ◌||◌, if◌then◌else◌,
}
use florist_core.Prelude.Int.{ℤ, pos, leb_ℤ}
use florist_core.Kernel.Errors.{wrapped}
use florist_core.Kernel.Types.{RecipeId, IngredientId, Time}
use florist_core.Production.Cost.{Recipe, Ingredient}
use florist_core.Db.{Action, Statement, pure, ◌>>=◌, ◌>>◌, wrap_error, tx_exec, with_labelled_tx}

pub record RecipeRow : Type 0 where
  pub id : RecipeId
  pub name : String
  pub version : ℤ
  pub created_at : Time
  pub updated_at : Time

pub record IngredientRow : Type 0 where
  pub recipe_id : RecipeId
  pub material_id : IngredientId
  pub quantity : ℤ

pub record Tables : Type 0 where
  pub recipes : List RecipeRow
  pub ingredients : List IngredientRow

-- `INSERT INTO recipes … ON CONFLICT (id) DO UPDATE SET …`
unfoldable pub upsert : Time → Recipe → List RecipeRow → List RecipeRow
upsert now r [] =
    record { id = r.id; name = r.name; version = r.version; created_at = now; updated_at = now }
    ∷ []
upsert now r (x ∷ rows) =
    let rest = upsert now r rows in
    if x.id == r.id
    then record x { name = r.name; version = r.version; updated_at = now } ∷ rows
    else x ∷ rest

abbrev pub upsert_recipe : Time → Recipe → Statement Tables (Unit {0})
upsert_recipe now r t = some (tt, record t { recipes = upsert now r t.recipes })

-- `DELETE FROM recipe_ingredients WHERE recipe_id = $1`
unfoldable pub without : RecipeId → List IngredientRow → List IngredientRow
without id [] = []
without id (x ∷ rows) = let rest = without id rows in if x.recipe_id == id then rest else x ∷ rest

abbrev pub delete_ingredients : RecipeId → Statement Tables (Unit {0})
delete_ingredients id t = some (tt, record t { ingredients = without id t.ingredients })

-- Whether the primary key is taken.
abbrev pub has_material : RecipeId → IngredientId → List IngredientRow → Bool
has_material id material [] = false
has_material id material (x ∷ rows) =
    (x.recipe_id == id && x.material_id == material) || has_material id material rows

abbrev pub insert_ingredient : IngredientRow → Statement Tables (Unit {0})
insert_ingredient row t =
    if leb_ℤ row.quantity (pos 0) || has_material row.recipe_id row.material_id t.ingredients
    then none
    else some (tt, record t { ingredients = append t.ingredients row })

module _ {X : Type 0} where
  -- The loop over the ingredients.
  unfoldable pub save_ingredients : RecipeId → List Ingredient → Action Tables X (Unit {0})
  save_ingredients id [] = pure tt
  save_ingredients id (ing ∷ rest) =
      wrap_error (wrapped "RecipeRepository.Save insert ingredient") (
        tx_exec (
          insert_ingredient
            (record { recipe_id = id; material_id = ing.material_id; quantity = ing.quantity })))
      >> save_ingredients id rest

  abbrev pub save_body : Time → Recipe → Action Tables X (Unit {0})
  save_body now r =
      wrap_error (wrapped "RecipeRepository.Save insert recipe") (tx_exec (upsert_recipe now r))
      >> (wrap_error (wrapped "RecipeRepository.Save delete ingredients")
            (tx_exec (delete_ingredients r.id))
          >> save_ingredients r.id r.ingredients)

  unfoldable pub save : Time → Recipe → Action Tables X (Unit {0})
  unfolding save_ingredients
  save now r =
      with_labelled_tx (wrapped "RecipeRepository.Save begin tx")
        (wrapped "RecipeRepository.Save commit") (save_body now r)
