-- ===== src/Production/Recipes/Store.antt =====
-- The two tables as one store of recipes, and what the statements of `Save` do to it.
use mathlib.Core.Path.{fun_ext}
use florist_core.Prelude.{
  Bool, ◌||◌, ◌≡◌, refl, false, Bool-cases, inl, inr, String, Option, none, some, List, [], ◌∷◌,
  ◌++◌, append, append_nil, ◌==◌, ◌&&◌, if◌then◌else◌, All, arith,
}
use florist_core.Prelude.Int.{ℤ, pos, ◌≤ℤ◌}
use florist_core.Kernel.Types.{RecipeId, IngredientId, Time}
use florist_core.Production.Cost.{Recipe, Ingredient}
use florist_core.Production.Recipes.{
  RecipeRow, IngredientRow, Tables, upsert, without, has_material, insert_ingredient,
}

-- What the tables hold of a recipe.
pub record StoredRecipe : Type 0 where
  pub name : String
  pub version : ℤ
  pub ingredients : List Ingredient

abbrev pub ingredients_of : RecipeId → List IngredientRow → List Ingredient
ingredients_of id [] = []
ingredients_of id (x ∷ rows) =
    let rest = ingredients_of id rows in
    if x.recipe_id == id
    then record { material_id = x.material_id; quantity = x.quantity } ∷ rest
    else rest

abbrev pub find_recipe : RecipeId → List Ingredient → List RecipeRow → Option StoredRecipe
find_recipe id ings [] = none
find_recipe id ings (x ∷ rows) =
    let rest = find_recipe id ings rows in
    if x.id == id
    then some (record { name = x.name; version = x.version; ingredients = ings })
    else rest

-- The store that the tables stand for: a recipe for each identifier, or none.
abbrev pub view : Tables → RecipeId → Option StoredRecipe
view t id = find_recipe id (ingredients_of id t.ingredients) t.recipes

abbrev pub stored : Recipe → StoredRecipe
stored r = record { name = r.name; version = r.version; ingredients = r.ingredients }

-- The store with one recipe put in.
abbrev pub put : Recipe → (RecipeId → Option StoredRecipe) → RecipeId → Option StoredRecipe
put r store id = if id == r.id then some (stored r) else store id

abbrev pub rows_for : RecipeId → List Ingredient → List IngredientRow
rows_for id [] = []
rows_for id (ing ∷ rest) =
    record { recipe_id = id; material_id = ing.material_id; quantity = ing.quantity }
    ∷ rows_for id rest

ingredients_of-append :
    (id : RecipeId) (xs ys : List IngredientRow)
    → ingredients_of id (xs ++ ys) ≡ ingredients_of id xs ++ ingredients_of id ys
ingredients_of-append id [] ys = refl
ingredients_of-append id (x ∷ xs) ys = ground (arith, ingredients_of-append id xs ys)

ingredients_of-without :
    (j id : RecipeId) (xs : List IngredientRow)
    → ingredients_of j (without id xs) ≡ (if j == id then [] else ingredients_of j xs)
unfolding without
ingredients_of-without j id [] = ground arith
ingredients_of-without j id (x ∷ xs) = ground (arith, ingredients_of-without j id xs)

ingredients_of-rows_for :
    (j id : RecipeId) (ings : List Ingredient)
    → ingredients_of j (rows_for id ings) ≡ (if j == id then ings else [])
ingredients_of-rows_for j id [] = ground arith
ingredients_of-rows_for j id (x ∷ ings) = ground (arith, ingredients_of-rows_for j id ings)

ingredients_rewritten :
    (j id : RecipeId) (ings : List Ingredient) (xs : List IngredientRow)
    → ingredients_of j (without id xs ++ rows_for id ings)
      ≡ (if j == id then ings else ingredients_of j xs)
ingredients_rewritten j id ings xs =
    rw
      (
        ingredients_of-append j (without id xs) (rows_for id ings),
        ingredients_of-without j id xs,
        ingredients_of-rows_for j id ings,
      )
      (elim (Bool-cases (j == id)) [
        | inl e ↦ rw e refl
        | inr e ↦ rw e (append_nil (ingredients_of j xs))
      ])

find_recipe-upsert :
    (now : Time) (r : Recipe) (j : RecipeId) (ings : List Ingredient) (rows : List RecipeRow)
    → find_recipe j ings (upsert now r rows) ≡ (
        if j == r.id
        then some (record { name = r.name; version = r.version; ingredients = ings })
        else find_recipe j ings rows)
unfolding upsert
find_recipe-upsert now r j ings [] = ground arith
find_recipe-upsert now r j ings (x ∷ rows) = ground (arith, find_recipe-upsert now r j ings rows)

-- The tables after a save.
abbrev pub after_save : Time → Recipe → Tables → Tables
after_save now r t = record {
  recipes = upsert now r t.recipes;
  ingredients = without r.id t.ingredients ++ rows_for r.id r.ingredients;
}

pub view-after_save :
    (now : Time) (r : Recipe) (t : Tables) → view (after_save now r t) ≡ put r (view t)
view-after_save now r t = fun_ext λ j.
    rw
      (
        ingredients_rewritten j r.id r.ingredients t.ingredients,
        find_recipe-upsert now r j
            (if j == r.id then r.ingredients else ingredients_of j t.ingredients) t.recipes,
      )
      (elim (Bool-cases (j == r.id)) [ inl e ↦ rw e refl | inr e ↦ rw e refl ])

abbrev pub row_for : RecipeId → Ingredient → IngredientRow
row_for id ing = record { recipe_id = id; material_id = ing.material_id; quantity = ing.quantity }

abbrev pub holds : IngredientId → List Ingredient → Bool
holds material [] = false
holds material (x ∷ ings) = x.material_id == material || holds material ings

-- The quantity of each ingredient is positive, and no material is there twice.
abbrev pub IsStorable : List Ingredient → Type 0
IsStorable [] = Unit
IsStorable (x ∷ ings) = (pos 1 ≤ℤ x.quantity) × (holds x.material_id ings ≡ false) × IsStorable ings

-- None of the materials is in the rows of the recipe.
abbrev pub IsNew : RecipeId → List IngredientRow → List Ingredient → Type 0
IsNew id rows ings = All (λ (y : Ingredient). has_material id y.material_id rows ≡ false) ings

has_material-append :
    (id : RecipeId) (m : IngredientId) (rows : List IngredientRow) (x : IngredientRow)
    → has_material id m (append rows x)
      ≡ (has_material id m rows || (x.recipe_id == id && x.material_id == m))
has_material-append id m [] x = ground arith
has_material-append id m (y ∷ rows) x = ground (arith, has_material-append id m rows x)

pub apart :
    (id : RecipeId) (x : Ingredient) (rows : List IngredientRow) (ings : List Ingredient)
    → IsNew id (append rows (row_for id x)) ings
    → (holds x.material_id ings ≡ false) × IsNew id rows ings
apart id x rows [] h = (refl, tt)
apart id x rows (y ∷ ings) h =
    ground (arith, apart id x rows ings, has_material-append id y.material_id rows (row_for id x))

pub inserted_ok :
    (id : RecipeId) (x : Ingredient) (t t' : Tables)
    → insert_ingredient (row_for id x) t ≡ some (tt, t')
    → (pos 1 ≤ℤ x.quantity)
      × (has_material id x.material_id t.ingredients ≡ false)
      × (t' ≡ record t { ingredients = append t.ingredients (row_for id x) })
inserted_ok id x t t' h = ground arith
