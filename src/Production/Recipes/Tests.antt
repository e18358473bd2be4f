-- ===== src/Production/Recipes/Tests.antt =====
-- The repository of recipes with one recipe in it.
use florist_core.Prelude.{String, ◌≡◌, refl, ◌⊎◌, [], ◌∷◌, true, false}
use florist_core.Prelude.Int.{pos}
use florist_core.Kernel.Errors.{Error, ok, err, driver, wrapped}
use florist_core.Production.Cost.{Recipe, create_recipe}
use florist_core.Production.Recipes.{Tables, upsert, save, without}
use florist_core.Production.Recipes.Store.{view, put, IsStorable}
use florist_core.Production.Recipes.Refine.{recipe_save_refines}
use florist_core.Production.Http.{CreateRecipeRequest, create_recipe_handler}
use florist_core.Http.{Response}
use florist_core.Db.{Session, with_labelled_tx, tx_exec}
use florist_core.Db.Atomic.{IsIdle}

abbrev bouquet : Recipe
bouquet = record {
  id = 1;
  name = "Bouquet";
  ingredients =
      record { material_id = 10; quantity = pos 5 }
      ∷ record { material_id = 11; quantity = pos 1 }
      ∷ [];
  version = pos 0;
}

abbrev tables : Tables
tables = record {
  recipes =
      record { id = 1; name = "Old"; version = pos 2; created_at = pos 1; updated_at = pos 1 } ∷ [];
  ingredients = record { recipe_id = 1; material_id = 12; quantity = pos 3 } ∷ [];
}

abbrev session : Session Tables (Unit {0})
session = record { committed = tables; working = tables; outside = tt; replies = [] }

-- A material that is there twice is refused by the primary key, and the old recipe stays.
twice :
    create_recipe
      (save (pos 9))
      1
      "Twice"
      (record { material_id = 10; quantity = pos 5 }
        ∷ record { material_id = 10; quantity = pos 1 }
        ∷ [])
      session
    ≡ (err (wrapped "RecipeRepository.Save insert ingredient" driver), session)
unfolding create_recipe save upsert without with_labelled_tx tx_exec
twice = refl

-- The last statement, the commit, fails.
unsure :
    (save
      (pos 9)
      bouquet
      (record session { replies = true ∷ true ∷ true ∷ true ∷ true ∷ false ∷ [] })).0
    ≡ err (wrapped "RecipeRepository.Save commit" driver)
unfolding save upsert without with_labelled_tx tx_exec
unsure = refl

recipe_save_refines_example :
    let (answer, s') = save (pos 9) bouquet session in
    IsIdle s'
    × (((e : Error) × (answer ≡ err e) × (s'.committed ≡ tables))
        ⊎ ((answer ≡ ok tt)
            × IsStorable bouquet.ingredients
            × (view s'.committed ≡ put bouquet (view tables))))
recipe_save_refines_example = recipe_save_refines (pos 9) bouquet session refl

abbrev request : CreateRecipeRequest
request = record {
  name = "Bouquet";
  ingredients = record { material_id = "m"; quantity = pos 5 } ∷ [];
}

abbrev serve : Session Tables (Unit {0}) → Response String × Session Tables (Unit {0})
serve =
    create_recipe_handler (save (pos 9)) (λ _. "error") (λ _. "1") (λ _. 10) (λ _. ok request) 1
      "{}"
