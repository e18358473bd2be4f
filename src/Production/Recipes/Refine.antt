-- ===== src/Production/Recipes/Refine.antt =====
-- `Save` against the store of recipes that the tables stand for.
use mathlib.Core.Path.{subst}
use florist_core.Prelude.{
  ◌≡◌, refl, ◌∙◌, ap, ◌⊎◌, inl, inr, List, [], ◌∷◌, ◌++◌, append_assoc, append_nil,
}
use florist_core.Kernel.Errors.{Error, ok, err, wrapped}
use florist_core.Kernel.Types.{RecipeId, Time}
use florist_core.Production.Cost.{Recipe, Ingredient}
use florist_core.Production.Recipes.{
  Tables, upsert, upsert_recipe, without, delete_ingredients, insert_ingredient, save_ingredients,
  save_body, save,
}
use florist_core.Db.{Action, Session, ◌>>◌, begin, tx_exec, wrap_error}
use florist_core.Db.Atomic.{
  IsPending, IsIdle, bind-IsPending, bind_ok, wrapped_exec_ok, wrapped_exec-IsPending,
  begin-working, with_labelled_tx_atomic,
}
use florist_core.Production.Recipes.Store.{
  view, put, rows_for, row_for, after_save, view-after_save, IsStorable, IsNew, inserted_ok, apart,
}

module _ {X : Type 0} where
  save_ingredients-IsPending :
      (id : RecipeId) (ings : List Ingredient) → IsPending {X = X} (save_ingredients id ings)
  unfolding save_ingredients
  save_ingredients-IsPending id [] = λ s. refl
  save_ingredients-IsPending id (x ∷ ings) =
      bind-IsPending _ _ (wrapped_exec-IsPending _ _) (λ _. save_ingredients-IsPending id ings)

  -- What the success of the loop over the ingredients says.
  save_ingredients_ok :
      (id : RecipeId) (ings : List Ingredient) (s : Session Tables X)
      → (save_ingredients id ings s).0 ≡ ok tt
      → IsStorable ings
        × IsNew id s.working.ingredients ings
        × ((save_ingredients id ings s).1.working
            ≡ record s.working { ingredients = s.working.ingredients ++ rows_for id ings })
  unfolding save_ingredients
  save_ingredients_ok id [] s h = (tt, tt, rw (append_nil s.working.ingredients) refl)
  save_ingredients_ok id (x ∷ ings) s h =
      let text = wrapped "RecipeRepository.Save insert ingredient" in
      let first = wrap_error text (tx_exec {X = X} (insert_ingredient (row_for id x))) in
      let (_, done, rest, same) = bind_ok first (λ _. save_ingredients id ings) tt s h in
      let put_in = wrapped_exec_ok text (insert_ingredient (row_for id x)) tt s done in
      let (positive, new, e) = inserted_ok id x s.working (first s).1.working put_in in
      let (storable, later, end) = save_ingredients_ok id ings (first s).1 rest in
      let (single, news) =
        apart id x s.working.ingredients ings
          (subst (λ (t : Tables). IsNew id t.ingredients ings) e later) in
      (
        (positive, single, storable),
        (new, news),
        ap (λ z. z.working) same
            ∙ end
            ∙ ap (λ (t : Tables). record t { ingredients = t.ingredients ++ rows_for id ings }) e
            ∙ ap (λ l. record s.working { ingredients = l })
                (append_assoc s.working.ingredients (row_for id x ∷ []) (rows_for id ings)),
      )

  abbrev first_step : Time → Recipe → Action Tables X (Unit {0})
  first_step now r =
      wrap_error (wrapped "RecipeRepository.Save insert recipe") (tx_exec (upsert_recipe now r))

  abbrev second_step : Recipe → Action Tables X (Unit {0})
  second_step r =
      wrap_error (wrapped "RecipeRepository.Save delete ingredients")
        (tx_exec (delete_ingredients r.id))

  save_body-IsPending : (now : Time) (r : Recipe) → IsPending {X = X} (save_body now r)
  save_body-IsPending now r =
      let tail : IsPending (second_step r >> save_ingredients r.id r.ingredients) =
        bind-IsPending {B = Unit {0}} (second_step r) (λ _. save_ingredients r.id r.ingredients)
          (wrapped_exec-IsPending (wrapped "RecipeRepository.Save delete ingredients")
            (delete_ingredients r.id))
          (λ _. save_ingredients-IsPending r.id r.ingredients) in
      bind-IsPending {B = Unit {0}} (first_step now r)
        (λ _. second_step r >> save_ingredients r.id r.ingredients)
        (wrapped_exec-IsPending (wrapped "RecipeRepository.Save insert recipe")
          (upsert_recipe now r))
        (λ _. tail)

  save_body_ok :
      (now : Time) (r : Recipe) (s : Session Tables X)
      → (save_body now r s).0 ≡ ok tt
      → IsStorable r.ingredients × ((save_body now r s).1.working ≡ after_save now r s.working)
  save_body_ok now r s h =
      let third = save_ingredients {X = X} r.id r.ingredients in
      let (_, done, rest, same) = bind_ok (first_step now r) (λ _. second_step r >> third) tt s h in
      let s1 = (first_step now r s).1 in
      let (_, done2, rest2, same2) = bind_ok (second_step r) (λ _. third) tt s1 rest in
      let s2 = (second_step r s1).1 in
      let put_in =
        wrapped_exec_ok (wrapped "RecipeRepository.Save insert recipe") (upsert_recipe now r) tt s
          done in
      let dropped =
        wrapped_exec_ok (wrapped "RecipeRepository.Save delete ingredients")
          (delete_ingredients r.id) tt s1 done2 in
      let e1 : s1.working ≡ record s.working { recipes = upsert now r s.working.recipes } = cc in
      let e2 : s2.working
          ≡ record s1.working { ingredients = without r.id s1.working.ingredients } =
        cc in
      let (storable, _, end) = save_ingredients_ok r.id r.ingredients s2 rest2 in
      (
        storable,
        ap (λ z. z.working) (same ∙ same2)
            ∙ end
            ∙ ap
                (λ (t : Tables). record t {
                  ingredients = t.ingredients ++ rows_for r.id r.ingredients;
                })
                e2
            ∙ ap
                (λ (t : Tables). record t {
                  ingredients = without r.id t.ingredients ++ rows_for r.id r.ingredients;
                })
                e1,
      )

  -- Whatever statements fail, `Save` of a recipe with no transaction open either answers with an error
  -- and commits nothing, or every quantity of the recipe is positive and no material is in it twice, and
  -- the store that the tables stand for has the recipe as it was given, and every other one as before.
  pub recipe_save_refines :
      (now : Time) (r : Recipe) (s : Session Tables X)
      → IsIdle s
      → let (answer, s') = save now r s in
        IsIdle s'
        × (((e : Error) × (answer ≡ err e) × (s'.committed ≡ s.committed))
            ⊎ ((answer ≡ ok tt)
                × IsStorable r.ingredients
                × (view s'.committed ≡ put r (view s.committed))))
  unfolding save
  recipe_save_refines now r s idle =
      let all =
        with_labelled_tx_atomic (wrapped "RecipeRepository.Save begin tx")
          (wrapped "RecipeRepository.Save commit") (save_body now r) s (save_body-IsPending now r)
          idle in
      let w = begin-working s idle in
      (
        all.0,
        elim all.1 [
          | inl failed ↦ inl failed
          | inr (x, a, q, c) ↦
              let (storable, end) = save_body_ok now r (begin s).1 q in
              inr (
                a,
                storable,
                ap view (c ∙ end ∙ ap (after_save now r) w) ∙ view-after_save now r s.committed,
              )
        ],
      )
