-- ===== src/Production.antt =====
-- The production context: recipes and what they cost.
pub mod Cost
pub mod Http
pub mod Recipes
