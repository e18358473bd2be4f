-- ===== src/Prelude/Map.antt =====
-- A Go map with keys that are numbers, as the list of its entries. The order of the list stands for
-- the order of iteration, which Go leaves open.
use florist_core.Prelude.{
  ℕ, ◌≡◌, refl, Option, none, some, List, [], ◌∷◌, arith, ◌==◌, if◌then◌else◌,
}

abbrev pub Map {ℓ} : Type ℓ → Type ℓ
Map V = List (ℕ × V)

module _ {ℓ} {V : Type ℓ} where
  abbrev pub lookup : ℕ → Map V → Option V
  lookup k [] = none
  lookup k ((j, v) ∷ m) = if j == k then some v else lookup k m

  -- `m[k] = v`
  abbrev pub insert : ℕ → V → Map V → Map V
  insert k v [] = (k, v) ∷ []
  insert k v ((j, w) ∷ m) = if j == k then (k, v) ∷ m else (j, w) ∷ insert k v m

  -- `delete(m, k)`
  abbrev pub erase : ℕ → Map V → Map V
  erase k [] = []
  erase k ((j, w) ∷ m) = if j == k then m else (j, w) ∷ erase k m

  -- No key is listed twice.
  abbrev pub NodupKeys : Map V → Type ℓ
  NodupKeys [] = Unit
  NodupKeys ((k, _) ∷ m) = (lookup k m ≡ none) × NodupKeys m

  pub lookup-insert :
      (k j : ℕ) (v : V) (m : Map V)
      → lookup j (insert k v m) ≡ (if k == j then some v else lookup j m)
  lookup-insert k j v [] = ground arith
  lookup-insert k j v ((i, w) ∷ m) = ground (arith, lookup-insert k j v m)

  pub lookup-erase :
      (k j : ℕ) (m : Map V)
      → NodupKeys m
      → lookup j (erase k m) ≡ (if k == j then none else lookup j m)
  lookup-erase k j [] u = ground arith
  lookup-erase k j ((i, w) ∷ m) u = ground (arith, lookup-erase k j m u.1)

  pub insert-NodupKeys : (k : ℕ) (v : V) (m : Map V) → NodupKeys m → NodupKeys (insert k v m)
  insert-NodupKeys k v [] u = (refl, tt)
  insert-NodupKeys k v ((i, w) ∷ m) u =
      ground (arith, insert-NodupKeys k v m u.1, lookup-insert k i v m)

  pub erase-NodupKeys : (k : ℕ) (m : Map V) → NodupKeys m → NodupKeys (erase k m)
  erase-NodupKeys k [] u = tt
  erase-NodupKeys k ((i, w) ∷ m) u = ground (arith, erase-NodupKeys k m u.1, lookup-erase k i m u.1)

  pub erase-insert_new :
      (k : ℕ) (v : V) (m : Map V) → lookup k m ≡ none → erase k (insert k v m) ≡ m
  erase-insert_new k v [] h = ground arith
  erase-insert_new k v ((i, w) ∷ m) h = ground (arith, erase-insert_new k v m)
