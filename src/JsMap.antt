-- ===== src/JsMap.antt =====
-- The built-in `Map` of JavaScript: an association list in insertion order.
-- Its keys are opaque identifiers, which the program compares and nothing else.
pub mod Laws
use transcendence.Prelude.{ℕ, ◌==◌, if◌then◌else◌, Option, none, some, List, [], ◌∷◌}

module _ {ℓ} {V : Type ℓ} where
  unfoldable pub get : ℕ → List (ℕ × V) → Option V
  get k [] = none
  get k ((j, v) ∷ m) = if k == j then some v else get k m

  -- A key that is there keeps its place, a new one goes to the end.
  unfoldable pub set : ℕ → V → List (ℕ × V) → List (ℕ × V)
  set k v [] = (k, v) ∷ []
  set k v ((j, w) ∷ m) = if k == j then (j, v) ∷ m else (j, w) ∷ set k v m

  unfoldable pub delete : ℕ → List (ℕ × V) → List (ℕ × V)
  delete k [] = []
  delete k ((j, w) ∷ m) = if k == j then delete k m else (j, w) ∷ delete k m
