-- ===== src/JsMap/Laws.antt =====
-- What `Map` promises of `get`, `set` and `delete`.
use transcendence.Prelude.{
  ℕ, ◌≡◌, refl, subst, inl, inr, Bool, false, ◌&&◌, none, some, List, [], ◌∷◌, arith, ◌==◌,
  if◌then◌else◌, Bool-cases, any,
}
use transcendence.JsMap.{get, set, delete}

module _ {ℓ} {V : Type ℓ} where
  pub get-set :
      (k j : ℕ) (v : V) (m : List (ℕ × V))
      → get j (set k v m) ≡ (if j == k then some v else get j m)
  unfolding get set
  get-set k j v [] = refl
  get-set k j v ((i, w) ∷ m) = ground (arith, get-set k j v m)

  pub get-delete :
      (k j : ℕ) (m : List (ℕ × V)) → get j (delete k m) ≡ (if j == k then none else get j m)
  unfolding get delete
  get-delete k j [] = ground arith
  get-delete k j ((i, w) ∷ m) = ground (arith, get-delete k j m)

  -- No key stands twice: a list that a `Map` can be.
  abbrev pub UniqueKeys : List (ℕ × V) → Type ℓ
  UniqueKeys [] = Unit
  UniqueKeys ((k, v) ∷ m) = (get k m ≡ none) × UniqueKeys m

  pub set-UniqueKeys : (k : ℕ) (v : V) (m : List (ℕ × V)) → UniqueKeys m → UniqueKeys (set k v m)
  unfolding get set
  set-UniqueKeys k v [] h = (refl, tt)
  set-UniqueKeys k v ((j, w) ∷ m) h = ground (arith, set-UniqueKeys k v m, get-set k j v m)

  pub delete-UniqueKeys : (k : ℕ) (m : List (ℕ × V)) → UniqueKeys m → UniqueKeys (delete k m)
  unfolding get delete
  delete-UniqueKeys k [] h = tt
  delete-UniqueKeys k ((j, w) ∷ m) h = ground (arith, delete-UniqueKeys k m, get-delete k j m)

  -- What holds of every value that the map holds.
  abbrev pub Values : (V → Type 0) → List (ℕ × V) → Type 0
  Values P [] = Unit
  Values P ((k, v) ∷ m) = P v × Values P m

  pub get-Values :
      (P : V → Type 0) (k : ℕ) (v : V) (m : List (ℕ × V)) → Values P m → get k m ≡ some v → P v
  unfolding get
  get-Values P k v [] h e = cc
  get-Values P k v ((j, w) ∷ m) h e = elim (Bool-cases (k == j)) [
    | inl same ↦ subst P (ground arith) h.0
    | inr other ↦ get-Values P k v m h.1 (ground arith)
  ]

  pub set-Values :
      (P : V → Type 0) (k : ℕ) (v : V) (m : List (ℕ × V)) → P v → Values P m → Values P (set k v m)
  unfolding set
  set-Values P k v [] p h = (p, tt)
  set-Values P k v ((j, w) ∷ m) p h = ground (arith, set-Values P k v m p)

  pub delete-Values :
      (P : V → Type 0) (k : ℕ) (m : List (ℕ × V)) → Values P m → Values P (delete k m)
  unfolding delete
  delete-Values P k [] h = tt
  delete-Values P k ((j, w) ∷ m) h = ground (arith, delete-Values P k m)

  -- A test that some entry passes is a test of the value that is held, if no key stands twice.
  pub any-get :
      (p : V → Bool) (j : ℕ) (m : List (ℕ × V))
      → UniqueKeys m
      → any (λ e. e.0 == j && p e.1) m ≡ (elim (get j m) [ none ↦ false | some v ↦ p v ])
  unfolding get
  any-get p j [] h = refl
  any-get p j ((k, v) ∷ m) h = ground (arith, any-get p j m h.1)
