-- ===== src/Prisma.antt =====
-- The part of the Prisma client that the services call on one table (backend/src/prisma hands the
-- client out). Prisma and PostgreSQL are not part of the program: a table is a parameter, with the
-- documented effect of each call on its rows as laws. Serializable transactions take effect one
-- after another, so a service's transaction is a function on the table.
pub mod Memory
use mathlib.Core.Option
use mathlib.Core.List.{Perm}
use transcendence.Prelude.{
  ℕ, zero, suc, ◌+◌, ◌-◌, ◌*◌, ◌≤◌, ◌<◌, min, max, String, ◌≡◌, refl, sym, ap, subst, ◌∙◌, ◌≡⟨◌⟩◌,
  ◌∎, ◌≢◌, ◌↔◌, ◌⊎◌, inl, inr, Bool, true, false, not, ◌&&◌, ◌||◌, Option, none, some, List, [],
  ◌∷◌, ◌++◌, map, arith, ltb, leb, ◌==◌, if◌then◌else◌, ltb→lt, lt→ltb, leb→le, ==_iff, ==_refl,
  Bool-cases, Option-cases, length, filter, any, find, All, length-append, All-append, All-mono,
}

-- `rows` lists the rows in the order in which they were created. A `where` is a test on rows, the
-- `data` of an update a function on rows. `find_first` and `find_unique` are used where at most one
-- row fits; `update` and `delete` throw (P2025) where none does.
pub record Table (Row : Type 0) : Type 1 where
  pub State : Type 0
  pub rows : State → List Row
  pub find_first : (Row → Bool) → State → Option Row
  pub find_unique : (Row → Bool) → State → Option Row
  pub find_many : (Row → Bool) → State → List Row
  pub count : (Row → Bool) → State → ℕ
  pub create : Row → State → State
  pub create_many : List Row → State → State
  pub update_many : (Row → Bool) → (Row → Row) → State → State
  pub delete_many : (Row → Bool) → State → State
  pub update : (Row → Bool) → (Row → Row) → State → Option State
  pub delete : (Row → Bool) → State → Option (Row × State)
  pub find_first_lem :
      (p : Row → Bool) (s : State)
      → length (filter p (rows s)) ≤ 1
      → find_first p s ≡ find p (rows s)
  pub find_unique_lem :
      (p : Row → Bool) (s : State)
      → length (filter p (rows s)) ≤ 1
      → find_unique p s ≡ find p (rows s)
  pub find_many_lem : (p : Row → Bool) (s : State) → Perm (find_many p s) (filter p (rows s))
  pub count_lem : (p : Row → Bool) (s : State) → count p s ≡ length (filter p (rows s))
  pub rows-create : (r : Row) (s : State) → rows (create r s) ≡ rows s ++ r ∷ []
  pub rows-create_many : (rs : List Row) (s : State) → rows (create_many rs s) ≡ rows s ++ rs
  pub rows-update_many :
      (p : Row → Bool) (f : Row → Row) (s : State)
      → rows (update_many p f s) ≡ map (λ r. if p r then f r else r) (rows s)
  pub rows-delete_many :
      (p : Row → Bool) (s : State) → rows (delete_many p s) ≡ filter (λ r. not (p r)) (rows s)
  pub update_lem :
      (p : Row → Bool) (f : Row → Row) (s : State)
      → update p f s ≡ (if any p (rows s) then some (update_many p f s) else none)
  pub delete_lem :
      (p : Row → Bool) (s : State)
      → length (filter p (rows s)) ≤ 1
      → delete p s ≡ Option.map (λ r. (r, delete_many p s)) (find p (rows s))
