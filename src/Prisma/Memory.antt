-- ===== src/Prisma/Memory.antt =====
-- A table held in memory, which meets every law of `Table`.
use mathlib.Core.Option
use mathlib.Core.List.Perm
use transcendence.Prelude.{
  refl, not, none, some, List, [], ◌∷◌, ◌++◌, map, if◌then◌else◌, length, filter, any, find,
}
use transcendence.Prisma.{Table}

abbrev pub memory : (Row : Type 0) → Table Row
memory Row = record {
  State = List Row;
  rows = λ s. s;
  find_first = find;
  find_unique = find;
  find_many = filter;
  count = λ p s. length (filter p s);
  create = λ r s. s ++ r ∷ [];
  create_many = λ rs s. s ++ rs;
  update_many = λ p f s. map (λ r. if p r then f r else r) s;
  delete_many = λ p s. filter (λ r. not (p r)) s;
  update = λ p f s. if any p s then some (map (λ r. if p r then f r else r) s) else none;
  delete = λ p s. Option.map (λ r. (r, filter (λ r. not (p r)) s)) (find p s);
  find_first_lem = λ p s h. refl;
  find_unique_lem = λ p s h. refl;
  find_many_lem = λ p s. Perm.refl (filter p s);
  count_lem = λ p s. refl;
  rows-create = λ r s. refl;
  rows-create_many = λ rs s. refl;
  rows-update_many = λ p f s. refl;
  rows-delete_many = λ p s. refl;
  update_lem = λ p f s. refl;
  delete_lem = λ p s h. refl;
}
