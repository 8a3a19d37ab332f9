-- ===== src/Tasks/Order.antt =====
-- What a move does to the task that is moved and to the order of the others.
use transcendence.Prelude.{
  ℕ, ◌+◌, ◌-◌, ◌<◌, ◌≡◌, refl, ◌∙◌, inl, inr, Bool, true, false, ◌&&◌, Option, some, List, arith,
  ltb, leb, ◌==◌, if◌then◌else◌, ==_refl, Bool-cases, find, ok, ℤ,
}
use transcendence.Prisma.{Table}
use transcendence.Tasks.{TaskStatus, Task, is_other, in_column, has_id, place, target_of, move_task}
use transcendence.Tasks.Counts.{
  kept_in, shift_down, shift_up, Shifts, shift_down-Shifts, shift_up-Shifts, if-rank, find-Shifts,
  find-placed, id_of_found, count_of_found,
}
use transcendence.Tasks.Board.{IsBoard, same_column_refl, cards-taken}
use transcendence.Tasks.Moves.{moved, move_task_rows, landing}

abbrev pub after_down : Bool → ℕ → ℕ → ℕ
after_down c r a = if c && ltb r a then a - 1 else a

abbrev pub after_up : Bool → ℕ → Bool → ℕ → ℕ
after_up c r k a = if c && leb r a && k then a + 1 else a

mono :
    (c d : Bool) (r q a b : ℕ)
    → a < b
    → (c ≡ true → (a == r) ≡ false)
    → (c ≡ true → (b == r) ≡ false)
    → after_up d q true (after_down c r a) < after_up d q true (after_down c r b)
mono true true r q a b h n m = ground (arith, n refl, m refl)
mono true false r q a b h n m = ground (arith, n refl, m refl)
mono false true r q a b h n m = ground arith
mono false false r q a b h n m = ground arith

module _ {Fields : Type 0} where
  -- What a move makes of a task other than the moved one.
  abbrev pub shifted : (id p : ℕ) → Task Fields → TaskStatus → ℕ → Task Fields → Task Fields
  shifted id p x w r t = shift_up p w r (is_other (some id)) (shift_down p x.status x.rank t)

  pub shifted-Shifts :
      (id p : ℕ) (x : Task Fields) (w : TaskStatus) (r : ℕ) → Shifts (shifted id p x w r)
  shifted-Shifts id p x w r =
      let down = shift_down-Shifts p x.status x.rank in
      let up = shift_up-Shifts p w r (is_other (some id)) in
      record {
        id = λ t. up.id _ ∙ down.id t;
        project_id = λ t. up.project_id _ ∙ down.project_id t;
        status = λ t. up.status _ ∙ down.status t;
        fields = λ t. up.fields _ ∙ down.fields t;
      }

  pub find-moved :
      (id p : ℕ) (x : Task Fields) (w : TaskStatus) (r : ℕ) (patch : Fields → Fields) (i : ℕ)
      (ts : List (Task Fields)) (y : Task Fields)
      → find (has_id i) ts ≡ some y
      → find (has_id i) (moved id p x w r patch ts)
        ≡ some (if i == id then place w r patch (shifted id p x w r y) else shifted id p x w r y)
  find-moved id p x w r patch i ts y e =
      find-placed id i (place w r patch) _ _ (λ t. refl)
        (find-Shifts _ (shift_up-Shifts p w r (is_other (some id))) i _ _
          (find-Shifts _ (shift_down-Shifts p x.status x.rank) i ts y e))

  -- Another card of the moved card's column does not stand at the moved card's rank.
  rank-apart :
      (id i : ℕ) (ts : List (Task Fields)) (x y : Task Fields)
      → IsBoard ts
      → find (has_id id) ts ≡ some x
      → find (has_id i) ts ≡ some y
      → (i == id) ≡ false
      → in_column x.project_id x.status y ≡ true
      → (y.rank == x.rank) ≡ false
  rank-apart id i ts x y b e ey apart h = elim (Bool-cases (y.rank == x.rank)) [
    | inr n ↦ n
    | inl same ↦
        let test : Task Fields → Bool =
          λ t. kept_in x.project_id x.status (is_other (some id)) t && t.rank == x.rank in
        let other : is_other (some id) y.id ≡ true = rw (id_of_found i ts y ey, apart) in
        let seen : test y ≡ true = rw (h, other, same) in
        let one_at_least = count_of_found i test ts y ey seen in
        ground (
          arith,
          rw (same_column_refl x.project_id x.status) at
              (cards-taken id ts x (b.ids id) e x.project_id x.status x.rank),
          b.dense x.project_id x.status x.rank,
        )
  ]

  pub shifted-rank :
      (id p : ℕ) (x : Task Fields) (w : TaskStatus) (r : ℕ) (t : Task Fields)
      → (shifted id p x w r t).rank
        ≡ after_up
            (in_column p w t)
            r
            (is_other (some id) t.id)
            (after_down (in_column p x.status t) x.rank t.rank)
  shifted-rank id p x w r t =
      let down = shift_down-Shifts p x.status x.rank in
      let t1 = shift_down p x.status x.rank t in
      let down_rank : t1.rank ≡ after_down (in_column p x.status t) x.rank t.rank =
        if-rank (in_column p x.status t && ltb x.rank t.rank) (λ k. k - 1) t in
      let column : in_column p w t1 ≡ in_column p w t = rw (down.project_id t, down.status t) in
      let other : is_other (some id) t1.id ≡ is_other (some id) t.id = rw (down.id t) in
      rw (← down_rank, ← column, ← other)
        (if-rank (in_column p w t1 && leb r t1.rank && is_other (some id) t1.id) (λ k. k + 1) t1)

  column-eq :
      (p : ℕ) (v : TaskStatus) (y z : Task Fields)
      → y.project_id ≡ z.project_id
      → y.status ≡ z.status
      → in_column p v y ≡ in_column p v z
  column-eq p v y z e h = rw (e, h)

  shifted-lt :
      (id i j : ℕ) (ts : List (Task Fields)) (x y z : Task Fields) (w : TaskStatus) (r : ℕ)
      → IsBoard ts
      → find (has_id id) ts ≡ some x
      → find (has_id i) ts ≡ some y
      → find (has_id j) ts ≡ some z
      → (i == id) ≡ false
      → (j == id) ≡ false
      → y.project_id ≡ z.project_id
      → y.status ≡ z.status
      → y.rank < z.rank
      → (shifted id x.project_id x w r y).rank < (shifted id x.project_id x w r z).rank
  shifted-lt id i j ts x y z w r b e ey ez ni nj ep ev h =
      let p = x.project_id in
      let other_y : is_other (some id) y.id ≡ true = rw (id_of_found i ts y ey, ni) in
      let other_z : is_other (some id) z.id ≡ true = rw (id_of_found j ts z ez, nj) in
      rw
        (
          shifted-rank id p x w r y,
          shifted-rank id p x w r z,
          other_y,
          other_z,
          column-eq p w y z ep ev,
          column-eq p x.status y z ep ev,
        )
        (mono (in_column p x.status z) (in_column p w z) x.rank r y.rank z.rank h
          (λ c. rank-apart id i ts x y b e ey ni (column-eq p x.status y z ep ev ∙ c))
          (λ c. rank-apart id j ts x z b e ez nj c))

module _ {Fields : Type 0} (T : Table (Task Fields)) where
  -- On a board that has the task, a move answers with the column asked for (or the task's own) and
  -- the rank asked for, clamped to the length of that column without the task; and this is where
  -- the task then stands, with its other fields patched.
  pub move_task_lands :
      (id : ℕ) (requested : Option TaskStatus) (wanted : Option ℤ) (patch : Fields → Fields)
      (s : T.State) (x : Task Fields)
      → IsBoard (T.rows s)
      → find (has_id id) (T.rows s) ≡ some x
      → let w = target_of requested x.status in
        let r = landing T id x.project_id w wanted (T.rows s) in
        let after = move_task T id x.project_id requested wanted patch s in
        (after.1 ≡ ok (w, r))
        × (find (has_id id) (T.rows after.0)
            ≡ some (record {
              id = id;
              project_id = x.project_id;
              status = w;
              rank = r;
              fields = patch x.fields;
            }))
  move_task_lands id requested wanted patch s x b e =
      let w = target_of requested x.status in
      let p = x.project_id in
      let r = landing T id p w wanted (T.rows s) in
      let sh = shifted-Shifts id p x w r in
      let (answer, rows) = move_task_rows T id p requested wanted patch s x b e in
      (
        answer,
        rw rows (
            rw (==_refl id, sh.id x, sh.project_id x, sh.fields x, id_of_found id (T.rows s) x e) at
              (find-moved id p x w r patch id (T.rows s) x e)),
      )

  -- On a board that has the task that is moved, two other tasks of one column stay in that column
  -- and in their order.
  pub move_task_keeps_order :
      (id i j : ℕ) (requested : Option TaskStatus) (wanted : Option ℤ) (patch : Fields → Fields)
      (s : T.State) (x y z : Task Fields)
      → IsBoard (T.rows s)
      → find (has_id id) (T.rows s) ≡ some x
      → find (has_id i) (T.rows s) ≡ some y
      → find (has_id j) (T.rows s) ≡ some z
      → (i == id) ≡ false
      → (j == id) ≡ false
      → y.project_id ≡ z.project_id
      → y.status ≡ z.status
      → y.rank < z.rank
      → let after = T.rows (move_task T id x.project_id requested wanted patch s).0 in
        (y' z' : Task Fields) × (find (has_id i) after ≡ some y')
        × (find (has_id j) after ≡ some z')
        × (y'.project_id ≡ y.project_id)
        × (z'.project_id ≡ z.project_id)
        × (y'.status ≡ y.status)
        × (z'.status ≡ z.status)
        × (y'.rank < z'.rank)
  move_task_keeps_order id i j requested wanted patch s x y z b e ey ez ni nj ep ev h =
      let w = target_of requested x.status in
      let p = x.project_id in
      let r = landing T id p w wanted (T.rows s) in
      let sh = shifted-Shifts id p x w r in
      let rows = (move_task_rows T id p requested wanted patch s x b e).1 in
      (
        shifted id p x w r y,
        shifted id p x w r z,
        rw rows (rw ni at (find-moved id p x w r patch i (T.rows s) y ey)),
        rw rows (rw nj at (find-moved id p x w r patch j (T.rows s) z ez)),
        sh.project_id y,
        sh.project_id z,
        sh.status y,
        sh.status z,
        shifted-lt id i j (T.rows s) x y z w r b e ey ez ni nj ep ev h,
      )
