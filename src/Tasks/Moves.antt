-- ===== src/Tasks/Moves.antt =====
-- The rows of the table after a transaction, and that a board stays a board.
use transcendence.Prelude.{
  ℕ, ◌≤◌, ◌≡◌, refl, ◌∙◌, Bool, true, not, Option, none, some, List, [], ◌∷◌, ◌++◌, map, arith,
  if◌then◌else◌, length, filter, any, find, ok, ℤ, pos, negsuc,
}
use transcendence.Prisma.{Table}
use transcendence.Tasks.{
  TaskStatus, Task, is_other, has_id, place, clamp, target_of, close_rank_gap, open_rank_slot,
  create_task, move_task, remove_task,
}
use transcendence.Tasks.Counts.{
  count, size, shift_down, shift_up, shift_down-Shifts, shift_up-Shifts, length-filter, ids-Shifts,
  find-Shifts, count-append, size-Shifts, kept_in,
}
use transcendence.Tasks.Board.{
  all, IsBoard, close-AllDense, open-HasGap, take-HasGap, drop-HasGap, place-AllDense, add-AllDense,
}

pub clamp-le : (w : Option ℤ) (n : ℕ) → clamp w n ≤ n
clamp-le none n = omega arith
clamp-le (some (pos i)) n = omega arith
clamp-le (some (negsuc i)) n = omega arith

module _ {Fields : Type 0} where
  ids-placed :
      (id : ℕ) (w : TaskStatus) (r : ℕ) (patch : Fields → Fields) (i : ℕ) (ts : List (Task Fields))
      → count (has_id i) (map (λ t. if has_id id t then place w r patch t else t) ts)
        ≡ count (has_id i) ts
  ids-placed id w r patch i [] = refl
  ids-placed id w r patch i (t ∷ ts) = ground (arith, ids-placed id w r patch i ts)

  pub ids-dropped :
      (id i : ℕ) (ts : List (Task Fields))
      → count (has_id i) (filter (λ t. not (has_id id t)) ts) ≤ count (has_id i) ts
  ids-dropped id i [] = omega arith
  ids-dropped id i (t ∷ ts) = ground (arith, ids-dropped id i ts)

  any-find :
      (p : Task Fields → Bool) (ts : List (Task Fields)) (x : Task Fields)
      → find p ts ≡ some x
      → any p ts ≡ true
  any-find p [] x e = cc
  any-find p (t ∷ ts) x e = ground (arith, any-find p ts x)

  abbrev pub created : ℕ → TaskStatus → ℕ → Task Fields → List (Task Fields) → List (Task Fields)
  created p v r x ts = map (shift_up p v r all) ts ++ x ∷ []

  -- What a move makes of the rows: the task `x` goes to rank `r` of the column `w`.
  abbrev pub moved :
      (id p : ℕ)
      → Task Fields
      → TaskStatus
      → ℕ
      → (Fields → Fields)
      → List (Task Fields)
      → List (Task Fields)
  moved id p x w r patch ts =
      map (λ t. if has_id id t then place w r patch t else t)
        (map (shift_up p w r (is_other (some id))) (map (shift_down p x.status x.rank) ts))

  abbrev pub removed : (id p : ℕ) → Task Fields → List (Task Fields) → List (Task Fields)
  removed id p x ts = map (shift_down p x.status x.rank) (filter (λ t. not (has_id id t)) ts)

  pub created-IsBoard :
      (x : Task Fields) (ts : List (Task Fields))
      → IsBoard ts
      → count (has_id x.id) ts ≡ 0
      → x.rank ≤ size x.project_id x.status all ts
      → IsBoard (created x.project_id x.status x.rank x ts)
  created-IsBoard x ts b fresh fits = record {
    ids = λ i. ground (
      arith,
      count-append (has_id i) (map (shift_up x.project_id x.status x.rank all) ts) (x ∷ []),
      ids-Shifts _ (shift_up-Shifts x.project_id x.status x.rank all) i ts,
      b.ids i,
    );
    dense =
        add-AllDense (map (shift_up x.project_id x.status x.rank all) ts) x
          (open-HasGap x.project_id x.status x.rank all ts fits b.dense);
  }

  pub moved-IsBoard :
      (id : ℕ) (x : Task Fields) (w : TaskStatus) (r : ℕ) (patch : Fields → Fields)
      (ts : List (Task Fields))
      → IsBoard ts
      → find (has_id id) ts ≡ some x
      → r ≤ size x.project_id w (is_other (some id)) ts
      → IsBoard (moved id x.project_id x w r patch ts)
  moved-IsBoard id x w r patch ts b e fits =
      let down = shift_down-Shifts x.project_id x.status x.rank in
      let up = shift_up-Shifts x.project_id w r (is_other (some id)) in
      let ts1 = map (shift_down x.project_id x.status x.rank) ts in
      let ts2 = map (shift_up x.project_id w r (is_other (some id))) ts1 in
      let ids : (i : ℕ) → count (has_id i) ts2 ≤ 1 =
        λ i. rw (ids-Shifts _ up i ts1, ids-Shifts _ down i ts) (b.ids i) in
      let fits' : r ≤ size x.project_id w (is_other (some id)) ts1 =
        rw (size-Shifts _ down x.project_id w (is_other (some id)) ts) fits in
      let x1 = shift_down x.project_id x.status x.rank x in
      record {
        ids = λ i. rw (ids-placed id w r patch i ts2) (ids i);
        dense =
            place-AllDense id x.project_id w r patch ts2
              (shift_up x.project_id w r (is_other (some id)) x1) ids
              (find-Shifts _ up id ts1 x1 (find-Shifts _ down id ts x e))
              (up.project_id x1 ∙ down.project_id x)
              (open-HasGap x.project_id w r (is_other (some id)) ts1 fits' (
                close-AllDense x.project_id x.status x.rank (is_other (some id)) ts
                  (take-HasGap id ts x b e)));
      }

  pub removed-IsBoard :
      (id : ℕ) (x : Task Fields) (ts : List (Task Fields))
      → IsBoard ts
      → find (has_id id) ts ≡ some x
      → IsBoard (removed id x.project_id x ts)
  removed-IsBoard id x ts b e = record {
    ids = λ i. omega (
      arith,
      ids-Shifts _ (shift_down-Shifts x.project_id x.status x.rank) i
          (filter (λ t. not (has_id id t)) ts),
      ids-dropped id i ts,
      b.ids i,
    );
    dense =
        close-AllDense x.project_id x.status x.rank all _
          (drop-HasGap id x.project_id x.status x.rank ts (take-HasGap id ts x b e));
  }

module _ {Fields : Type 0} (T : Table (Task Fields)) where
  close-rows :
      (p : ℕ) (v : TaskStatus) (r : ℕ) (s : T.State)
      → T.rows (close_rank_gap T p v r s) ≡ map (shift_down p v r) (T.rows s)
  unfolding close_rank_gap
  close-rows p v r s = T.rows-update_many _ _ s

  open-rank :
      (p : ℕ) (v : TaskStatus) (w : Option ℤ) (ex : Option ℕ) (s : T.State)
      → (open_rank_slot T p v w ex s).1 ≡ clamp w (size p v (is_other ex) (T.rows s))
  unfolding open_rank_slot
  open-rank p v w ex s = rw (T.count_lem _ s, length-filter (kept_in p v (is_other ex)) (T.rows s))

  open-rows :
      (p : ℕ) (v : TaskStatus) (w : Option ℤ) (ex : Option ℕ) (s : T.State)
      → T.rows (open_rank_slot T p v w ex s).0
        ≡ map (shift_up p v (open_rank_slot T p v w ex s).1 (is_other ex)) (T.rows s)
  unfolding open_rank_slot
  open-rows p v w ex s = T.rows-update_many _ _ s

  pub at_most_one :
      (id : ℕ) (s : T.State) → IsBoard (T.rows s) → length (filter (has_id id) (T.rows s)) ≤ 1
  at_most_one id s b = rw (length-filter (has_id id) (T.rows s)) (b.ids id)

  pub create_task_rows :
      (id p : ℕ) (v : TaskStatus) (w : Option ℤ) (fields : Fields) (s : T.State)
      → let r = clamp w (size p v all (T.rows s)) in
        ((create_task T id p v w fields s).1 ≡ r)
        × (T.rows (create_task T id p v w fields s).0
            ≡ created p v r
                (record { id = id; project_id = p; status = v; rank = r; fields = fields })
                (T.rows s))
  unfolding create_task
  create_task_rows id p v w fields s = (
    open-rank p v w none s,
    rw (
      T.rows-create _ (open_rank_slot T p v w none s).0,
      open-rows p v w none s,
      open-rank p v w none s,
    ),
  )

  -- Where a moved task comes to stand: clamped in the column as it is without the task.
  abbrev pub landing : (id p : ℕ) → TaskStatus → Option ℤ → List (Task Fields) → ℕ
  landing id p w wanted ts = clamp wanted (size p w (is_other (some id)) ts)

  open_rank-close :
      (id p : ℕ) (v : TaskStatus) (r : ℕ) (w : TaskStatus) (wanted : Option ℤ) (s : T.State)
      → (open_rank_slot T p w wanted (some id) (close_rank_gap T p v r s)).1
        ≡ landing id p w wanted (T.rows s)
  open_rank-close id p v r w wanted s = rw (
    open-rank p w wanted (some id) (close_rank_gap T p v r s),
    close-rows p v r s,
    size-Shifts (shift_down p v r) (shift_down-Shifts p v r) p w (is_other (some id)) (T.rows s),
  )

  open_rows-close :
      (id p : ℕ) (v : TaskStatus) (r : ℕ) (w : TaskStatus) (wanted : Option ℤ) (s : T.State)
      → T.rows (open_rank_slot T p w wanted (some id) (close_rank_gap T p v r s)).0
        ≡ map
            (shift_up p w (landing id p w wanted (T.rows s)) (is_other (some id)))
            (map (shift_down p v r) (T.rows s))
  open_rows-close id p v r w wanted s = rw (
    open-rows p w wanted (some id) (close_rank_gap T p v r s),
    close-rows p v r s,
    open_rank-close id p v r w wanted s,
  )

  pub move_task_rows :
      (id p : ℕ) (requested : Option TaskStatus) (wanted : Option ℤ) (patch : Fields → Fields)
      (s : T.State) (x : Task Fields)
      → IsBoard (T.rows s)
      → find (has_id id) (T.rows s) ≡ some x
      → let w = target_of requested x.status in
        let r = landing id p w wanted (T.rows s) in
        ((move_task T id p requested wanted patch s).1 ≡ ok (w, r))
        × (T.rows (move_task T id p requested wanted patch s).0 ≡ moved id p x w r patch (T.rows s))
  unfolding move_task
  move_task_rows id p requested wanted patch s x b e =
      let w = target_of requested x.status in
      let s1 = close_rank_gap T p x.status x.rank s in
      let s2 = (open_rank_slot T p w wanted (some id) s1).0 in
      let r = (open_rank_slot T p w wanted (some id) s1).1 in
      let found : T.find_unique (has_id id) s ≡ some x =
        T.find_unique_lem (has_id id) s (at_most_one id s b) ∙ e in
      let down = shift_down-Shifts p x.status x.rank in
      let up = shift_up-Shifts p w (landing id p w wanted (T.rows s)) (is_other (some id)) in
      let there : any (has_id id) (T.rows s2) ≡ true =
        any-find (has_id id) (T.rows s2)
          (shift_up p w (landing id p w wanted (T.rows s)) (is_other (some id))
            (shift_down p x.status x.rank x))
          (rw (open_rows-close id p x.status x.rank w wanted s)
            (find-Shifts _ up id _ _ (find-Shifts _ down id (T.rows s) x e))) in
      let done : T.update (has_id id) (place w r patch) s2
          ≡ some (T.update_many (has_id id) (place w r patch) s2) =
        rw there at (T.update_lem (has_id id) (place w r patch) s2) in
      (
        rw (found, move_task, done, open_rank-close id p x.status x.rank w wanted s),
        rw (
          found,
          move_task,
          done,
          T.rows-update_many (has_id id) (place w r patch) s2,
          open_rows-close id p x.status x.rank w wanted s,
          open_rank-close id p x.status x.rank w wanted s,
        ),
      )

  pub remove_task_rows :
      (id p : ℕ) (s : T.State) (x : Task Fields)
      → IsBoard (T.rows s)
      → find (has_id id) (T.rows s) ≡ some x
      → ((remove_task T id p s).1 ≡ ok x)
        × (T.rows (remove_task T id p s).0 ≡ removed id p x (T.rows s))
  unfolding remove_task
  remove_task_rows id p s x b e =
      let gone : T.delete (has_id id) s ≡ some (x, T.delete_many (has_id id) s) =
        rw e at (T.delete_lem (has_id id) s (at_most_one id s b)) in
      (
        rw (gone, remove_task),
        rw (
          gone,
          remove_task,
          close-rows p x.status x.rank (T.delete_many (has_id id) s),
          T.rows-delete_many (has_id id) s,
        ),
      )
