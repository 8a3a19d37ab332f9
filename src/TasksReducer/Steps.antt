-- ===== src/TasksReducer/Steps.antt =====
-- What each event of the server makes of a client's tasks.
use transcendence.Prelude.{
  ℕ, ◌≤◌, ◌≡◌, refl, sym, ap, subst, ◌∙◌, inl, inr, Bool, false, not, ◌&&◌, Option, some, List, [],
  ◌∷◌, ◌++◌, map, arith, leb, ◌==◌, ==_refl, Bool-cases, length, filter, any, find, All, pos,
}
use transcendence.Tasks.{TaskStatus, Task, status_index, has_id, in_column, is_other, place}
use transcendence.Tasks.Counts.{
  count, kept_in, size, shift_down, shift_up, id_of_found, shift_down-Shifts, shift_up-Shifts,
  ids-Shifts, find-Shifts,
}
use transcendence.Tasks.Board.{all, IsBoard, HasGap, take-HasGap, drop-HasGap}
use transcendence.Tasks.Moves.{moved, removed, created, ids-dropped, created-IsBoard}
use transcendence.Tasks.Order.{shifted, shifted-Shifts, find-moved}
use transcendence.TasksReducer.{
  task_created, task_updated, task_moved, task_deleted, TaskChanges, column_without, tasks_reducer,
}
use transcendence.TasksReducer.Columns.{Distinct, count_of_Occurs}
use transcendence.TasksReducer.Below.{length-column}
use transcendence.TasksReducer.Moved.{AllIn, column_without_is}
use transcendence.TasksReducer.Agrees.{move_to_is, same_task, All-of-Occurs}
use transcendence.TasksReducer.Reindex.{reindex_gap, reindex_dense, map-All, map-id}
use transcendence.TasksReducer.Views.{
  view, view-AllIn, find-view, size-view, view-IsBoard, view-moved,
}

module _ {Fields : Type 0} where
  -- One list of tasks of one project.
  pub reduced_move :
      (id p : ℕ) (x : Task Fields) (w : TaskStatus) (r : ℕ) (ts : List (Task Fields))
      → IsBoard ts
      → AllIn p ts
      → find (has_id id) ts ≡ some x
      → x.project_id ≡ p
      → r ≤ size p w (is_other (some id)) ts
      → tasks_reducer ts (task_moved id w (pos r)) ≡ moved id p x w r (λ f. f) ts
  unfolding tasks_reducer
  reduced_move id p x w r ts b h e ep fits =
      let is_id : x.id ≡ id = id_of_found id ts x e in
      let e' : find (has_id x.id) ts ≡ some x =
        subst (λ i. find (has_id i) ts ≡ some x) (sym is_id) e in
      let long : length (column_without x w ts) ≡ size p w (is_other (some x.id)) ts =
        ap length (column_without_is p x w ts h)
        ∙ length-column (kept_in p w (is_other (some x.id))) ts in
      let fits' : r ≤ length (column_without x w ts) = rw (long, is_id) fits in
      rw (e, tasks_reducer)
        (move_to_is p x w r ts b e' h ep fits' ∙ ap (λ i. moved i p x w r (λ f. f) ts) is_id)

  All-filter :
      (P : Task Fields → Type 0) (q : Task Fields → Bool) (ts : List (Task Fields))
      → All P ts
      → All P (filter q ts)
  All-filter P q [] h = tt
  All-filter P q (t ∷ ts) h = elim (Bool-cases (q t)) [
    | inl e ↦ rw e (h.0, All-filter P q ts h.1)
    | inr e ↦ rw e (All-filter P q ts h.1)
  ]

  pub reduced_delete :
      (id p : ℕ) (x : Task Fields) (ts : List (Task Fields))
      → IsBoard ts
      → AllIn p ts
      → find (has_id id) ts ≡ some x
      → x.project_id ≡ p
      → tasks_reducer ts (task_deleted id) ≡ removed id p x ts
  unfolding tasks_reducer
  reduced_delete id p x ts b h e ep =
      let gap : HasGap p x.status x.rank (is_other (some id)) ts =
        subst (λ q. HasGap q x.status x.rank (is_other (some id)) ts) ep
          (take-HasGap id ts x b e) in
      rw (e, tasks_reducer)
        (reindex_gap p x.status x.rank (filter (λ t. not (has_id id t)) ts)
          (All-filter (λ t. t.project_id ≡ p) _ ts h)
          (λ i. omega (arith, ids-dropped id i ts, b.ids i))
          (drop-HasGap id p x.status x.rank ts gap))

  -- `task:updated` carries the whole task.
  abbrev pub whole : Task Fields → TaskChanges Fields
  whole y = record { status = some y.status; rank = some y.rank; fields = λ _. y.fields }

  map-map :
      (f g k : Task Fields → Task Fields) (ts : List (Task Fields))
      → All (λ t. g (f t) ≡ k t) ts
      → map g (map f ts) ≡ map k ts
  map-map f g k [] a = refl
  map-map f g k (t ∷ ts) a = rw (a.0, map-map f g k ts a.1)

  -- After the move, the update brings the other fields.
  pub reduced_update :
      (id p : ℕ) (x : Task Fields) (w : TaskStatus) (r : ℕ) (patch : Fields → Fields)
      (ts : List (Task Fields))
      → IsBoard ts
      → find (has_id id) ts ≡ some x
      → tasks_reducer
          (moved id p x w r (λ f. f) ts)
          (task_updated id (whole (record x { status = w; rank = r; fields = patch x.fields })))
        ≡ moved id p x w r patch ts
  unfolding tasks_reducer
  reduced_update id p x w r patch ts b e =
      let us = map (shift_up p w r (is_other (some id))) (map (shift_down p x.status x.rank) ts) in
      let sh = shifted-Shifts id p x w r in
      let is_id : (shifted id p x w r x).id ≡ id = sh.id x ∙ id_of_found id ts x e in
      let found : find (has_id id) (moved id p x w r (λ f. f) ts)
          ≡ some (place w r (λ f. f) (shifted id p x w r x)) =
        rw (==_refl id) at (find-moved id p x w r (λ f. f) id ts x e) in
      let one_each : Distinct us = λ i.
        rw
          (
            ids-Shifts _ (shift_up-Shifts p w r (is_other (some id))) i
                (map (shift_down p x.status x.rank) ts),
            ids-Shifts _ (shift_down-Shifts p x.status x.rank) i ts,
          )
          (b.ids i) in
      let x_there : find (has_id (shifted id p x w r x).id) us ≡ some (shifted id p x w r x) =
        rw is_id (
          find-Shifts _ (shift_up-Shifts p w r (is_other (some id))) id _ _
            (find-Shifts _ (shift_down-Shifts p x.status x.rank) id ts x e)) in
      rw (found, tasks_reducer)
        (rw (==_refl (status_index w)) (
          map-map _ _ _ us (
            All-of-Occurs us (λ t o. elim (Bool-cases (has_id id t)) [
              | inr other ↦ rw (other, other)
              | inl here ↦
                  let is_x : t ≡ shifted id p x w r x =
                    same_task us t (shifted id p x w r x) one_each o x_there
                      (ground (arith, here, is_id)) in
                  let fields : t.fields ≡ x.fields = ap (λ u. u.fields) is_x ∙ sh.fields x in
                  rw (here, here, fields)
            ]))))

  pub one_of_some : {t u : Task Fields} → Path (Option (Task Fields)) (some t) (some u) → t ≡ u
  one_of_some h = cc

  pub reduced_events :
      (id : ℕ) (x y : Task Fields) (w : TaskStatus) (r : ℕ) (patch : Fields → Fields)
      (ts : List (Task Fields))
      → IsBoard ts
      → find (has_id id) ts ≡ some x
      → r ≤ size x.project_id w (is_other (some id)) ts
      → y ≡ record x { status = w; rank = r; fields = patch x.fields }
      → tasks_reducer
          (tasks_reducer (view x.project_id ts) (task_moved id w (pos r)))
          (task_updated id (whole y))
        ≡ view x.project_id (moved id x.project_id x w r patch ts)
  reduced_events id x y w r patch ts b e fits is_y =
      let p = x.project_id in
      let there = find-view p id ts x e refl in
      let board = view-IsBoard p ts b in
      let fits' : r ≤ size p w (is_other (some id)) (view p ts) =
        rw (size-view p p w (is_other (some id)) ts, ==_refl p) fits in
      let moves = reduced_move id p x w r (view p ts) board (view-AllIn p ts) there refl fits' in
      rw (moves, is_y)
        (reduced_update id p x w r patch (view p ts) board there
          ∙ sym (view-moved p id x w r patch ts))

  -- Where a task is added at the end of its column, the server moves no other task.
  unshifted :
      (p : ℕ) (v : TaskStatus) (ts : List (Task Fields))
      → IsBoard ts
      → map (shift_up p v (size p v all ts) all) ts ≡ ts
  unshifted p v ts b =
      map-All _ (λ t. t) ts
        (All-of-Occurs ts (λ t o. elim (Bool-cases (in_column p v t)) [
          | inr away ↦ rw away
          | inl here ↦
              let seen =
                count_of_Occurs (λ u. kept_in p v all u && u.rank == t.rank) t ts o
                  (rw (here, ==_refl t.rank)) in
              let before : leb (size p v all ts) t.rank ≡ false =
                ground (arith, seen, b.dense p v t.rank) in
              rw (here, before)
        ]))
      ∙ map-id ts

  view-append : (p : ℕ) (ts us : List (Task Fields)) → view p (ts ++ us) ≡ view p ts ++ view p us
  view-append p [] us = refl
  view-append p (t ∷ ts) us = ground (arith, view-append p ts us)

  absent :
      (id p : ℕ) (ts : List (Task Fields))
      → count (has_id id) ts ≡ 0
      → any (has_id id) (view p ts) ≡ false
  absent id p [] e = refl
  absent id p (t ∷ ts) e = ground (arith, absent id p ts)

  pub reduced_create :
      (x : Task Fields) (ts : List (Task Fields))
      → IsBoard ts
      → count (has_id x.id) ts ≡ 0
      → x.rank ≡ size x.project_id x.status all ts
      → tasks_reducer (view x.project_id ts) (task_created x)
        ≡ view x.project_id (created x.project_id x.status x.rank x ts)
  unfolding tasks_reducer
  reduced_create x ts b fresh last =
      let p = x.project_id in
      let appended : created p x.status x.rank x ts ≡ ts ++ x ∷ [] =
        ap (λ us. us ++ x ∷ [])
          (subst (λ r. map (shift_up p x.status r all) ts ≡ ts) (sym last)
            (unshifted p x.status ts b)) in
      let board : IsBoard (ts ++ x ∷ []) =
        subst IsBoard appended (created-IsBoard x ts b fresh (omega (arith, last))) in
      let seen : view p (ts ++ x ∷ []) ≡ view p ts ++ x ∷ [] =
        view-append p ts (x ∷ []) ∙ rw (==_refl p) in
      let shown : IsBoard (view p ts ++ x ∷ []) =
        subst IsBoard seen (view-IsBoard p (ts ++ x ∷ []) board) in
      rw (absent x.id p ts fresh, tasks_reducer)
        (reindex_dense p x.status _ (view p ts ++ x ∷ [])
            (subst (AllIn p) seen (view-AllIn p (ts ++ x ∷ []))) shown.ids (shown.dense p x.status)
          ∙ sym seen
          ∙ ap (view p) (sym appended))
