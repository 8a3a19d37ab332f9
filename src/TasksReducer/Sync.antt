-- ===== src/TasksReducer/Sync.antt =====
-- A client that shows the server's tasks of a project and applies the events that the server sends for a
-- change shows the server's tasks again.
use transcendence.Prelude.{ℕ, ◌≡◌, refl, sym, ap, ◌∙◌, Option, some, find, Result, ok, ℤ, pos}
use transcendence.Prisma.{Table}
use transcendence.Tasks.{
  TaskStatus, Task, Error, has_id, target_of, clamp, move_task, remove_task, create_task,
}
use transcendence.Tasks.Counts.{count, size, id_of_found}
use transcendence.Tasks.Board.{all, IsBoard}
use transcendence.Tasks.Moves.{
  move_task_rows, remove_task_rows, create_task_rows, landing, clamp-le,
}
use transcendence.Tasks.Order.{move_task_lands}
use transcendence.TasksReducer.{task_created, task_updated, task_moved, task_deleted, tasks_reducer}
use transcendence.TasksReducer.Moved.{task-eq}
use transcendence.TasksReducer.Views.{view, view-AllIn, find-view, view-IsBoard, view-removed}
use transcendence.TasksReducer.Steps.{
  whole, one_of_some, reduced_events, reduced_delete, reduced_create,
}

answered :
    (v w : TaskStatus) (k r : ℕ)
    → Path (Result Error (TaskStatus × ℕ)) (ok (v, k)) (ok (w, r))
    → (v ≡ w) × (k ≡ r)
answered v w k r e = (cc, cc)

module _ {Fields : Type 0} (T : Table (Task Fields)) where
  -- On a board that has the task, a client that shows the server's tasks of the project and
  -- applies the two events of a move (the place that the transaction answered, then the whole task
  -- as it is afterwards) shows the server's tasks of the project after it, whatever fields the
  -- move also patched.
  pub sync_move :
      (id : ℕ) (requested : Option TaskStatus) (wanted : Option ℤ) (patch : Fields → Fields)
      (s : T.State) (x y : Task Fields) (w : TaskStatus) (r : ℕ)
      → IsBoard (T.rows s)
      → find (has_id id) (T.rows s) ≡ some x
      → let after = move_task T id x.project_id requested wanted patch s in
        after.1 ≡ ok (w, r)
        → find (has_id id) (T.rows after.0) ≡ some y
        → tasks_reducer
            (tasks_reducer (view x.project_id (T.rows s)) (task_moved id w (pos r)))
            (task_updated id (whole y))
          ≡ view x.project_id (T.rows after.0)
  sync_move id requested wanted patch s x y w r b e answer there =
      let (lands, found) = move_task_lands T id requested wanted patch s x b e in
      let (ew, er) = answered _ w _ r (sym lands ∙ answer) in
      let w' = target_of requested x.status in
      let r' = landing T id x.project_id w' wanted (T.rows s) in
      let is_id = id_of_found id (T.rows s) x e in
      let same : Path (Option (Task Fields)) (some y) (
          some (record {
            id = id;
            project_id = x.project_id;
            status = w';
            rank = r';
            fields = patch x.fields;
          })) =
        sym there ∙ found in
      let is_y : y ≡ record x { status = w'; rank = r'; fields = patch x.fields } =
        one_of_some same ∙ task-eq _ _ (sym is_id) refl refl refl refl in
      rw (← ew, ← er, (move_task_rows T id x.project_id requested wanted patch s x b e).1)
        (reduced_events id x y w' r' patch (T.rows s) b e (clamp-le wanted _) is_y)

  -- On a board that has the task, a client that shows the server's tasks of the project and
  -- applies the event of the task's removal shows the server's tasks of the project after it.
  pub sync_remove :
      (id : ℕ) (s : T.State) (x : Task Fields)
      → IsBoard (T.rows s)
      → find (has_id id) (T.rows s) ≡ some x
      → tasks_reducer (view x.project_id (T.rows s)) (task_deleted id)
        ≡ view x.project_id (T.rows (remove_task T id x.project_id s).0)
  sync_remove id s x b e =
      let p = x.project_id in
      reduced_delete id p x (view p (T.rows s)) (view-IsBoard p (T.rows s) b)
        (view-AllIn p (T.rows s)) (find-view p id (T.rows s) x e refl) refl
      ∙ sym (view-removed p id x (T.rows s))
      ∙ ap (view p) (sym (remove_task_rows T id p s x b e).1)

  -- On a board, if a task with a new id is given the rank at the end of its column, then a client
  -- that shows the server's tasks of the project and applies the event of its creation shows the
  -- server's tasks of the project after it.
  pub sync_create :
      (id p : ℕ) (v : TaskStatus) (wanted : Option ℤ) (fields : Fields) (s : T.State)
      (x : Task Fields)
      → IsBoard (T.rows s)
      → count (has_id id) (T.rows s) ≡ 0
      → let after = create_task T id p v wanted fields s in
        after.1 ≡ size p v all (T.rows s)
        → x ≡ record { id = id; project_id = p; status = v; rank = after.1; fields = fields }
        → tasks_reducer (view p (T.rows s)) (task_created x) ≡ view p (T.rows after.0)
  sync_create id p v wanted fields s x b fresh last is_x =
      let (answer, rows) = create_task_rows T id p v wanted fields s in
      let y : Task Fields = record {
        id = id;
        project_id = p;
        status = v;
        rank = clamp wanted (size p v all (T.rows s));
        fields = fields;
      } in
      rw (is_x, answer, rows) (reduced_create y (T.rows s) b fresh (sym answer ∙ last))
