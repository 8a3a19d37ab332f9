-- ===== src/TasksReducer.antt =====
-- frontend/src/lib/tasksReducer.ts: the tasks of the project that a client shows, and how its own
-- actions and the server's events change them. A task is as in the service (frontend/src/lib/tasks.ts).
pub mod Columns
pub mod Below
pub mod Moved
pub mod Agrees
pub mod Reindex
pub mod Views
pub mod Steps
pub mod Sync
pub mod Examples
use transcendence.Prelude.{
  ℕ, zero, suc, ◌+◌, ◌-◌, ◌*◌, ◌≤◌, ◌<◌, min, max, String, ◌≡◌, refl, sym, ap, subst, ◌∙◌, ◌≡⟨◌⟩◌,
  ◌∎, ◌≢◌, ◌↔◌, ◌⊎◌, inl, inr, Bool, true, false, not, ◌&&◌, ◌||◌, Option, none, some, List, [],
  ◌∷◌, ◌++◌, map, arith, ltb, leb, ◌==◌, if◌then◌else◌, ltb→lt, lt→ltb, leb→le, ==_iff, ==_refl,
  Bool-cases, Option-cases, length, filter, any, find, All, length-append, All-append, All-mono,
  Result, ok, err, ◌>>=◌, ◌>>◌, throw_if, Result-cases, ℤ, pos, negsuc,
}
use transcendence.JsMap.{get, set}
use transcendence.Tasks.{TaskStatus, Task, status_index, has_id}

-- `Partial<Task>`, of what the server and the board send: the other fields are a function.
pub record TaskChanges (Fields : Type 0) : Type 0 where
  pub status : Option TaskStatus
  pub rank : Option ℕ
  pub fields : Fields → Fields

pub data TasksAction (Fields : Type 0) : Type 0 where
  tasks_loaded : (tasks : List (Task Fields)) → TasksAction Fields
  task_created : (task : Task Fields) → TasksAction Fields
  task_updated : (task_id : ℕ) (changes : TaskChanges Fields) → TasksAction Fields
  task_moved : (task_id : ℕ) (to_status : TaskStatus) (to_index : ℤ) → TasksAction Fields
  task_deleted : (task_id : ℕ) → TasksAction Fields

abbrev pub same_status : TaskStatus → TaskStatus → Bool
same_status v w = status_index v == status_index w

-- `Math.max(0, Math.min(toIndex, length))`.
abbrev pub insert_index : ℤ → ℕ → ℕ
insert_index (pos n) n_tasks = min n n_tasks
insert_index (negsuc n) n_tasks = 0

module _ {Fields : Type 0} where
  -- `sort(byRank)`, which is stable.
  abbrev pub insert_by_rank : Task Fields → List (Task Fields) → List (Task Fields)
  insert_by_rank t [] = t ∷ []
  insert_by_rank t (u ∷ us) = if leb t.rank u.rank then t ∷ u ∷ us else u ∷ insert_by_rank t us

  abbrev pub sort_by_rank : List (Task Fields) → List (Task Fields)
  sort_by_rank [] = []
  sort_by_rank (t ∷ ts) = insert_by_rank t (sort_by_rank ts)

  unfoldable pub select_column_tasks : List (Task Fields) → TaskStatus → List (Task Fields)
  select_column_tasks tasks status = sort_by_rank (filter (λ t. same_status t.status status) tasks)

  -- `column.forEach((task, index) => map.set(task.id, f index))`, from an index on.
  abbrev pub set_each :
      {V : Type 0} → (ℕ → V) → ℕ → List (Task Fields) → List (ℕ × V) → List (ℕ × V)
  set_each f k [] m = m
  set_each f k (t ∷ ts) m = set_each f (suc k) ts (set t.id (f k) m)

  -- `splice(i, 0, t)`.
  abbrev pub splice : ℕ → Task Fields → List (Task Fields) → List (Task Fields)
  splice i t [] = t ∷ []
  splice i t (u ∷ us) = if i == 0 then t ∷ u ∷ us else u ∷ splice (i - 1) t us

  abbrev pub take_rank : Option ℕ → Task Fields → Task Fields
  take_rank none t = t
  take_rank (some new_rank) t = if t.rank == new_rank then t else record t { rank = new_rank }

  unfoldable pub reindex_status : List (Task Fields) → TaskStatus → List (Task Fields)
  unfolding select_column_tasks
  reindex_status tasks status =
      let new_ranks = set_each (λ i. i) 0 (select_column_tasks tasks status) [] in
      map (λ t. take_rank (get t.id new_ranks) t) tasks

  abbrev pub take_position : Option (TaskStatus × ℕ) → Task Fields → Task Fields
  take_position none t = t
  take_position (some (status, rank)) t =
      if same_status t.status status && t.rank == rank
      then t
      else record t { status = status; rank = rank }

  -- A column without the moved task, in display order.
  abbrev pub column_without : Task Fields → TaskStatus → List (Task Fields) → List (Task Fields)
  column_without moved status state =
      sort_by_rank (filter (λ t. same_status t.status status && not (t.id == moved.id)) state)

  unfoldable pub move_to : Task Fields → TaskStatus → ℤ → List (Task Fields) → List (Task Fields)
  move_to moved to_status to_index state =
      let others = column_without moved to_status state in
      let destination = splice (insert_index to_index (length others)) moved others in
      let source =
        if same_status moved.status to_status
        then []
        else column_without moved moved.status state in
      let new_positions =
        set_each (λ i. (moved.status, i)) 0 source
          (set_each (λ i. (to_status, i)) 0 destination []) in
      map (λ t. take_position (get t.id new_positions) t) state

  abbrev pub with_changes : TaskChanges Fields → Task Fields → Task Fields
  with_changes changes t = record t {
    status = elim changes.status [ none ↦ t.status | some status ↦ status ];
    rank = elim changes.rank [ none ↦ t.rank | some rank ↦ rank ];
    fields = changes.fields t.fields;
  }

  -- The end of `task_updated`: a change of the status moves the task between columns.
  abbrev pub reindex_changed :
      Option TaskStatus → TaskStatus → List (Task Fields) → List (Task Fields)
  reindex_changed none existing_status next = next
  reindex_changed (some new_status) existing_status next =
      if same_status new_status existing_status
      then next
      else reindex_status (reindex_status next existing_status) new_status

  unfoldable pub tasks_reducer : List (Task Fields) → TasksAction Fields → List (Task Fields)
  unfolding reindex_status move_to
  tasks_reducer state (tasks_loaded tasks) = tasks
  tasks_reducer state (task_created task) =
      if any (has_id task.id) state then state else reindex_status (state ++ task ∷ []) task.status
  tasks_reducer state (task_updated task_id changes) = elim (find (has_id task_id) state) [
    | none ↦ state
    | some existing ↦
        reindex_changed changes.status existing.status
          (map (λ t. if has_id task_id t then with_changes changes t else t) state)
  ]
  tasks_reducer state (task_moved task_id to_status to_index) = elim (find (has_id task_id) state) [
    | none ↦ state
    | some moved ↦ move_to moved to_status to_index state
  ]
  tasks_reducer state (task_deleted task_id) = elim (find (has_id task_id) state) [
    | none ↦ state
    | some existing ↦ reindex_status (filter (λ t. not (has_id task_id t)) state) existing.status
  ]
