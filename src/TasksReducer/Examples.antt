-- ===== src/TasksReducer/Examples.antt =====
-- The small board of the tasks service, as a client shows it.
use transcendence.Prelude.{ℕ, ◌+◌, ◌≡◌, refl, some, [], ◌∷◌, find, ok, pos}
use transcendence.JsMap.{get, set}
use transcendence.Prisma.{Table}
use transcendence.Prisma.Memory.{memory}
use transcendence.Tasks.{todo, review, Task, has_id, create_task, create_as, move_task, remove_task}
use transcendence.Tasks.Board.{all}
use transcendence.Tasks.Counts.{count, size}
use transcendence.Tasks.Examples.{task, three_tasks, three_tasks-IsBoard, found_13, found_12}
use transcendence.TasksReducer.{task_created, task_updated, task_moved, task_deleted, tasks_reducer}
use transcendence.TasksReducer.Views.{view}
use transcendence.TasksReducer.Steps.{whole}
use transcendence.TasksReducer.Sync.{sync_move, sync_remove, sync_create}

abbrev table : Table (Task ℕ)
table = memory (Task ℕ)

-- A task that is created at rank 0 by the server comes second at a client: the client has the old
-- first task of the column before the new one, with the same rank.
created_in_the_middle :
    (view 1 (create_task table 14 1 todo (some (pos 0)) 9 three_tasks).0
      ≡ task 11 todo 2 0 ∷ task 12 todo 1 0 ∷ task 13 todo 3 0 ∷ task 14 todo 0 9 ∷ [])
    × (tasks_reducer (view 1 three_tasks) (task_created (task 14 todo 0 9))
        ≡ task 11 todo 2 0 ∷ task 12 todo 0 0 ∷ task 13 todo 3 0 ∷ task 14 todo 1 9 ∷ [])
unfolding create_task create_as tasks_reducer get set
created_in_the_middle = (refl, refl)

answer_13 :
    (move_task table 13 1 (some review) (some (pos 4)) (λ f. f + 1) three_tasks).1 ≡ ok (review, 0)
unfolding move_task create_as
answer_13 = refl

moved_13 :
    find (has_id 13) (move_task table 13 1 (some review) (some (pos 4)) (λ f. f + 1) three_tasks).0
    ≡ some (task 13 review 0 1)
unfolding move_task create_as
moved_13 = refl

sync_move_example :
    tasks_reducer
      (tasks_reducer (view 1 three_tasks) (task_moved 13 review (pos 0)))
      (task_updated 13 (whole (task 13 review 0 1)))
    ≡ view 1 (move_task table 13 1 (some review) (some (pos 4)) (λ f. f + 1) three_tasks).0
sync_move_example =
    sync_move table 13 (some review) (some (pos 4)) (λ f. f + 1) three_tasks (task 13 todo 2 0)
      (task 13 review 0 1) review 0 three_tasks-IsBoard found_13 answer_13 moved_13

sync_remove_example :
    tasks_reducer (view 1 three_tasks) (task_deleted 12)
    ≡ view 1 (remove_task table 12 1 three_tasks).0
sync_remove_example =
    sync_remove table 12 three_tasks (task 12 todo 0 0) three_tasks-IsBoard found_12

fresh_14 : count (has_id 14) three_tasks ≡ 0
unfolding create_as
fresh_14 = refl

last_14 : (create_task table 14 1 todo (some (pos 3)) 9 three_tasks).1 ≡ size 1 todo all three_tasks
unfolding create_task create_as
last_14 = refl

created_14 : task 14 todo 3 9 ≡ record {
  id = 14;
  project_id = 1;
  status = todo;
  rank = (create_task table 14 1 todo (some (pos 3)) 9 three_tasks).1;
  fields = 9;
}
unfolding create_task create_as
created_14 = refl

sync_create_example :
    tasks_reducer (view 1 three_tasks) (task_created (task 14 todo 3 9))
    ≡ view 1 (create_task table 14 1 todo (some (pos 3)) 9 three_tasks).0
sync_create_example =
    sync_create table 14 1 todo (some (pos 3)) 9 three_tasks (task 14 todo 3 9) three_tasks-IsBoard
      fresh_14 last_14 created_14
