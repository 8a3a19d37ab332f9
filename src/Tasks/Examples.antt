-- ===== src/Tasks/Examples.antt =====
-- A small board, on which the theorems' hypotheses hold.
use transcendence.Prelude.{
  ℕ, ◌+◌, ◌<◌, ◌≡◌, refl, ◌↔◌, true, false, not, ◌&&◌, ◌||◌, none, some, List, [], ◌∷◌, arith,
  filter, find, ok, err, pos, negsuc,
}
use transcendence.Prisma.Memory.{memory}
use transcendence.Tasks.{
  TaskStatus, todo, review, Task, has_id, create_as, move_task, update_as, remove_as,
}
use transcendence.Tasks.Counts.{count}
use transcendence.Tasks.Board.{IsBoard}
use transcendence.Tasks.Moves.{landing}
use transcendence.Tasks.Service.{create_as-IsBoard, update_as-IsBoard, remove_as-IsBoard}
use transcendence.Tasks.{bad_request}
use transcendence.Tasks.Assignees.{
  of_task, assignments, AreMembers, replace_assignees_in_transaction,
  assert_assignees_are_project_members, replace_assignees_accepts_iff, replace_assignees_lem,
}
use transcendence.ProjectMembers.{TaskAssignee, ProjectMember, member, owner}
use transcendence.ProjectMembers.Roles.{OneEach}
use transcendence.Tasks.Notices.{
  is_acting, status_change_recipients, new_assignee_recipients, removed_assignee_recipients,
  update_notices_lem,
}
use transcendence.Tasks.Assignees.{includes}
use transcendence.Tasks.Order.{move_task_lands, move_task_keeps_order}

-- A task's other fields are a number here.
abbrev pub no_tasks : List (Task ℕ)
no_tasks = []

no_tasks-IsBoard : IsBoard no_tasks
no_tasks-IsBoard = record { ids = λ i. omega arith; dense = λ p v k. ground arith }

abbrev pub one_task : List (Task ℕ)
one_task = (create_as (memory (Task ℕ)) true true 11 1 todo none 0 no_tasks).0

abbrev pub two_tasks : List (Task ℕ)
two_tasks = (create_as (memory (Task ℕ)) true true 12 1 todo (some (pos 0)) 0 one_task).0

abbrev pub three_tasks : List (Task ℕ)
three_tasks = (create_as (memory (Task ℕ)) true true 13 1 todo (some (pos 7)) 0 two_tasks).0

abbrev pub task : ℕ → TaskStatus → ℕ → ℕ → Task ℕ
task id status rank fields = record {
  id = id;
  project_id = 1;
  status = status;
  rank = rank;
  fields = fields;
}

pub three_tasks_are : three_tasks ≡ task 11 todo 1 0 ∷ task 12 todo 0 0 ∷ task 13 todo 2 0 ∷ []
unfolding create_as
three_tasks_are = refl

moved_up :
    (move_task (memory (Task ℕ)) 13 1 none (some (negsuc 4)) (λ f. f + 1) three_tasks).0
    ≡ task 11 todo 2 0 ∷ task 12 todo 1 0 ∷ task 13 todo 0 1 ∷ []
unfolding create_as move_task
moved_up = refl

moved_across :
    move_task (memory (Task ℕ)) 12 1 (some review) none (λ f. f) three_tasks
    ≡ (task 11 todo 0 0 ∷ task 12 review 0 0 ∷ task 13 todo 1 0 ∷ [], ok (review, 0))
unfolding create_as move_task
moved_across = refl

fresh_11 : count (has_id 11) no_tasks ≡ 0
fresh_11 = refl

fresh_12 : count (has_id 12) one_task ≡ 0
unfolding create_as
fresh_12 = refl

fresh_13 : count (has_id 13) two_tasks ≡ 0
unfolding create_as
fresh_13 = refl

pub three_tasks-IsBoard : IsBoard three_tasks
three_tasks-IsBoard =
    create_as-IsBoard (memory (Task ℕ)) true true 13 1 todo (some (pos 7)) 0 two_tasks
      (create_as-IsBoard (memory (Task ℕ)) true true 12 1 todo (some (pos 0)) 0 one_task
        (create_as-IsBoard (memory (Task ℕ)) true true 11 1 todo none 0 no_tasks no_tasks-IsBoard
          fresh_11)
        fresh_12)
      fresh_13

-- What another user does meanwhile: the task 12 is removed.
abbrev meanwhile : List (Task ℕ) → List (Task ℕ)
meanwhile s = (remove_as (memory (Task ℕ)) true 12 1 (λ s'. s') s).0

three_in_project : (i : ℕ) (x : Task ℕ) → find (has_id i) three_tasks ≡ some x → x.project_id ≡ 1
unfolding create_as
three_in_project i x e = ground arith

meanwhile-IsBoard : IsBoard (meanwhile three_tasks)
meanwhile-IsBoard =
    remove_as-IsBoard (memory (Task ℕ)) true 12 1 (λ s. s) three_tasks three_tasks-IsBoard
      three_tasks-IsBoard (three_in_project 12)

meanwhile_in_project :
    (i : ℕ) (x : Task ℕ) → find (has_id i) (meanwhile three_tasks) ≡ some x → x.project_id ≡ 1
unfolding create_as remove_as
meanwhile_in_project i x e = ground arith

create_as-IsBoard_example :
    IsBoard (create_as (memory (Task ℕ)) true true 11 1 todo (some (pos 3)) 5 no_tasks).0
create_as-IsBoard_example =
    create_as-IsBoard (memory (Task ℕ)) true true 11 1 todo (some (pos 3)) 5 no_tasks
      no_tasks-IsBoard fresh_11

update_as-IsBoard_example :
    IsBoard
      (update_as
        (memory (Task ℕ))
        true
        (λ t. true)
        13
        1
        (some review)
        (some (pos 0))
        (λ f. f)
        meanwhile
        three_tasks).0
update_as-IsBoard_example =
    update_as-IsBoard (memory (Task ℕ)) true (λ t. true) 13 1 (some review) (some (pos 0)) (λ f. f)
      meanwhile three_tasks three_tasks-IsBoard meanwhile-IsBoard (meanwhile_in_project 13)

remove_as-IsBoard_example : IsBoard (remove_as (memory (Task ℕ)) true 11 1 meanwhile three_tasks).0
remove_as-IsBoard_example =
    remove_as-IsBoard (memory (Task ℕ)) true 11 1 meanwhile three_tasks three_tasks-IsBoard
      meanwhile-IsBoard (meanwhile_in_project 11)

pub found_11 : find (has_id 11) three_tasks ≡ some (task 11 todo 1 0)
unfolding create_as
found_11 = refl

pub found_12 : find (has_id 12) three_tasks ≡ some (task 12 todo 0 0)
unfolding create_as
found_12 = refl

pub found_13 : find (has_id 13) three_tasks ≡ some (task 13 todo 2 0)
unfolding create_as
found_13 = refl

move_task_lands_example :
    let r = landing (memory (Task ℕ)) 13 1 todo (some (pos 0)) three_tasks in
    let after = move_task (memory (Task ℕ)) 13 1 none (some (pos 0)) (λ f. f + 1) three_tasks in
    (after.1 ≡ ok (todo, r)) × (find (has_id 13) after.0 ≡ some (task 13 todo r 1))
move_task_lands_example =
    move_task_lands (memory (Task ℕ)) 13 none (some (pos 0)) (λ f. f + 1) three_tasks
      (task 13 todo 2 0) three_tasks-IsBoard found_13

move_task_keeps_order_example :
    let after = (move_task (memory (Task ℕ)) 13 1 none (some (pos 1)) (λ f. f) three_tasks).0 in
    (y' z' : Task ℕ) × (find (has_id 12) after ≡ some y')
    × (find (has_id 11) after ≡ some z')
    × (y'.project_id ≡ 1)
    × (z'.project_id ≡ 1)
    × (y'.status ≡ todo)
    × (z'.status ≡ todo)
    × (y'.rank < z'.rank)
move_task_keeps_order_example =
    move_task_keeps_order (memory (Task ℕ)) 13 12 11 none (some (pos 1)) (λ f. f) three_tasks
      (task 13 todo 2 0) (task 12 todo 0 0) (task 11 todo 1 0) three_tasks-IsBoard found_13 found_12
      found_11 refl refl refl refl (omega arith)

-- Two members of project 1 and one of project 2.
abbrev some_members : List ProjectMember
some_members =
    record { user_id = 5; project_id = 1; role = member }
    ∷ record { user_id = 6; project_id = 1; role = member }
    ∷ record { user_id = 7; project_id = 2; role = owner }
    ∷ []

abbrev some_assignees : List TaskAssignee
some_assignees = record { user_id = 5; task_id = 11 } ∷ record { user_id = 5; task_id = 12 } ∷ []

some_members-OneEach : OneEach some_members
some_members-OneEach p u = ground arith

replaced :
    replace_assignees_in_transaction
      (memory ProjectMember)
      (memory TaskAssignee)
      11
      1
      (6 ∷ 5 ∷ [])
      some_members
      some_assignees
    ≡ (
      record { user_id = 5; task_id = 12 }
          ∷ record { user_id = 6; task_id = 11 }
          ∷ record { user_id = 5; task_id = 11 }
          ∷ [],
      ok tt,
    )
unfolding replace_assignees_in_transaction
replaced = refl

outsider_refused :
    (replace_assignees_in_transaction
      (memory ProjectMember)
      (memory TaskAssignee)
      11
      1
      (7 ∷ [])
      some_members
      some_assignees).1
    ≡ err bad_request
unfolding replace_assignees_in_transaction
outsider_refused = refl

replace_assignees_accepts_iff_example :
    ((assert_assignees_are_project_members (memory ProjectMember) 1 (6 ∷ 5 ∷ []) some_members
        ≡ ok tt)
      ↔ AreMembers 1 some_members (6 ∷ 5 ∷ []))
    × (((replace_assignees_in_transaction
            (memory ProjectMember)
            (memory TaskAssignee)
            11
            1
            (6 ∷ 5 ∷ [])
            some_members
            some_assignees).1
          ≡ ok tt)
        ↔ AreMembers 1 some_members (6 ∷ 5 ∷ []))
replace_assignees_accepts_iff_example =
    replace_assignees_accepts_iff (memory ProjectMember) (memory TaskAssignee) 11 1 (6 ∷ 5 ∷ [])
      some_members some_assignees some_members-OneEach

replace_assignees_lem_example :
    let after =
      replace_assignees_in_transaction
        (memory ProjectMember)
        (memory TaskAssignee)
        11
        1
        (6 ∷ 5 ∷ [])
        some_members
        some_assignees in
    (after.1 ≡ ok tt
      → (filter (of_task 11) after.0 ≡ assignments 11 (6 ∷ 5 ∷ []))
        × (filter (λ r. not (of_task 11 r)) after.0
            ≡ filter (λ r. not (of_task 11 r)) some_assignees))
    × (after.1 ≡ err bad_request → after.0 ≡ some_assignees)
replace_assignees_lem_example =
    replace_assignees_lem (memory ProjectMember) (memory TaskAssignee) 11 1 (6 ∷ 5 ∷ [])
      some_members some_assignees

told_of_the_new : new_assignee_recipients (5 ∷ 6 ∷ []) (6 ∷ 7 ∷ 8 ∷ []) (some 8) ≡ 7 ∷ []
unfolding new_assignee_recipients
told_of_the_new = refl

update_notices_lem_example :
    let added = includes 7 (new_assignee_recipients (5 ∷ 6 ∷ []) (6 ∷ 7 ∷ 8 ∷ []) (some 8)) in
    let removed = includes 7 (removed_assignee_recipients (5 ∷ 6 ∷ []) (6 ∷ 7 ∷ 8 ∷ []) (some 8)) in
    ((added && removed) ≡ false)
    × (is_acting (some 8) 7 ≡ true → (added || removed) ≡ false)
    × (is_acting (some 8) 7 ≡ false
        → ((added || removed) ≡ false) ↔ (includes 7 (5 ∷ 6 ∷ []) ≡ includes 7 (6 ∷ 7 ∷ 8 ∷ [])))
    × (includes 7 (status_change_recipients (5 ∷ 6 ∷ []) (some 8))
        ≡ (includes 7 (5 ∷ 6 ∷ []) && not (is_acting (some 8) 7)))
update_notices_lem_example = update_notices_lem (5 ∷ 6 ∷ []) (6 ∷ 7 ∷ 8 ∷ []) (some 8) 7
