-- ===== src/Tasks/Service.antt =====
-- The calls of the service on the board: every column stays dense, and tasks land where they should.
use transcendence.Prelude.{
  ℕ, ◌≡◌, refl, ◌∙◌, inl, inr, Bool, true, false, ◌&&◌, ◌||◌, Option, none, some, List, [], ◌∷◌,
  map, ◌==◌, if◌then◌else◌, Bool-cases, Option-cases, any, find, err, Result-cases, ℤ,
}
use transcendence.Prisma.{Table}
use transcendence.Tasks.{
  TaskStatus, Task, task_not_found, is_other, has_id, clamp, target_of, other_rank, other_status,
  status_index, create_task, move_task, remove_task, find_by_id, create_as, update_task, update_as,
  remove_as,
}
use transcendence.Tasks.Counts.{count, size}
use transcendence.Tasks.Board.{all, IsBoard}
use transcendence.Tasks.Moves.{
  clamp-le, created-IsBoard, moved-IsBoard, removed-IsBoard, at_most_one, create_task_rows,
  move_task_rows, remove_task_rows,
}

module _ {Fields : Type 0} where
  abbrev patched : ℕ → (Fields → Fields) → List (Task Fields) → List (Task Fields)
  patched id patch = map (λ t. if has_id id t then record t { fields = patch t.fields } else t)

  -- Ids, columns and ranks are not among the fields that a patch changes.
  count-patched :
      (id : ℕ) (patch : Fields → Fields) (q : ℕ → ℕ → TaskStatus → ℕ → Bool)
      (ts : List (Task Fields))
      → count (λ t. q t.id t.project_id t.status t.rank) (patched id patch ts)
        ≡ count (λ t. q t.id t.project_id t.status t.rank) ts
  count-patched id patch q [] = refl
  count-patched id patch q (t ∷ ts) = elim (Bool-cases (has_id id t)) [
    | inl e ↦ rw (e, count-patched id patch q ts)
    | inr e ↦ rw (e, count-patched id patch q ts)
  ]

  patched-IsBoard :
      (id : ℕ) (patch : Fields → Fields) (ts : List (Task Fields))
      → IsBoard ts
      → IsBoard (patched id patch ts)
  patched-IsBoard id patch ts b = record {
    ids = λ i. rw (count-patched id patch (λ j _ _ _. j == i) ts) (b.ids i);
    dense = λ p v k.
        rw
          (
            count-patched id patch
                (λ j q w r. (q == p && status_index w == status_index v) && is_other none j) ts,
            count-patched id patch
                (λ j q w r.
                  (q == p && status_index w == status_index v) && is_other none j && r == k)
                ts,
          )
          (b.dense p v k);
  }

module _ {Fields : Type 0} (T : Table (Task Fields)) where
  abbrev pub Board : T.State → Type 0
  Board s = IsBoard (T.rows s)

  -- Nothing changes if no task has the id.
  move_task_missing :
      (id p : ℕ) (requested : Option TaskStatus) (wanted : Option ℤ) (patch : Fields → Fields)
      (s : T.State)
      → Board s
      → find (has_id id) (T.rows s) ≡ none
      → move_task T id p requested wanted patch s ≡ (s, err task_not_found)
  unfolding move_task
  move_task_missing id p requested wanted patch s b e =
      let found : T.find_unique (has_id id) s ≡ none =
        T.find_unique_lem (has_id id) s (at_most_one T id s b) ∙ e in
      rw (found, move_task)

  remove_task_missing :
      (id p : ℕ) (s : T.State)
      → Board s
      → find (has_id id) (T.rows s) ≡ none
      → remove_task T id p s ≡ (s, err task_not_found)
  unfolding remove_task
  remove_task_missing id p s b e =
      let gone : T.delete (has_id id) s ≡ none =
        rw e at (T.delete_lem (has_id id) s (at_most_one T id s b)) in
      rw (gone, remove_task)

  -- The task with this id, if there is one, belongs to the project.
  abbrev pub InProject : ℕ → ℕ → T.State → Type 0
  InProject id p s = (x : Task Fields) → find (has_id id) (T.rows s) ≡ some x → x.project_id ≡ p

  create_task-Board :
      (id p : ℕ) (v : TaskStatus) (w : Option ℤ) (fields : Fields) (s : T.State)
      → Board s
      → count (has_id id) (T.rows s) ≡ 0
      → Board (create_task T id p v w fields s).0
  create_task-Board id p v w fields s b fresh = rw (create_task_rows T id p v w fields s).1 (
      created-IsBoard
        (record {
          id = id;
          project_id = p;
          status = v;
          rank = clamp w (size p v all (T.rows s));
          fields = fields;
        })
        (T.rows s) b fresh (clamp-le w _))

  move_task-Board :
      (id p : ℕ) (requested : Option TaskStatus) (wanted : Option ℤ) (patch : Fields → Fields)
      (s : T.State)
      → Board s
      → InProject id p s
      → Board (move_task T id p requested wanted patch s).0
  move_task-Board id p requested wanted patch s b h =
      elim (Option-cases (find (has_id id) (T.rows s))) [
        | inl e ↦ rw (move_task_missing id p requested wanted patch s b e) b
        | inr (x, e) ↦
            rw ((move_task_rows T id p requested wanted patch s x b e).1, ← h x e)
              (moved-IsBoard id x (target_of requested x.status) _ patch (T.rows s) b e
                (clamp-le wanted _))
      ]

  remove_task-Board :
      (id p : ℕ) (s : T.State) → Board s → InProject id p s → Board (remove_task T id p s).0
  remove_task-Board id p s b h = elim (Option-cases (find (has_id id) (T.rows s))) [
    | inl e ↦ rw (remove_task_missing id p s b e) b
    | inr (x, e) ↦
        rw ((remove_task_rows T id p s x b e).1, ← h x e) (removed-IsBoard id x (T.rows s) b e)
  ]

  update_fields-Board :
      (id : ℕ) (patch : Fields → Fields) (s : T.State)
      → Board s
      → Board (T.update_many (has_id id) (λ t. record t { fields = patch t.fields }) s)
  update_fields-Board id patch s b =
      rw (T.rows-update_many (has_id id) (λ t. record t { fields = patch t.fields }) s)
        (patched-IsBoard id patch (T.rows s) b)

  update_task-Board :
      (id p : ℕ) (existing : Task Fields) (requested : Option TaskStatus) (wanted : Option ℤ)
      (patch : Fields → Fields) (s : T.State)
      → Board s
      → InProject id p s
      → Board (update_task T id p existing requested wanted patch s).0
  unfolding update_task
  update_task-Board id p existing requested wanted patch s b h =
      elim (Bool-cases
        (other_status requested existing.status || other_rank wanted existing.rank)) [
          | inl e ↦ rw (e, update_task) (move_task-Board id p requested wanted patch s b h)
          | inr e ↦ elim (Bool-cases (any (has_id id) (T.rows s))) [
            | inl there ↦
                rw
                  (
                    e,
                    update_task,
                    T.update_lem (has_id id) (λ t. record t { fields = patch t.fields }) s,
                    there,
                  )
                  (update_fields-Board id patch s b)
            | inr none_there ↦
                rw
                  (
                    e,
                    update_task,
                    T.update_lem (has_id id) (λ t. record t { fields = patch t.fields }) s,
                    none_there,
                  )
                  b
          ]
        ]

  -- Creating a task with an id that no task has, with whatever outcome of the checks and whatever
  -- rank is asked for, keeps a board: one card at each rank from 0 on in every column, and no id
  -- twice.
  pub create_as-IsBoard :
      (is_member is_valid : Bool) (id p : ℕ) (v : TaskStatus) (w : Option ℤ) (fields : Fields)
      (s : T.State)
      → Board s
      → count (has_id id) (T.rows s) ≡ 0
      → Board (create_as T is_member is_valid id p v w fields s).0
  unfolding create_as
  create_as-IsBoard true true id p v w fields s b fresh =
      create_task-Board id p v w fields s b fresh
  create_as-IsBoard true false id p v w fields s b fresh = b
  create_as-IsBoard false is_valid id p v w fields s b fresh = b

  -- An update, whether it moves the task or not and whatever rank is asked for, leaves a board
  -- whose every column has one card at each rank from 0 on and no id twice, if before it the table
  -- was such a board, and what other calls do between its reading of the task and its transaction
  -- leaves such a board with the task, if still there, in its project.
  pub update_as-IsBoard :
      (is_member : Bool) (is_valid : Task Fields → Bool) (id p : ℕ) (requested : Option TaskStatus)
      (wanted : Option ℤ) (patch : Fields → Fields) (others : T.State → T.State) (s : T.State)
      → Board s
      → Board (others s)
      → InProject id p (others s)
      → Board (update_as T is_member is_valid id p requested wanted patch others s).0
  unfolding update_as
  update_as-IsBoard is_member is_valid id p requested wanted patch others s b b' h =
      elim (Result-cases (find_by_id T is_member id p s)) [
        | inl (e, refused) ↦ rw (refused, update_as) b
        | inr (existing, found) ↦ elim (Bool-cases (is_valid existing)) [
          | inl valid ↦
              rw (found, update_as, valid)
                (update_task-Board id p existing requested wanted patch (others s) b' h)
          | inr invalid ↦ rw (found, update_as, invalid) b
        ]
      ]

  -- A removal leaves a board, with one card at each rank from 0 on in every column and no id
  -- twice, if before it the table was such a board, and what other calls do between its reading of
  -- the task and its transaction leaves such a board with the task, if still there, in its
  -- project.
  pub remove_as-IsBoard :
      (is_member : Bool) (id p : ℕ) (others : T.State → T.State) (s : T.State)
      → Board s
      → Board (others s)
      → InProject id p (others s)
      → Board (remove_as T is_member id p others s).0
  unfolding remove_as
  remove_as-IsBoard is_member id p others s b b' h =
      elim (Result-cases (find_by_id T is_member id p s)) [
        | inl (e, refused) ↦ rw (refused, remove_as) b
        | inr (task, found) ↦ rw (found, remove_as) (remove_task-Board id p (others s) b' h)
      ]
