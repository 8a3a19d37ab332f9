-- ===== src/Tasks.antt =====
-- backend/src/tasks/tasks.service.ts: the tasks of a project's board and their places in its columns.
-- A column is a project and a status; a task's place in it is its rank, from 0. Ids are opaque.
-- A task's other fields are one value: a patch of them is a function on it.
-- Here is what the calls do to the table of tasks. Whether the caller is a member of the project
-- (`is_member`), and whether the dates, the category and the assignees pass their checks (`is_valid`,
-- for an update a test on the task), are arguments. The rows of assignees and of audits, the
-- notifications and the events for other clients are left out.
pub mod Places
pub mod Counts
pub mod Board
pub mod Moves
pub mod Service
pub mod Order
pub mod Assignees
pub mod Notices
pub mod Examples
use transcendence.Prelude.{
  ℕ, zero, suc, ◌+◌, ◌-◌, ◌*◌, ◌≤◌, ◌<◌, min, max, String, ◌≡◌, refl, sym, ap, subst, ◌∙◌, ◌≡⟨◌⟩◌,
  ◌∎, ◌≢◌, ◌↔◌, ◌⊎◌, inl, inr, Bool, true, false, not, ◌&&◌, ◌||◌, Option, none, some, List, [],
  ◌∷◌, ◌++◌, map, arith, ltb, leb, ◌==◌, if◌then◌else◌, ltb→lt, lt→ltb, leb→le, ==_iff, ==_refl,
  Bool-cases, Option-cases, length, filter, any, find, All, length-append, All-append, All-mono,
  Result, ok, err, ◌>>=◌, ◌>>◌, throw_if, ℤ, pos, negsuc,
}
use transcendence.Prisma.{Table}

pub data TaskStatus : Type 0 where
  todo in_progress review completed : TaskStatus

pub record Task (Fields : Type 0) : Type 0 where
  pub id : ℕ
  pub project_id : ℕ
  pub status : TaskStatus
  pub rank : ℕ
  pub fields : Fields

pub data Error : Type 0 where
  task_not_found project_not_found bad_request : Error

-- The place of a status in the enumeration.
abbrev pub status_index : TaskStatus → ℕ
status_index todo = 0
status_index in_progress = 1
status_index review = 2
status_index completed = 3

-- `{ id: { not: excludeId } }`, or no condition.
abbrev pub is_other : Option ℕ → ℕ → Bool
is_other none id = true
is_other (some excluded) id = not (id == excluded)

-- `Math.min(Math.max(wantedRank, 0), columnLength)`, or the end of the column.
abbrev pub clamp : Option ℤ → ℕ → ℕ
clamp none column_length = column_length
clamp (some (pos n)) column_length = min n column_length
clamp (some (negsuc n)) column_length = min 0 column_length

abbrev pub target_of : Option TaskStatus → TaskStatus → TaskStatus
target_of none current = current
target_of (some requested) current = requested

-- `dto.rank !== undefined && dto.rank !== existingTask.rank`.
abbrev pub other_rank : Option ℤ → ℕ → Bool
other_rank none rank = false
other_rank (some (pos n)) rank = not (n == rank)
other_rank (some (negsuc n)) rank = true

abbrev pub other_status : Option TaskStatus → TaskStatus → Bool
other_status none status = false
other_status (some requested) status = not (status_index requested == status_index status)

module _ {Fields : Type 0} where
  abbrev pub in_column : ℕ → TaskStatus → Task Fields → Bool
  in_column project_id status t =
      t.project_id == project_id && status_index t.status == status_index status

  abbrev pub has_id : ℕ → Task Fields → Bool
  has_id id t = t.id == id

  abbrev pub set_rank : (ℕ → ℕ) → Task Fields → Task Fields
  set_rank f t = record t { rank = f t.rank }

  abbrev pub place : TaskStatus → ℕ → (Fields → Fields) → Task Fields → Task Fields
  place status rank patch t = record t { status = status; rank = rank; fields = patch t.fields }

  module _ (T : Table (Task Fields)) where
    -- Ranks above another are not 0, so `rank - 1` is the decrement.
    unfoldable pub close_rank_gap : ℕ → TaskStatus → (vacated_rank : ℕ) → T.State → T.State
    close_rank_gap project_id status vacated_rank s =
        T.update_many (λ t. in_column project_id status t && ltb vacated_rank t.rank)
          (set_rank (λ r. r - 1)) s

    unfoldable pub open_rank_slot :
        ℕ → TaskStatus → (wanted_rank : Option ℤ) → (exclude_id : Option ℕ) → T.State → T.State × ℕ
    open_rank_slot project_id status wanted_rank exclude_id s =
        let column_length =
          T.count (λ t. in_column project_id status t && is_other exclude_id t.id) s in
        let rank = clamp wanted_rank column_length in
        (
          T.update_many
              (λ t. in_column project_id status t && leb rank t.rank && is_other exclude_id t.id)
              (set_rank (λ r. r + 1)) s,
          rank,
        )

    -- The transaction of `createAs`; the database makes the id.
    unfoldable pub create_task :
        (id project_id : ℕ) → TaskStatus → (rank : Option ℤ) → Fields → T.State → T.State × ℕ
    unfolding open_rank_slot
    create_task id project_id status rank fields s =
        let (s', rank') = open_rank_slot project_id status rank none s in
        (
          T.create
              (record {
                id = id;
                project_id = project_id;
                status = status;
                rank = rank';
                fields = fields;
              })
              s',
          rank',
        )

    -- The transaction of `moveTask`. Where it throws, the database undoes what it did.
    unfoldable pub move_task :
        (id project_id : ℕ)
        → (requested : Option TaskStatus) → (wanted_rank : Option ℤ)
        → (task_fields : Fields → Fields) → T.State
        → T.State × Result Error (TaskStatus × ℕ)
    unfolding close_rank_gap open_rank_slot
    move_task id project_id requested wanted_rank task_fields s =
        elim (T.find_unique (has_id id) s) [
          | none ↦ (s, err task_not_found)
          | some current ↦
              let target = target_of requested current.status in
              let s1 = close_rank_gap project_id current.status current.rank s in
              let (s2, next_rank) = open_rank_slot project_id target wanted_rank (some id) s1 in
              elim (T.update (has_id id) (place target next_rank task_fields) s2) [
                | none ↦ (s, err task_not_found)
                | some s3 ↦ (s3, ok (target, next_rank))
              ]
        ]

    -- The transaction of `removeAs`.
    unfoldable pub remove_task :
        (id project_id : ℕ) → T.State → T.State × Result Error (Task Fields)
    unfolding close_rank_gap
    remove_task id project_id s = elim (T.delete (has_id id) s) [
      | none ↦ (s, err task_not_found)
      | some (deleted, s') ↦ (close_rank_gap project_id deleted.status deleted.rank s', ok deleted)
    ]

    -- `findById` for a user; a machine's token is the membership.
    unfoldable pub find_by_id :
        (is_member : Bool) (id project_id : ℕ) → T.State → Result Error (Task Fields)
    find_by_id is_member id project_id s =
        if is_member
        then (elim (T.find_first (λ t. has_id id t && t.project_id == project_id) s) [
          | none ↦ err task_not_found
          | some task ↦ ok task
        ])
        else err project_not_found

    -- `createAs`.
    unfoldable pub create_as :
        (is_member is_valid : Bool) (id project_id : ℕ)
        → TaskStatus
        → (rank : Option ℤ) → Fields
        → T.State
        → T.State × Result Error ℕ
    unfolding create_task
    create_as is_member is_valid id project_id status rank fields s =
        if not is_member
        then (s, err project_not_found)
        else if not is_valid
        then (s, err bad_request)
        else (let (s', rank') = create_task id project_id status rank fields s in (s', ok rank'))

    -- `updateAs` once its checks have passed.
    unfoldable pub update_task :
        (id project_id : ℕ) (existing : Task Fields)
        → Option TaskStatus
        → Option ℤ
        → (Fields → Fields)
        → T.State
        → T.State × Result Error (Unit {0})
    unfolding move_task
    update_task id project_id existing status rank task_fields s =
        if other_status status existing.status || other_rank rank existing.rank
        then (let (s', r) = move_task id project_id status rank task_fields s in
            (s', r >>= λ _. ok tt))
        else (elim (T.update (has_id id) (λ t. record t { fields = task_fields t.fields }) s) [
          | none ↦ (s, err task_not_found)
          | some s' ↦ (s', ok tt)
        ])

    -- `updateAs`. Other calls may run after the task is read and before it is changed: `others`.
    unfoldable pub update_as :
        (is_member : Bool) (is_valid : Task Fields → Bool) (id project_id : ℕ)
        → Option TaskStatus
        → Option ℤ
        → (Fields → Fields)
        → (others : T.State → T.State) → T.State
        → T.State × Result Error (Unit {0})
    unfolding find_by_id update_task
    update_as is_member is_valid id project_id status rank task_fields others s =
        elim (find_by_id is_member id project_id s) [
          | err e ↦ (s, err e)
          | ok existing ↦
              if is_valid existing
              then update_task id project_id existing status rank task_fields (others s)
              else (s, err bad_request)
        ]

    -- `removeAs`, with what other calls do after the task is read.
    unfoldable pub remove_as :
        (is_member : Bool) (id project_id : ℕ)
        → (others : T.State → T.State) → T.State
        → T.State × Result Error (Task Fields)
    unfolding find_by_id remove_task
    remove_as is_member id project_id others s = elim (find_by_id is_member id project_id s) [
      | err e ↦ (s, err e)
      | ok task ↦ remove_task id project_id (others s)
    ]
