-- ===== src/Tasks/Assignees.antt =====
-- backend/src/tasks/task-assignees.service.ts, and the check of the assignees in tasks.service.ts: the
-- rows that say who is assigned to a task, and the members of the projects.
use transcendence.Prelude.{
  ℕ, ◌+◌, ◌≤◌, ◌≡◌, refl, sym, ◌↔◌, inl, inr, Bool, true, false, not, ◌&&◌, List, [], ◌∷◌, ◌++◌,
  map, arith, ltb, ◌==◌, if◌then◌else◌, ==_refl, Bool-cases, length, filter, any, All, Result, ok,
  err, throw_if,
}
use mathlib.Core.List.{append-nil}
use transcendence.Prisma.{Table}
use transcendence.ProjectMembers.{TaskAssignee, ProjectMember, is_member}
use transcendence.ProjectMembers.Roles.{OneEach}
use transcendence.Tasks.{Error, bad_request}

-- `Array.prototype.includes`, and `{ in: ids }`.
abbrev pub includes : ℕ → List ℕ → Bool
includes i ids = any (λ j. j == i) ids

abbrev pub member_among : ℕ → List ℕ → ProjectMember → Bool
member_among project_id user_ids m = m.project_id == project_id && includes m.user_id user_ids

abbrev pub of_task : ℕ → TaskAssignee → Bool
of_task task_id a = a.task_id == task_id

abbrev pub assignments : ℕ → List ℕ → List TaskAssignee
assignments task_id = map (λ u. record { user_id = u; task_id = task_id })

module _ (M : Table ProjectMember) where
  -- `memberCount !== userIds.length`, where there is somebody to assign.
  abbrev pub some_are_no_members : ℕ → List ℕ → M.State → Bool
  some_are_no_members project_id user_ids m =
      ltb 0 (length user_ids)
      && not (M.count (member_among project_id user_ids) m == length user_ids)

  -- The check before the transaction.
  unfoldable pub assert_assignees_are_project_members :
      ℕ → List ℕ → M.State → Result Error (Unit {0})
  assert_assignees_are_project_members project_id user_ids m =
      throw_if (some_are_no_members project_id user_ids m) bad_request

  module _ (A : Table TaskAssignee) where
    unfoldable pub replace_assignees_in_transaction :
        (task_id project_id : ℕ) → List ℕ → M.State → A.State → A.State × Result Error (Unit {0})
    replace_assignees_in_transaction task_id project_id user_ids m a =
        if some_are_no_members project_id user_ids m then (a, err bad_request) else (
          (let a' = A.delete_many (of_task task_id) a in
              if ltb 0 (length user_ids)
              then A.create_many (assignments task_id user_ids) a'
              else a'),
          ok tt,
        )

abbrev pub NoRepeat : List ℕ → Type 0
NoRepeat [] = Unit
NoRepeat (i ∷ is) = (includes i is ≡ false) × NoRepeat is

members_among-step :
    (p i : ℕ) (is : List ℕ) (ms : List ProjectMember)
    → length (filter (member_among p (i ∷ is)) ms)
      ≡ length (filter (member_among p is) ms)
        + (if includes i is then 0 else length (filter (is_member p i) ms))
members_among-step p i is [] = ground arith
members_among-step p i is (m ∷ ms) = ground (arith, members_among-step p i is ms)

any-length :
    (p : ProjectMember → Bool) (ms : List ProjectMember) → any p ms ≡ ltb 0 (length (filter p ms))
any-length p [] = ground arith
any-length p (m ∷ ms) = ground (arith, any-length p ms)

members_among-nil : (p : ℕ) (ms : List ProjectMember) → length (filter (member_among p []) ms) ≡ 0
members_among-nil p [] = refl
members_among-nil p (m ∷ ms) = ground (arith, members_among-nil p ms)

members_among-le :
    (p : ℕ) (is : List ℕ) (ms : List ProjectMember)
    → OneEach ms
    → length (filter (member_among p is) ms) ≤ length is
members_among-le p [] ms u = omega (arith, members_among-nil p ms)
members_among-le p (i ∷ is) ms u =
    ground (arith, members_among-step p i is ms, u p i, members_among-le p is ms u)

abbrev pub AreMembers : ℕ → List ProjectMember → List ℕ → Type 0
AreMembers p ms is = NoRepeat is × All (λ i. any (is_member p i) ms ≡ true) is

members_of_full :
    (p : ℕ) (is : List ℕ) (ms : List ProjectMember)
    → OneEach ms
    → length (filter (member_among p is) ms) ≡ length is
    → AreMembers p ms is
members_of_full p [] ms u e = (tt, tt)
members_of_full p (i ∷ is) ms u e =
    let step = members_among-step p i is ms in
    let bound = members_among-le p is ms u in
    let one = u p i in
    let counted = any-length (is_member p i) ms in
    let rest = members_of_full p is ms u (ground arith) in
    ((ground arith, rest.0), (ground arith, rest.1))

full_of_members :
    (p : ℕ) (is : List ℕ) (ms : List ProjectMember)
    → OneEach ms
    → AreMembers p ms is
    → length (filter (member_among p is) ms) ≡ length is
full_of_members p [] ms u h = members_among-nil p ms
full_of_members p (i ∷ is) ms u ((new, distinct), (here, rest)) = ground (
  arith,
  members_among-step p i is ms,
  full_of_members p is ms u (distinct, rest),
  u p i,
  any-length (is_member p i) ms,
)

module _ {B : Type 0} where
  filter-none : (p : B → Bool) (xs : List B) → filter p (filter (λ x. not (p x)) xs) ≡ []
  filter-none p [] = refl
  filter-none p (x ∷ xs) = ground (arith, filter-none p xs)

  filter-same :
      (p : B → Bool) (xs : List B)
      → filter (λ x. not (p x)) (filter (λ x. not (p x)) xs) ≡ filter (λ x. not (p x)) xs
  filter-same p [] = refl
  filter-same p (x ∷ xs) = ground (arith, filter-same p xs)

  filter-append : (p : B → Bool) (xs ys : List B) → filter p (xs ++ ys) ≡ filter p xs ++ filter p ys
  filter-append p [] ys = refl
  filter-append p (x ∷ xs) ys = ground (arith, filter-append p xs ys)

assignments_all : (t : ℕ) (is : List ℕ) → filter (of_task t) (assignments t is) ≡ assignments t is
assignments_all t [] = refl
assignments_all t (i ∷ is) = rw (==_refl t, assignments_all t is)

assignments_only : (t : ℕ) (is : List ℕ) → filter (λ a. not (of_task t a)) (assignments t is) ≡ []
assignments_only t [] = refl
assignments_only t (i ∷ is) = rw (==_refl t, assignments_only t is)

module _ (M : Table ProjectMember) where
  pub some_are_no_members_iff :
      (p : ℕ) (is : List ℕ) (m : M.State)
      → OneEach (M.rows m)
      → (some_are_no_members M p is m ≡ false) ↔ AreMembers p (M.rows m) is
  some_are_no_members_iff p [] m u = ((λ e. (tt, tt)), λ h. ground arith)
  some_are_no_members_iff p (i ∷ is) m u = (
    (λ e.
        members_of_full p (i ∷ is) (M.rows m) u
          (ground (arith, M.count_lem (member_among p (i ∷ is)) m))),
    λ h.
        ground (
          arith,
          M.count_lem (member_among p (i ∷ is)) m,
          full_of_members p (i ∷ is) (M.rows m) u h,
        ),
  )

  module _ (A : Table TaskAssignee) where
    -- With at most one membership for each user in each project, the check before the transaction
    -- and the replacement itself pass exactly if all the given users are members of the project
    -- and none is given twice.
    pub replace_assignees_accepts_iff :
        (t p : ℕ) (is : List ℕ) (m : M.State) (a : A.State)
        → OneEach (M.rows m)
        → ((assert_assignees_are_project_members M p is m ≡ ok tt) ↔ AreMembers p (M.rows m) is)
          × (((replace_assignees_in_transaction M A t p is m a).1 ≡ ok tt)
              ↔ AreMembers p (M.rows m) is)
    unfolding assert_assignees_are_project_members replace_assignees_in_transaction
    replace_assignees_accepts_iff t p is m a u =
        let (to, back) = some_are_no_members_iff p is m u in
        (
          (
            (λ e. elim (Bool-cases (some_are_no_members M p is m)) [
              | inl refused ↦ ground (arith, refused, e)
              | inr fine ↦ to fine
            ]),
            λ h. rw (back h),
          ),
          (
            (λ e. elim (Bool-cases (some_are_no_members M p is m)) [
              | inl refused ↦ ground (arith, refused, e)
              | inr fine ↦ to fine
            ]),
            λ h. rw (back h),
          ),
        )

    abbrev pub with_assignees : ℕ → List ℕ → A.State → A.State
    with_assignees t is a =
        let a' = A.delete_many (of_task t) a in
        if ltb 0 (length is) then A.create_many (assignments t is) a' else a'

    pub rows-with_assignees :
        (t : ℕ) (is : List ℕ) (a : A.State)
        → A.rows (with_assignees t is a)
          ≡ filter (λ r. not (of_task t r)) (A.rows a) ++ assignments t is
    rows-with_assignees t [] a = rw (A.rows-delete_many (of_task t) a) (sym (append-nil _))
    rows-with_assignees t (i ∷ is) a =
        let some_given : ltb 0 (length (i ∷ is)) ≡ true = ground arith in
        rw (
          some_given,
          A.rows-create_many (assignments t (i ∷ is)) (A.delete_many (of_task t) a),
          A.rows-delete_many (of_task t) a,
        )

    own_assignees :
        (t : ℕ) (is : List ℕ) (a : A.State)
        → filter (of_task t) (A.rows (with_assignees t is a)) ≡ assignments t is
    own_assignees t is a = rw (
      rows-with_assignees t is a,
      filter-append (of_task t) (filter (λ r. not (of_task t r)) (A.rows a)) (assignments t is),
      filter-none (of_task t) (A.rows a),
      assignments_all t is,
    )

    other_assignees :
        (t : ℕ) (is : List ℕ) (a : A.State)
        → filter (λ r. not (of_task t r)) (A.rows (with_assignees t is a))
          ≡ filter (λ r. not (of_task t r)) (A.rows a)
    other_assignees t is a =
        rw
          (
            rows-with_assignees t is a,
            filter-append (λ r. not (of_task t r)) (filter (λ r. not (of_task t r)) (A.rows a))
                (assignments t is),
            filter-same (of_task t) (A.rows a),
            assignments_only t is,
          )
          (append-nil _)

    -- A replacement that succeeds leaves the task with exactly the given users as its assignees,
    -- in that order, and every other task with those that it had; one that fails changes nothing.
    pub replace_assignees_lem :
        (t p : ℕ) (is : List ℕ) (m : M.State) (a : A.State)
        → let after = replace_assignees_in_transaction M A t p is m a in
          (after.1 ≡ ok tt
            → (filter (of_task t) (A.rows after.0) ≡ assignments t is)
              × (filter (λ r. not (of_task t r)) (A.rows after.0)
                  ≡ filter (λ r. not (of_task t r)) (A.rows a)))
          × (after.1 ≡ err bad_request → after.0 ≡ a)
    unfolding replace_assignees_in_transaction
    replace_assignees_lem t p is m a = elim (Bool-cases (some_are_no_members M p is m)) [
      | inl refused ↦ rw (refused, replace_assignees_in_transaction) ((λ e. cc), λ e. refl)
      | inr fine ↦
          rw (fine, replace_assignees_in_transaction)
            ((λ e. (own_assignees t is a, other_assignees t is a)), λ e. cc)
    ]
