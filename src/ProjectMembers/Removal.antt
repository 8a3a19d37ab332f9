-- ===== src/ProjectMembers/Removal.antt =====
-- What a removal takes from the removed user, and what it leaves to everybody else.
use transcendence.Prelude.{
  filter-others, ℕ, ◌≡◌, sym, ◌∙◌, true, false, ◌&&◌, none, arith, ◌==◌, ==_refl, filter,
}
use transcendence.Prisma.{Table}
use transcendence.JsMap.Laws.{UniqueKeys}
use transcendence.ProjectMembers.{
  ProjectMember, TaskAssignee, CalendarAssignee, Store, is_member, remove_member,
}
use transcendence.ProjectMembers.Roles.{OneEach, role_of, role_of-without}
use transcendence.ProjectMembers.Calls.{is_ok}
use transcendence.ProjectMembers.Removing.{removed, remove_member_is}
use transcendence.ProjectMembers.Traces.{
  belongs, on_task, at_event, in_room, holds, evicted_holds, NoTrace, removed-NoTrace,
}

module _ (M : Table ProjectMember) (A : Table TaskAssignee) (C : Table CalendarAssignee)
    (project_of_task project_of_event : ℕ → ℕ) where
  -- What a user is and has in a project is the same in both stores.
  abbrev pub SameThere : ℕ → ℕ → Store M A C → Store M A C → Type 0
  SameThere q v s t =
      (role_of q v (M.rows t.members) ≡ role_of q v (M.rows s.members))
      × (filter (on_task project_of_task q v) (A.rows t.task_assignees)
          ≡ filter (on_task project_of_task q v) (A.rows s.task_assignees))
      × (filter (at_event project_of_event q v) (C.rows t.calendar_assignees)
          ≡ filter (at_event project_of_event q v) (C.rows s.calendar_assignees))
      × ((j : ℕ) → holds q v t.locks.leases j ≡ holds q v s.locks.leases j)
      × (filter (in_room q v) t.rooms ≡ filter (in_room q v) s.rooms)

  removed-SameThere :
      (p u q v : ℕ) (s : Store M A C)
      → UniqueKeys s.locks.leases
      → (q == p && v == u) ≡ false
      → SameThere q v s (removed M A C (belongs project_of_task) (belongs project_of_event) p u s)
  removed-SameThere p u q v s h other = (
    rw (M.rows-delete_many (is_member p u) s.members)
        (role_of-without q v p u (M.rows s.members) ∙ rw other),
    rw (A.rows-delete_many (on_task project_of_task p u) s.task_assignees) (
        filter-others (on_task project_of_task q v) (on_task project_of_task p u)
          (A.rows s.task_assignees) λ a e. ground (arith, other, e)),
    rw (C.rows-delete_many (at_event project_of_event p u) s.calendar_assignees) (
        filter-others (at_event project_of_event q v) (at_event project_of_event p u)
          (C.rows s.calendar_assignees) λ a e. ground (arith, other, e)),
    (λ j. evicted_holds s.locks u p v q j h ∙ rw other),
    filter-others (in_room q v) (in_room p u) s.rooms λ r e. ground (arith, other, e),
  )

  -- With at most one membership for each user in each project and no key with two leases, after a
  -- removal that succeeds the user has no role and nothing in the project (no assignment to its
  -- tasks or events, no lease of its fields, no place in its room), and anybody else there, and
  -- everybody in every other project, has the role, the assignments, the leases and the place in
  -- the room that they had.
  pub remove_member_clears :
      (p u rq : ℕ) (s : Store M A C)
      → OneEach (M.rows s.members)
      → UniqueKeys s.locks.leases
      → let after =
          remove_member M A C (belongs project_of_task) (belongs project_of_event) p u rq s in
        is_ok after.1 ≡ true
        → (role_of p u (M.rows after.0.members) ≡ none)
          × NoTrace M A C project_of_task project_of_event p u after.0
          × ((q v : ℕ) → (q == p && v == u) ≡ false → SameThere q v s after.0)
  remove_member_clears p u rq s h k passed =
      let (answer, is_s) =
        remove_member_is M A C (belongs project_of_task) (belongs project_of_event) p u rq s h in
      let allowed = sym answer ∙ passed in
      rw (is_s, allowed)
        (
          rw (M.rows-delete_many (is_member p u) s.members)
              (role_of-without p u p u (M.rows s.members) ∙ ground (arith, ==_refl p, ==_refl u)),
          removed-NoTrace M A C project_of_task project_of_event p u p u s k
              (λ other. let same : (p == p && u == u) ≡ true = ground arith in cc),
          λ q v. removed-SameThere p u q v s k,
        )
