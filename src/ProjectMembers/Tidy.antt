-- ===== src/ProjectMembers/Tidy.antt =====
-- Calls on the members and replacements of a task's assignees, in any sequence.
use transcendence.Prelude.{
  any-append, ℕ, ◌≡◌, refl, inl, inr, false, not, none, List, [], ◌∷◌, arith, Bool-cases, filter,
  any,
}
use transcendence.Prisma.{Table}
use transcendence.ProjectMembers.{ProjectMember, TaskAssignee, CalendarAssignee, Store, is_member}
use transcendence.ProjectMembers.Roles.{role_of}
use transcendence.ProjectMembers.Steps.{Request}
use transcendence.ProjectMembers.Team.{perform}
use transcendence.ProjectMembers.Traces.{any-filter, belongs, on_task, IsTidy, perform-IsTidy}
use transcendence.Tasks.Assignees.{
  assignments, of_task, replace_assignees_in_transaction, some_are_no_members, AreMembers,
  some_are_no_members_iff, with_assignees, rows-with_assignees,
}

-- A call on the members, or new assignees for a task.
pub data Event : Type 0 where
  calls : Request → Event
  assigns : ℕ → List ℕ → Event

any_absent :
    (p u : ℕ) (ms : List ProjectMember) → role_of p u ms ≡ none → any (is_member p u) ms ≡ false
any_absent p u [] e = refl
any_absent p u (m ∷ ms) e = ground (arith, any_absent p u ms)

module _ (project_of_task : ℕ → ℕ) where
  no_assignment :
      (t p u : ℕ) (is : List ℕ) (ms : List ProjectMember)
      → AreMembers (project_of_task t) ms is
      → role_of p u ms ≡ none
      → any (on_task project_of_task p u) (assignments t is) ≡ false
  no_assignment t p u [] ms h out = refl
  no_assignment t p u (i ∷ is) ms ((_, distinct), (here, rest)) out =
      let later = no_assignment t p u is ms (distinct, rest) out in
      elim (Bool-cases (on_task project_of_task p u (record { user_id = i; task_id = t }))) [
        | inr other ↦ rw (other, later)
        | inl same ↦
            let is_p : project_of_task t ≡ p = ground (arith, same) in
            let is_u : i ≡ u = ground (arith, same) in
            let there = rw (is_p, is_u) at here in let absent = any_absent p u ms out in cc
      ]

module _ (M : Table ProjectMember) (A : Table TaskAssignee) (C : Table CalendarAssignee)
    (project_of_task project_of_event : ℕ → ℕ) where
  abbrev pub happen : Event → Store M A C → Store M A C
  happen (calls r) s =
      perform M A C (belongs project_of_task) (belongs project_of_event) r.project_id r.caller
        r.call s
  happen (assigns t users) s = record s {
    task_assignees =
        (replace_assignees_in_transaction M A t (project_of_task t) users s.members
          s.task_assignees).0;
  }

  abbrev pub history : List Event → Store M A C → Store M A C
  history [] s = s
  history (e ∷ es) s = history es (happen e s)

  assigns-IsTidy :
      (t : ℕ) (users : List ℕ) (s : Store M A C)
      → IsTidy M A C project_of_task project_of_event s
      → IsTidy M A C project_of_task project_of_event (happen (assigns t users) s)
  unfolding replace_assignees_in_transaction
  assigns-IsTidy t users s tidy =
      elim (Bool-cases (some_are_no_members M (project_of_task t) users s.members)) [
        | inl refused ↦ rw refused tidy
        | inr fine ↦ rw fine (record {
          unique = tidy.unique;
          unique_keys = tidy.unique_keys;
          outsiders = λ p u out.
              let (no_task, no_event, no_lease, no_room) = tidy.outsiders p u out in
              let old =
                any-filter (on_task project_of_task p u) (λ r. not (of_task t r))
                  (A.rows s.task_assignees) no_task in
              let new =
                no_assignment project_of_task t p u users (M.rows s.members)
                  ((some_are_no_members_iff M (project_of_task t) users s.members tidy.unique).0
                    fine)
                  out in
              let now : any (on_task project_of_task p u)
                    (A.rows (with_assignees M A t users s.task_assignees))
                  ≡ false =
                rw (
                  rows-with_assignees M A t users s.task_assignees,
                  any-append (on_task project_of_task p u)
                      (filter (λ r. not (of_task t r)) (A.rows s.task_assignees))
                      (assignments t users),
                  old,
                  new,
                ) in
              (now, no_event, no_lease, no_room);
        })
      ]

  -- Starting from a store where the rows of members keep their unique constraint, no key has two
  -- leases and those who are no members of a project have nothing in it (no assignment to its
  -- tasks or events, no lease of its fields, no place in its room), any sequence of additions,
  -- removals, changes of roles and replacements of a task's assignees leaves such a store.
  pub history-IsTidy :
      (es : List Event) (s : Store M A C)
      → IsTidy M A C project_of_task project_of_event s
      → IsTidy M A C project_of_task project_of_event (history es s)
  history-IsTidy [] s h = h
  history-IsTidy (calls r ∷ es) s h =
      history-IsTidy es _
        (perform-IsTidy M A C project_of_task project_of_event r.project_id r.caller r.call s h)
  history-IsTidy (assigns t users ∷ es) s h = history-IsTidy es _ (assigns-IsTidy t users s h)
