-- ===== src/ProjectMembers/Team.antt =====
-- Sequences of calls on the members of projects, and what they make of everybody's role.
use transcendence.Prelude.{
  ℕ, ◌≡◌, refl, ap, ◌∙◌, inl, inr, Bool, false, ◌&&◌, none, some, List, [], ◌∷◌, arith, ◌==◌,
  if◌then◌else◌, ==_iff, Bool-cases, Result-cases,
}
use transcendence.Prisma.{Table}
use transcendence.ProjectMembers.{
  ProjectMember, ProjectMemberRole, admin, member, TaskAssignee, CalendarAssignee, Store, is_owner,
  is_member, add_member, remove_member, update_member_role, assert_membership,
}
use transcendence.ProjectMembers.Roles.{OneEach, role_of, owners}
use transcendence.ProjectMembers.Calls.{may_add, may_remove, may_change, is_free, add_member_is}
use transcendence.ProjectMembers.Removing.{remove_member_is}
use transcendence.ProjectMembers.Change.{update_member_role_is}
use transcendence.ProjectMembers.Steps.{
  Call, adds, removes, promotes, demotes, Request, set, call_spec, run_spec, roles, Step, joined,
  append-Step, without-Step, with_role-Step, role_found, removable, changeable,
}

module _ (M : Table ProjectMember) (A : Table TaskAssignee) (C : Table CalendarAssignee)
    (task_in event_in : ℕ → ℕ → Bool) where
  abbrev pub perform : ℕ → ℕ → Call → Store M A C → Store M A C
  perform p rq (adds user) s = (add_member M A C p user rq s).0
  perform p rq (removes u) s = (remove_member M A C task_in event_in p u rq s).0
  perform p rq (promotes u) s = (update_member_role M A C p u admin rq s).0
  perform p rq (demotes u) s = (update_member_role M A C p u member rq s).0

  abbrev pub run : List Request → Store M A C → Store M A C
  run [] s = s
  run (r ∷ rs) s = run rs (perform r.project_id r.caller r.call s)

  abbrev members_of : Store M A C → List ProjectMember
  members_of s = M.rows s.members

  same-Step :
      (s : Store M A C)
      → OneEach (members_of s)
      → Step (members_of s) (members_of s) (roles (members_of s))
  same-Step s h = (h, refl, λ p. refl)

  pub no_user : (p rq : ℕ) (s : Store M A C) → (add_member M A C p none rq s).0 ≡ s
  unfolding add_member
  no_user p rq s = elim (Result-cases (assert_membership M p rq s.members)) [
    | inl (e, eq) ↦ rw (add_member, eq)
    | inr (x, eq) ↦ rw (add_member, eq) (ground arith)
  ]

  adds-Step :
      (p rq u : ℕ) (s : Store M A C)
      → OneEach (members_of s)
      → Step
          (members_of s)
          (members_of (add_member M A C p (some u) rq s).0)
          (call_spec p rq (adds (some u)) (roles (members_of s)))
  adds-Step p rq u s h =
      rw (add_member_is M A C p u rq s h).1
        (elim (Bool-cases
          (may_add (role_of p rq (members_of s)) && is_free (role_of p u (members_of s)))) [
            | inr e ↦ rw e (same-Step s h)
            | inl e ↦
                rw (e, M.rows-create (joined p u) s.members)
                  (append-Step p u (members_of s) h (ground (arith, e)))
          ])

  removes-Step :
      (p rq u : ℕ) (s : Store M A C)
      → OneEach (members_of s)
      → Step
          (members_of s)
          (members_of (remove_member M A C task_in event_in p u rq s).0)
          (call_spec p rq (removes u) (roles (members_of s)))
  removes-Step p rq u s h =
      let allowed =
        may_remove (rq == u) (role_of p rq (members_of s)) (role_of p u (members_of s)) in
      rw (remove_member_is M A C task_in event_in p u rq s h).1 (elim (Bool-cases allowed) [
        | inr e ↦ rw e (same-Step s h)
        | inl e ↦
            let (r, known, low) =
              removable (rq == u) _ _
                (λ same. ap (λ v. role_of p v (members_of s)) ((==_iff rq u).0 same)) e in
            let (m, found, is_r) = role_found p u (members_of s) r known in
            rw (e, M.rows-delete_many (is_member p u) s.members)
              (without-Step p u (members_of s) m h found (ground (arith, low, is_r)))
      ])

  changed-Step :
      (p rq u : ℕ) (new : ProjectMemberRole) (s : Store M A C)
      → OneEach (members_of s)
      → is_owner new ≡ false
      → Step (members_of s) (members_of (update_member_role M A C p u new rq s).0) (
          if may_change new (role_of p rq (members_of s)) (role_of p u (members_of s))
          then set p u (some new) (roles (members_of s))
          else roles (members_of s))
  changed-Step p rq u new s h low' =
      let allowed = may_change new (role_of p rq (members_of s)) (role_of p u (members_of s)) in
      rw (update_member_role_is M A C p u rq new s h low').1 (elim (Bool-cases allowed) [
        | inr e ↦ rw e (same-Step s h)
        | inl e ↦
            let (r, known, low) = changeable new _ _ e in
            let (m, found, is_r) = role_found p u (members_of s) r known in
            rw (e, M.rows-update_many (is_member p u) (λ r. record r { role = new }) s.members)
              (with_role-Step p u new (members_of s) m h found (ground (arith, low, is_r)) low')
      ])

  pub perform-Step :
      (p rq : ℕ) (call : Call) (s : Store M A C)
      → OneEach (members_of s)
      → Step
          (members_of s)
          (members_of (perform p rq call s))
          (call_spec p rq call (roles (members_of s)))
  perform-Step p rq (adds none) s h = rw (no_user p rq s) (same-Step s h)
  perform-Step p rq (adds (some u)) s h = adds-Step p rq u s h
  perform-Step p rq (removes u) s h = removes-Step p rq u s h
  perform-Step p rq (promotes u) s h = changed-Step p rq u admin s h refl
  perform-Step p rq (demotes u) s h = changed-Step p rq u member s h refl

  -- With at most one membership for each user in each project, after any sequence of calls
  -- everybody's role in every project is what the specification by the matrix of roles gives:
  -- owners and admins add members; an owner removes anybody else but an owner, an admin a member,
  -- and admins and members themselves; an owner or admin promotes a member, and only an owner
  -- demotes an admin; every other call changes nothing.
  pub run-roles :
      (rs : List Request) (s : Store M A C)
      → OneEach (members_of s)
      → roles (M.rows (run rs s).members) ≡ run_spec rs (roles (members_of s))
  run-roles [] s h = refl
  run-roles (r ∷ rs) s h =
      let (unique, now, _) = perform-Step r.project_id r.caller r.call s h in
      run-roles rs (perform r.project_id r.caller r.call s) unique ∙ ap (run_spec rs) now

  -- With at most one membership for each user in each project, after any sequence of calls this
  -- still holds, and every project has the same rows of owners as before, also where an owner asks
  -- to leave.
  pub run-owners :
      (rs : List Request) (s : Store M A C)
      → OneEach (members_of s)
      → OneEach (M.rows (run rs s).members)
        × ((p : ℕ) → owners p (M.rows (run rs s).members) ≡ owners p (members_of s))
  run-owners [] s h = (h, λ p. refl)
  run-owners (r ∷ rs) s h =
      let (unique, _, kept) = perform-Step r.project_id r.caller r.call s h in
      let (unique', kept') = run-owners rs (perform r.project_id r.caller r.call s) unique in
      (unique', λ p. kept' p ∙ kept p)
