-- ===== src/ProjectMembers/Removing.antt =====
-- When a removal succeeds, and what it leaves.
use transcendence.Prelude.{
  ℕ, ◌≡◌, refl, inl, inr, Bool, true, false, not, ◌&&◌, Option, none, some, arith, ◌==◌,
  if◌then◌else◌, ==_refl, Bool-cases, Option-cases, find, Result, err,
}
use transcendence.Prisma.{Table}
use transcendence.FieldLock.{release_user_in_project}
use transcendence.ProjectMembers.{
  ProjectMember, ProjectMemberRole, owner, admin, member, TaskAssignee, CalendarAssignee, Error,
  Store, project_not_found, cannot_remove_owner, only_owner, only_owner_or_admin, is_owner,
  is_admin, is_member, remove_member, remove_membership, leave_project_room,
  owner_required_for_admin_target,
}
use transcendence.ProjectMembers.Roles.{OneEach, role_of}
use transcendence.ProjectMembers.Calls.{is_ok, may_remove, no_membership, membership}

module _ (M : Table ProjectMember) (A : Table TaskAssignee) (C : Table CalendarAssignee) where
  abbrev pub removed : (task_in event_in : ℕ → ℕ → Bool) → ℕ → ℕ → Store M A C → Store M A C
  removed task_in event_in p u s = record {
    members = M.delete_many (is_member p u) s.members;
    task_assignees = A.delete_many (λ a. a.user_id == u && task_in p a.task_id) s.task_assignees;
    calendar_assignees =
        C.delete_many (λ c. c.user_id == u && event_in p c.cal_id) s.calendar_assignees;
    locks = (release_user_in_project s.locks u p).0;
    rooms = leave_project_room u p s.rooms;
  }

  remove_membership_is :
      (task_in event_in : ℕ → ℕ → Bool) (p u rq : ℕ) (self : Bool) (s : Store M A C)
      (y : ProjectMember)
      → OneEach (M.rows s.members)
      → find (is_member p u) (M.rows s.members) ≡ some y
      → let after = remove_membership M A C task_in event_in p u rq self s in
        (is_ok after.1 ≡ true) × (after.0 ≡ removed task_in event_in p u s)
  unfolding remove_membership
  remove_membership_is task_in event_in p u rq self s y h e =
      let gone : M.delete (is_member p u) s.members
          ≡ some (y, M.delete_many (is_member p u) s.members) =
        rw e at (M.delete_lem (is_member p u) s.members (h p u)) in
      rw (gone, remove_membership) (refl, refl)

  remove_member_self :
      (task_in event_in : ℕ → ℕ → Bool) (p u : ℕ) (s : Store M A C) (x : ProjectMember)
      → OneEach (M.rows s.members)
      → find (is_member p u) (M.rows s.members) ≡ some x
      → remove_member M A C task_in event_in p u u s ≡ (
          if is_owner x.role
          then (s, err cannot_remove_owner)
          else remove_membership M A C task_in event_in p u u true s)
  unfolding remove_member
  remove_member_self task_in event_in p u s x h e =
      rw (membership M p u s.members x h e, remove_member, ==_refl u) (rw (==_refl u))

  remove_member_other :
      (task_in event_in : ℕ → ℕ → Bool) (p u rq : ℕ) (s : Store M A C) (x y : ProjectMember)
      → OneEach (M.rows s.members)
      → (rq == u) ≡ false
      → find (is_member p rq) (M.rows s.members) ≡ some x
      → find (is_member p u) (M.rows s.members) ≡ some y
      → remove_member M A C task_in event_in p u rq s ≡ (
          if not (is_owner x.role) && not (is_admin x.role)
          then (s, err only_owner_or_admin)
          else if is_owner y.role
          then (s, err cannot_remove_owner)
          else if is_admin y.role && not (is_owner x.role)
          then (s, err only_owner)
          else remove_membership M A C task_in event_in p u rq false s)
  unfolding remove_member owner_required_for_admin_target
  remove_member_other task_in event_in p u rq s x y h other e e' =
      rw
        (membership M p rq s.members x h e, remove_member, other, membership M p u s.members y h e')
        (rw other)

  -- The guards on the two roles.
  remove_roles :
      {R : Type 0} (x y : ProjectMemberRole) (s t : Store M A C)
      (done : Store M A C × Result Error R)
      → is_ok done.1 ≡ true
      → done.0 ≡ t
      → let after =
          if not (is_owner x) && not (is_admin x)
          then (s, err only_owner_or_admin)
          else if is_owner y
          then (s, err cannot_remove_owner)
          else if is_admin y && not (is_owner x)
          then (s, err only_owner)
          else done in
        (is_ok after.1 ≡ may_remove false (some x) (some y))
        × (after.0 ≡ (if may_remove false (some x) (some y) then t else s))
  remove_roles owner owner s t done h g = (refl, refl)
  remove_roles owner admin s t done h g = (h, g)
  remove_roles owner member s t done h g = (h, g)
  remove_roles admin owner s t done h g = (refl, refl)
  remove_roles admin admin s t done h g = (refl, refl)
  remove_roles admin member s t done h g = (h, g)
  remove_roles member y s t done h g = (refl, refl)

  self_roles :
      {R : Type 0} (x : ProjectMemberRole) (s t : Store M A C) (done : Store M A C × Result Error R)
      → is_ok done.1 ≡ true
      → done.0 ≡ t
      → let after = if is_owner x then (s, err cannot_remove_owner) else done in
        (is_ok after.1 ≡ may_remove true (some x) (some x))
        × (after.0 ≡ (if may_remove true (some x) (some x) then t else s))
  self_roles owner s t done h g = (refl, refl)
  self_roles admin s t done h g = (h, g)
  self_roles member s t done h g = (h, g)

  no_requester :
      (task_in event_in : ℕ → ℕ → Bool) (p u rq : ℕ) (s : Store M A C)
      → OneEach (M.rows s.members)
      → find (is_member p rq) (M.rows s.members) ≡ none
      → remove_member M A C task_in event_in p u rq s ≡ (s, err project_not_found)
  unfolding remove_member
  no_requester task_in event_in p u rq s h e =
      rw (no_membership M p rq s.members h e, remove_member)

  no_target :
      (task_in event_in : ℕ → ℕ → Bool) (p u rq : ℕ) (s : Store M A C) (x : ProjectMember)
      → OneEach (M.rows s.members)
      → (rq == u) ≡ false
      → find (is_member p rq) (M.rows s.members) ≡ some x
      → find (is_member p u) (M.rows s.members) ≡ none
      → let after = remove_member M A C task_in event_in p u rq s in
        (is_ok after.1 ≡ false) × (after.0 ≡ s)
  unfolding remove_member
  no_target task_in event_in p u rq s x h other e e' =
      rw
        (
          membership M p rq s.members x h e,
          remove_member,
          other,
          no_membership M p u s.members h e',
        )
        (ground arith)

  no_role : (b : Bool) (q : Option ProjectMemberRole) → may_remove b none q ≡ false
  no_role true q = refl
  no_role false q = refl

  no_other : (q : ProjectMemberRole) → may_remove false (some q) none ≡ false
  no_other owner = refl
  no_other admin = refl
  no_other member = refl

  pub remove_member_is :
      (task_in event_in : ℕ → ℕ → Bool) (p u rq : ℕ) (s : Store M A C)
      → OneEach (M.rows s.members)
      → let allowed =
          may_remove (rq == u) (role_of p rq (M.rows s.members)) (role_of p u (M.rows s.members)) in
        let after = remove_member M A C task_in event_in p u rq s in
        (is_ok after.1 ≡ allowed)
        × (after.0 ≡ (if allowed then removed task_in event_in p u s else s))
  remove_member_is task_in event_in p u rq s h =
      elim (Option-cases (find (is_member p rq) (M.rows s.members))) [
        | inl e ↦
            rw
              (
                e,
                no_requester task_in event_in p u rq s h e,
                no_role (rq == u) (role_of p u (M.rows s.members)),
              )
              (refl, refl)
        | inr (x, e) ↦ elim (Bool-cases (rq == u)) [
          | inl same ↦
              let is_u : rq ≡ u = ground (arith, same) in
              let e' = rw is_u at e in
              let done = remove_membership_is task_in event_in p u u true s x h e' in
              rw (is_u, ==_refl u, e', remove_member_self task_in event_in p u s x h e')
                (self_roles x.role s _ _ done.0 done.1)
          | inr other ↦ elim (Option-cases (find (is_member p u) (M.rows s.members))) [
            | inl e' ↦
                rw (e, e', other, no_other x.role)
                  (no_target task_in event_in p u rq s x h other e e')
            | inr (y, e') ↦
                let done = remove_membership_is task_in event_in p u rq false s y h e' in
                rw (e, e', other, remove_member_other task_in event_in p u rq s x y h other e e')
                  (remove_roles x.role y.role s _ _ done.0 done.1)
          ]
        ]
      ]
