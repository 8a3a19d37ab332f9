-- ===== src/ProjectMembers/Calls.antt =====
-- When the calls succeed, by the matrix of roles; and an addition.
use transcendence.Prelude.{
  ℕ, ◌≡◌, refl, inl, inr, Bool, true, false, ◌&&◌, Option, none, some, arith, if◌then◌else◌,
  Option-cases, find, Result, ok, err,
}
use transcendence.Prisma.{Table}
use transcendence.ProjectMembers.{
  ProjectMember, ProjectMemberRole, owner, admin, member, TaskAssignee, CalendarAssignee, Store,
  project_not_found, is_member, assert_membership, add_member, join_project_room,
}
use transcendence.ProjectMembers.Roles.{OneEach, role_of}

abbrev pub is_ok : {E A : Type 0} → Result E A → Bool
is_ok (ok a) = true
is_ok (err e) = false

-- Who may add a member.
abbrev pub may_add : Option ProjectMemberRole → Bool
may_add (some owner) = true
may_add (some admin) = true
may_add _ = false

-- Who may remove whom: whether they are the same, the requester's role and the other's.
abbrev pub may_remove : Bool → Option ProjectMemberRole → Option ProjectMemberRole → Bool
may_remove true (some admin) _ = true
may_remove true (some member) _ = true
may_remove false (some owner) (some admin) = true
may_remove false (some owner) (some member) = true
may_remove false (some admin) (some member) = true
may_remove _ _ _ = false

-- Who may give whom a role: the role, the requester's role and the other's.
abbrev pub may_change :
    ProjectMemberRole → Option ProjectMemberRole → Option ProjectMemberRole → Bool
may_change admin (some owner) (some member) = true
may_change admin (some admin) (some member) = true
may_change member (some owner) (some admin) = true
may_change _ _ _ = false

-- Whether the user is no member yet.
abbrev pub is_free : Option ProjectMemberRole → Bool
is_free none = true
is_free (some _) = false

module _ (M : Table ProjectMember) where
  pub no_membership :
      (p u : ℕ) (m : M.State)
      → OneEach (M.rows m)
      → find (is_member p u) (M.rows m) ≡ none
      → assert_membership M p u m ≡ err project_not_found
  unfolding assert_membership
  no_membership p u m h e = rw (assert_membership, M.find_first_lem (is_member p u) m (h p u), e)

  pub membership :
      (p u : ℕ) (m : M.State) (x : ProjectMember)
      → OneEach (M.rows m)
      → find (is_member p u) (M.rows m) ≡ some x
      → assert_membership M p u m ≡ ok x
  unfolding assert_membership
  membership p u m x h e = rw (assert_membership, M.find_first_lem (is_member p u) m (h p u), e)

module _ (M : Table ProjectMember) (A : Table TaskAssignee) (C : Table CalendarAssignee) where
  abbrev pub added : ℕ → ℕ → Store M A C → Store M A C
  added p u s = record s {
    members = M.create (record { user_id = u; project_id = p; role = member }) s.members;
    rooms = join_project_room u p s.rooms;
  }

  pub add_member_is :
      (p u rq : ℕ) (s : Store M A C)
      → OneEach (M.rows s.members)
      → let allowed =
          may_add (role_of p rq (M.rows s.members)) && is_free (role_of p u (M.rows s.members)) in
        let after = add_member M A C p (some u) rq s in
        (is_ok after.1 ≡ allowed) × (after.0 ≡ (if allowed then added p u s else s))
  unfolding add_member
  add_member_is p u rq s h = elim (Option-cases (find (is_member p rq) (M.rows s.members))) [
    | inl e ↦ rw (no_membership M p rq s.members h e, e, add_member) (refl, refl)
    | inr (x, e) ↦
        rw
          (
            membership M p rq s.members x h e,
            e,
            add_member,
            M.find_unique_lem (is_member p u) s.members (h p u),
          )
          (ground arith)
  ]
