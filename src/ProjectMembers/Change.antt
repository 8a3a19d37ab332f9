-- ===== src/ProjectMembers/Change.antt =====
-- When a change of a role succeeds, and what it changes.
use transcendence.Prelude.{
  ℕ, ◌≡◌, refl, inl, inr, Bool, true, false, not, ◌&&◌, Option, none, some, List, [], ◌∷◌, ◌++◌,
  arith, if◌then◌else◌, Option-cases, any, find, Result, ok, err,
}
use transcendence.Prisma.{Table}
use transcendence.ProjectMembers.{
  ProjectMember, ProjectMemberRole, owner, admin, member, TaskAssignee, CalendarAssignee, Error,
  Notice, Store, cannot_change_owner, only_owner, only_owner_or_admin, already_has_role, is_owner,
  is_admin, same_role, is_member, update_member_role, owner_required_for_admin_target, told,
  other_members, you_were_changed, was_changed,
}
use transcendence.ProjectMembers.Roles.{OneEach, role_of}
use transcendence.ProjectMembers.Calls.{is_ok, may_change, no_membership, membership}

any-find :
    (p : ProjectMember → Bool) (ms : List ProjectMember) (x : ProjectMember)
    → find p ms ≡ some x
    → any p ms ≡ true
any-find p [] x e = cc
any-find p (m ∷ ms) x e = ground (arith, any-find p ms x)

module _ (M : Table ProjectMember) (A : Table TaskAssignee) (C : Table CalendarAssignee) where
  abbrev pub changed : ℕ → ℕ → ProjectMemberRole → Store M A C → Store M A C
  changed p u role s = record s {
    members = M.update_many (is_member p u) (λ r. record r { role = role }) s.members;
  }

  change_roles :
      {R : Type 0} (new x y : ProjectMemberRole) (s t : Store M A C)
      (done : Store M A C × Result Error R)
      → is_owner new ≡ false
      → is_ok done.1 ≡ true
      → done.0 ≡ t
      → let after =
          if not (is_owner x) && not (is_admin x)
          then (s, err only_owner_or_admin)
          else if is_owner y
          then (s, err cannot_change_owner)
          else if same_role new member && (is_admin y && not (is_owner x))
          then (s, err only_owner)
          else if same_role y new
          then (s, err already_has_role)
          else done in
        (is_ok after.1 ≡ may_change new (some x) (some y))
        × (after.0 ≡ (if may_change new (some x) (some y) then t else s))
  change_roles owner x y s t done low h g = ground (arith, low)
  change_roles admin owner owner s t done low h g = (refl, refl)
  change_roles admin owner admin s t done low h g = (refl, refl)
  change_roles admin owner member s t done low h g = (h, g)
  change_roles admin admin owner s t done low h g = (refl, refl)
  change_roles admin admin admin s t done low h g = (refl, refl)
  change_roles admin admin member s t done low h g = (h, g)
  change_roles admin member y s t done low h g = (refl, refl)
  change_roles member owner owner s t done low h g = (refl, refl)
  change_roles member owner admin s t done low h g = (h, g)
  change_roles member owner member s t done low h g = (refl, refl)
  change_roles member admin owner s t done low h g = (refl, refl)
  change_roles member admin admin s t done low h g = (refl, refl)
  change_roles member admin member s t done low h g = (refl, refl)
  change_roles member member y s t done low h g = (refl, refl)

  no_role : (r : ProjectMemberRole) (q : Option ProjectMemberRole) → may_change r none q ≡ false
  no_role owner q = refl
  no_role admin q = refl
  no_role member q = refl

  no_other : (r q : ProjectMemberRole) → may_change r (some q) none ≡ false
  no_other owner q = refl
  no_other admin owner = refl
  no_other admin admin = refl
  no_other admin member = refl
  no_other member owner = refl
  no_other member admin = refl
  no_other member member = refl

  no_target :
      (p u rq : ℕ) (new : ProjectMemberRole) (s : Store M A C) (x : ProjectMember)
      → OneEach (M.rows s.members)
      → find (is_member p rq) (M.rows s.members) ≡ some x
      → find (is_member p u) (M.rows s.members) ≡ none
      → let after = update_member_role M A C p u new rq s in (is_ok after.1 ≡ false) × (after.0 ≡ s)
  unfolding update_member_role
  no_target p u rq new s x h e e' =
      rw (membership M p rq s.members x h e, update_member_role, no_membership M p u s.members h e')
        (ground arith)

  -- The end of the call, if it gets there.
  abbrev finished :
      ℕ → ℕ → ProjectMemberRole → ℕ → Store M A C → Store M A C × Result Error (List Notice)
  finished p u new rq s = (
    changed p u new s,
    ok (
        told was_changed (other_members M p u rq (changed p u new s).members)
        ++ (u, you_were_changed) ∷ []),
  )

  both_found :
      (p u rq : ℕ) (new : ProjectMemberRole) (s : Store M A C) (x y : ProjectMember)
      → OneEach (M.rows s.members)
      → find (is_member p rq) (M.rows s.members) ≡ some x
      → find (is_member p u) (M.rows s.members) ≡ some y
      → update_member_role M A C p u new rq s ≡ (
          if not (is_owner x.role) && not (is_admin x.role)
          then (s, err only_owner_or_admin)
          else if is_owner y.role
          then (s, err cannot_change_owner)
          else if same_role new member && (is_admin y.role && not (is_owner x.role))
          then (s, err only_owner)
          else if same_role y.role new
          then (s, err already_has_role)
          else finished p u new rq s)
  unfolding update_member_role owner_required_for_admin_target
  both_found p u rq new s x y h e e' =
      let there : M.update (is_member p u) (λ r. record r { role = new }) s.members
          ≡ some (changed p u new s).members =
        rw (any-find (is_member p u) (M.rows s.members) y e') at
          (M.update_lem (is_member p u) (λ r. record r { role = new }) s.members) in
      rw (
        membership M p rq s.members x h e,
        update_member_role,
        membership M p u s.members y h e',
        there,
      )

  pub update_member_role_is :
      (p u rq : ℕ) (new : ProjectMemberRole) (s : Store M A C)
      → OneEach (M.rows s.members)
      → is_owner new ≡ false
      → let allowed =
          may_change new (role_of p rq (M.rows s.members)) (role_of p u (M.rows s.members)) in
        let after = update_member_role M A C p u new rq s in
        (is_ok after.1 ≡ allowed) × (after.0 ≡ (if allowed then changed p u new s else s))
  unfolding update_member_role
  update_member_role_is p u rq new s h low =
      elim (Option-cases (find (is_member p rq) (M.rows s.members))) [
        | inl e ↦
            rw
              (
                no_membership M p rq s.members h e,
                e,
                update_member_role,
                no_role new (role_of p u (M.rows s.members)),
              )
              (refl, refl)
        | inr (x, e) ↦ elim (Option-cases (find (is_member p u) (M.rows s.members))) [
          | inl e' ↦ rw (e, e', no_other new x.role) (no_target p u rq new s x h e e')
          | inr (y, e') ↦
              rw (e, e', both_found p u rq new s x y h e e')
                (change_roles new x.role y.role s _ _ low refl refl)
        ]
      ]
