-- ===== src/ProjectMembers.antt =====
-- backend/src/project-members/project-members.service.ts: who belongs to a project, in what role, and
-- what a change of members does to assignments, field locks and rooms. Each call runs alone in its
-- project (`withProjectLock`). The joined rows are left out, and so are the texts of notifications and
-- the events for other clients. A user's rooms are those that the user's sockets have joined
-- (backend/src/realtime/realtime.service.ts). The target policy of
-- docs/architecture/authentication-authorization.md differs from this code: there only owners promote,
-- and ownership passes on when an owner leaves.
pub mod Roles
pub mod Calls
pub mod Removing
pub mod Change
pub mod Steps
pub mod Team
pub mod Traces
pub mod Removal
pub mod Tidy
pub mod Examples
use transcendence.Prelude.{
  ℕ, zero, suc, ◌+◌, ◌-◌, ◌*◌, ◌≤◌, ◌<◌, min, max, String, ◌≡◌, refl, sym, ap, subst, ◌∙◌, ◌≡⟨◌⟩◌,
  ◌∎, ◌≢◌, ◌↔◌, ◌⊎◌, inl, inr, Bool, true, false, not, ◌&&◌, ◌||◌, Option, none, some, List, [],
  ◌∷◌, ◌++◌, map, arith, ltb, leb, ◌==◌, if◌then◌else◌, ltb→lt, lt→ltb, leb→le, ==_iff, ==_refl,
  Bool-cases, Option-cases, length, filter, any, find, All, length-append, All-append, All-mono,
  Result, ok, err, ◌>>=◌, ◌>>◌, throw_if, Result-cases, ℤ, pos, negsuc,
}
use transcendence.Prisma.{Table}
use transcendence.FieldLock.{FieldLockManager, ReleasedFieldLock, release_user_in_project}

pub data ProjectMemberRole : Type 0 where
  admin member owner : ProjectMemberRole

pub record ProjectMember : Type 0 where
  pub user_id : ℕ
  pub project_id : ℕ
  pub role : ProjectMemberRole

pub record TaskAssignee : Type 0 where
  pub user_id : ℕ
  pub task_id : ℕ

pub record CalendarAssignee : Type 0 where
  pub user_id : ℕ
  pub cal_id : ℕ

pub data Error : Type 0 where
  project_not_found only_owner_or_admin user_not_found already_member : Error
  cannot_remove_owner only_owner cannot_change_owner already_has_role : Error

pub data Message : Type 0 where
  was_added you_were_added left was_removed you_were_removed was_changed you_were_changed : Message

-- A notification's recipient and what it is about.
abbrev pub Notice : Type 0
Notice = ℕ × Message

abbrev pub is_owner : ProjectMemberRole → Bool
is_owner owner = true
is_owner _ = false

abbrev pub is_admin : ProjectMemberRole → Bool
is_admin admin = true
is_admin _ = false

abbrev pub same_role : ProjectMemberRole → ProjectMemberRole → Bool
same_role owner r = is_owner r
same_role admin r = is_admin r
same_role member r = not (is_owner r) && not (is_admin r)

abbrev pub is_member : ℕ → ℕ → ProjectMember → Bool
is_member project_id user_id m = m.project_id == project_id && m.user_id == user_id

-- `assertOwnerRequiredForAdminTarget`, as a test of whether it throws.
unfoldable pub owner_required_for_admin_target : ProjectMemberRole → ProjectMemberRole → Bool
owner_required_for_admin_target target_role requester_role =
    is_admin target_role && not (is_owner requester_role)

abbrev pub join_project_room : ℕ → ℕ → List (ℕ × ℕ) → List (ℕ × ℕ)
join_project_room user_id project_id rooms = (user_id, project_id) ∷ rooms

abbrev pub leave_project_room : ℕ → ℕ → List (ℕ × ℕ) → List (ℕ × ℕ)
leave_project_room user_id project_id rooms =
    filter (λ r. not (r.0 == user_id && r.1 == project_id)) rooms

abbrev pub told : Message → List ProjectMember → List Notice
told message members = map (λ m. (m.user_id, message)) members

module _ (M : Table ProjectMember) where
  -- `assertMembership` of backend/src/projects/projects.service.ts.
  unfoldable pub assert_membership : ℕ → ℕ → M.State → Result Error ProjectMember
  assert_membership project_id user_id m = elim (M.find_first (is_member project_id user_id) m) [
    | none ↦ err project_not_found
    | some row ↦ ok row
  ]

  -- The other members of a project, who are told of a change by `requesting_user_id` of `user_id`.
  abbrev pub other_members : ℕ → ℕ → ℕ → M.State → List ProjectMember
  other_members project_id user_id requesting_user_id m =
      M.find_many
        (λ r.
          r.project_id == project_id
          && not (r.user_id == user_id || r.user_id == requesting_user_id))
        m

  -- `findAll`, without the order (`createdAt`).
  abbrev pub find_members : ℕ → ℕ → M.State → Result Error (List ProjectMember)
  find_members project_id requesting_user_id m =
      assert_membership project_id requesting_user_id m >>= λ _.
      ok (M.find_many (λ r. r.project_id == project_id) m)

module _ (M : Table ProjectMember) (A : Table TaskAssignee) (C : Table CalendarAssignee) where
  pub record Store : Type 0 where
    pub members : M.State
    pub task_assignees : A.State
    pub calendar_assignees : C.State
    pub locks : FieldLockManager
    pub rooms : List (ℕ × ℕ)

  -- `user` is what `findUnique` gives for the username.
  unfoldable pub add_member :
      (project_id : ℕ) (user : Option ℕ) (requesting_user_id : ℕ)
      → Store
      → Store × Result Error (List Notice)
  unfolding assert_membership
  add_member project_id user requesting_user_id s =
      elim (assert_membership M project_id requesting_user_id s.members) [
        | err e ↦ (s, err e)
        | ok requester ↦
            if not (is_owner requester.role) && not (is_admin requester.role)
            then (s, err only_owner_or_admin)
            else (elim user [
              | none ↦ (s, err user_not_found)
              | some user_id ↦ elim (M.find_unique (is_member project_id user_id) s.members) [
                | some _ ↦ (s, err already_member)
                | none ↦
                    let members =
                      M.create
                        (record { user_id = user_id; project_id = project_id; role = member })
                        s.members in
                    (
                      record s {
                        members = members;
                        rooms = join_project_room user_id project_id s.rooms;
                      },
                      ok (
                          told was_added
                            (other_members M project_id user_id requesting_user_id members)
                          ++ (user_id, you_were_added) ∷ []),
                    )
              ]
            ])
      ]

  -- `removeMember` once its checks have passed. `task_in` and `event_in` tell which tasks and calendar
  -- events belong to a project.
  unfoldable pub remove_membership :
      (task_in event_in : ℕ → ℕ → Bool) (project_id user_id requesting_user_id : ℕ)
      → (is_self_removal : Bool) → Store
      → Store × Result Error (List Notice × List ReleasedFieldLock)
  remove_membership task_in event_in project_id user_id requesting_user_id is_self_removal s =
      elim (M.delete (is_member project_id user_id) s.members) [
        | none ↦ (s, err project_not_found)
        | some (removed, members) ↦
            let (locks, released) = release_user_in_project s.locks user_id project_id in
            let remaining =
              M.find_many (λ r. r.project_id == project_id && not (r.user_id == requesting_user_id))
                members in
            (
              record {
                members = members;
                task_assignees =
                    A.delete_many (λ a. a.user_id == user_id && task_in project_id a.task_id)
                      s.task_assignees;
                calendar_assignees =
                    C.delete_many (λ c. c.user_id == user_id && event_in project_id c.cal_id)
                      s.calendar_assignees;
                locks = locks;
                rooms = leave_project_room user_id project_id s.rooms;
              },
              ok (
                told (if is_self_removal then left else was_removed) remaining
                    ++ (if is_self_removal then [] else (user_id, you_were_removed) ∷ []),
                released,
              ),
            )
      ]

  unfoldable pub remove_member :
      (task_in event_in : ℕ → ℕ → Bool) (project_id user_id requesting_user_id : ℕ)
      → Store
      → Store × Result Error (List Notice × List ReleasedFieldLock)
  unfolding assert_membership owner_required_for_admin_target remove_membership
  remove_member task_in event_in project_id user_id requesting_user_id s =
      elim (assert_membership M project_id requesting_user_id s.members) [
        | err e ↦ (s, err e)
        | ok requester ↦
            let is_self_removal = requesting_user_id == user_id in
            if not is_self_removal && not (is_owner requester.role) && not (is_admin requester.role)
            then (s, err only_owner_or_admin)
            else (elim (if is_self_removal
                then ok requester
                else assert_membership M project_id user_id s.members) [
                  | err e ↦ (s, err e)
                  | ok member_to_remove ↦
                      if is_owner member_to_remove.role
                      then (s, err cannot_remove_owner)
                      else if not is_self_removal
                          && owner_required_for_admin_target member_to_remove.role requester.role
                      then (s, err only_owner)
                      else remove_membership task_in event_in project_id user_id requesting_user_id
                          is_self_removal s
                ])
      ]

  -- `new_role` is ADMIN or MEMBER.
  unfoldable pub update_member_role :
      (project_id user_id : ℕ)
      → (new_role : ProjectMemberRole) → (requesting_user_id : ℕ) → Store
      → Store × Result Error (List Notice)
  unfolding assert_membership owner_required_for_admin_target
  update_member_role project_id user_id new_role requesting_user_id s =
      elim (assert_membership M project_id requesting_user_id s.members) [
        | err e ↦ (s, err e)
        | ok requester ↦
            if not (is_owner requester.role) && not (is_admin requester.role)
            then (s, err only_owner_or_admin)
            else (elim (assert_membership M project_id user_id s.members) [
              | err e ↦ (s, err e)
              | ok member_to_update ↦
                  if is_owner member_to_update.role
                  then (s, err cannot_change_owner)
                  else if same_role new_role member
                      && owner_required_for_admin_target member_to_update.role requester.role
                  then (s, err only_owner)
                  else if same_role member_to_update.role new_role
                  then (s, err already_has_role)
                  else (elim (M.update (is_member project_id user_id)
                      (λ r. record r { role = new_role }) s.members) [
                        | none ↦ (s, err project_not_found)
                        | some members ↦ (
                          record s { members = members },
                          ok (
                              told was_changed
                                (other_members M project_id user_id requesting_user_id members)
                              ++ (user_id, you_were_changed) ∷ []),
                        )
                      ])
            ])
      ]
