-- ===== src/ProjectMembers/Examples.antt =====
-- A project 1 of its owner 5, the admin 6 and the member 7, with a task 11 and an event 21; and a
-- project 2 of which 7 is the owner.
use transcendence.Prelude.{
  ℕ, ◌≡◌, refl, true, false, ◌&&◌, none, some, List, [], ◌∷◌, arith, ◌==◌, ok, err,
}
use transcendence.Prisma.{Table}
use transcendence.Prisma.Memory.{memory}
use transcendence.JsMap.{get}
use transcendence.JsMap.Laws.{UniqueKeys}
use transcendence.FieldLock.{FieldLockLease}
use transcendence.ProjectMembers.{
  ProjectMember, ProjectMemberRole, owner, admin, member, TaskAssignee, CalendarAssignee, Store,
  project_not_found, only_owner, was_added, you_were_added, add_member, remove_member,
  update_member_role, find_members, remove_membership, assert_membership,
  owner_required_for_admin_target,
}
use transcendence.ProjectMembers.Roles.{OneEach, role_of, owners}
use transcendence.ProjectMembers.Steps.{Call, adds, removes, promotes, Request, run_spec, roles}
use transcendence.ProjectMembers.Team.{run, run-roles, run-owners}
use transcendence.ProjectMembers.Traces.{belongs, NoTrace, IsTidy}
use transcendence.ProjectMembers.Removal.{SameThere, remove_member_clears}
use transcendence.ProjectMembers.Tidy.{calls, assigns, history, history-IsTidy}

abbrev people : Table ProjectMember
people = memory ProjectMember

abbrev task_people : Table TaskAssignee
task_people = memory TaskAssignee

abbrev event_people : Table CalendarAssignee
event_people = memory CalendarAssignee

abbrev row : ℕ → ℕ → ProjectMemberRole → ProjectMember
row p u role = record { user_id = u; project_id = p; role = role }

abbrev the_team : List ProjectMember
the_team = row 1 5 owner ∷ row 1 6 admin ∷ row 1 7 member ∷ row 2 7 owner ∷ []

-- User 7's lease of a field of the project.
abbrev lease_of : ℕ → ℕ → FieldLockLease
lease_of p u = record {
  field_lock = record {
    user_id = u;
    username = "u";
    avatar_url = none;
    project_id = p;
    socket_id = 70;
    expires_at = 30000;
  };
  token = "t";
}

abbrev the_store : Store people task_people event_people
the_store = record {
  members = the_team;
  task_assignees = record { user_id = 7; task_id = 11 } ∷ record { user_id = 6; task_id = 11 } ∷ [];
  calendar_assignees = record { user_id = 7; cal_id = 21 } ∷ [];
  locks = record {
    leases = (3, lease_of 1 7) ∷ (4, lease_of 2 7) ∷ [];
    has_expiration_handler = true;
    notified = [];
  };
  rooms = (5, 1) ∷ (7, 1) ∷ (7, 2) ∷ [];
}

abbrev all_in_1 : ℕ → ℕ
all_in_1 t = 1

abbrev ask : ℕ → Call → Request
ask caller call = record { project_id = 1; caller = caller; call = call }

the_team-OneEach : OneEach the_team
the_team-OneEach p u = ground arith

the_store-UniqueKeys : UniqueKeys the_store.locks.leases
unfolding get
the_store-UniqueKeys = (refl, (refl, tt))

added_test :
    (add_member people task_people event_people 1 (some 8) 6 the_store).1
    ≡ ok ((5, was_added) ∷ (7, was_added) ∷ (8, you_were_added) ∷ [])
unfolding add_member assert_membership
added_test = refl

removed_test :
    (let after =
        remove_member people task_people event_people
          (belongs all_in_1)
          (belongs all_in_1)
          1
          7
          6
          the_store in
      after.0.task_assignees)
    ≡ record { user_id = 6; task_id = 11 } ∷ []
unfolding remove_member assert_membership remove_membership owner_required_for_admin_target
removed_test = refl

member_list_test : find_members people 2 6 the_team ≡ err project_not_found
unfolding assert_membership
member_list_test = refl

admins_are_safe_from_admins :
    (update_member_role people task_people event_people 1 6 member 6 the_store).1 ≡ err only_owner
unfolding update_member_role assert_membership owner_required_for_admin_target
admins_are_safe_from_admins = refl

abbrev the_calls : List Request
the_calls =
    ask 6 (promotes 7)
    ∷ ask 7 (removes 6)
    ∷ ask 5 (removes 6)
    ∷ ask 7 (adds (some 8))
    ∷ ask 6 (adds (some 9))
    ∷ []

run-roles_example :
    roles
      (run people task_people event_people
        (belongs all_in_1)
        (belongs all_in_1)
        the_calls
        the_store).members
    ≡ run_spec the_calls (roles the_team)
run-roles_example =
    run-roles people task_people event_people (belongs all_in_1) (belongs all_in_1) the_calls
      the_store the_team-OneEach

run-owners_example :
    let after =
      run people task_people event_people
        (belongs all_in_1)
        (belongs all_in_1)
        the_calls
        the_store in
    OneEach after.members × ((p : ℕ) → owners p after.members ≡ owners p the_team)
run-owners_example =
    run-owners people task_people event_people (belongs all_in_1) (belongs all_in_1) the_calls
      the_store the_team-OneEach

remove_member_clears_example :
    let after =
      remove_member people task_people event_people
        (belongs all_in_1)
        (belongs all_in_1)
        1
        7
        6
        the_store in
    (role_of 1 7 after.0.members ≡ none)
    × NoTrace people task_people event_people all_in_1 all_in_1 1 7 after.0
    × ((q v : ℕ)
        → (q == 1 && v == 7) ≡ false
        → SameThere people task_people event_people all_in_1 all_in_1 q v the_store after.0)
unfolding remove_member assert_membership remove_membership owner_required_for_admin_target
remove_member_clears_example =
    remove_member_clears people task_people event_people all_in_1 all_in_1 1 7 6 the_store
      the_team-OneEach the_store-UniqueKeys refl

the_store-IsTidy : IsTidy people task_people event_people all_in_1 all_in_1 the_store
unfolding get
the_store-IsTidy = record {
  unique = the_team-OneEach;
  unique_keys = the_store-UniqueKeys;
  outsiders = λ p u out.
      (ground (arith, out), ground (arith, out), (λ j. ground (arith, out)), ground (arith, out));
}

history-IsTidy_example : IsTidy people task_people event_people all_in_1 all_in_1 (
    history people task_people event_people all_in_1 all_in_1
      (calls (ask 5 (removes 7)) ∷ assigns 11 (6 ∷ 5 ∷ []) ∷ assigns 11 (7 ∷ []) ∷ [])
      the_store)
history-IsTidy_example =
    history-IsTidy people task_people event_people all_in_1 all_in_1
      (calls (ask 5 (removes 7)) ∷ assigns 11 (6 ∷ 5 ∷ []) ∷ assigns 11 (7 ∷ []) ∷ []) the_store
      the_store-IsTidy
