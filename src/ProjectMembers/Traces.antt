-- ===== src/ProjectMembers/Traces.antt =====
-- What a user has in a project: assignments to its tasks and events, locks of its fields, a place in
-- its room. Calls on its members and replacements of a task's assignees, in any sequence.
use transcendence.Prelude.{
  ℕ, ◌≡◌, refl, sym, ap, ◌∙◌, inl, inr, Bool, false, not, ◌&&◌, Option, none, some, List, [], ◌∷◌,
  arith, ◌==◌, if◌then◌else◌, Bool-cases, filter, any,
}
use transcendence.Prisma.{Table}
use transcendence.JsMap.{get}
use transcendence.JsMap.Laws.{UniqueKeys, delete-UniqueKeys}
use transcendence.FieldLock.{FieldLockLease, FieldLockManager, release_user_in_project}
use transcendence.FieldLock.Calls.Evict.{
  is_users, release_user_in_project_lem, release_user_in_project-keeps,
}
use transcendence.ProjectMembers.{
  ProjectMember, ProjectMemberRole, admin, member, TaskAssignee, CalendarAssignee, Store, is_owner,
  is_member, add_member, remove_member, update_member_role,
}
use transcendence.ProjectMembers.Roles.{
  OneEach, role_of, role_of-without, role_of-with_role, with_role-OneEach, without, with_role,
}
use transcendence.ProjectMembers.Calls.{may_add, may_remove, may_change, is_free, add_member_is}
use transcendence.ProjectMembers.Removing.{removed, remove_member_is}
use transcendence.ProjectMembers.Change.{update_member_role_is}
use transcendence.ProjectMembers.Steps.{Call, set, adds, removes, promotes, demotes, roles}
use transcendence.ProjectMembers.Team.{perform, perform-Step, no_user}

module _ {B : Type 0} where
  pub any-filter : (p q : B → Bool) (xs : List B) → any p xs ≡ false → any p (filter q xs) ≡ false
  any-filter p q [] e = refl
  any-filter p q (x ∷ xs) e = ground (arith, any-filter p q xs)

  any-removed : (p : B → Bool) (xs : List B) → any p (filter (λ x. not (p x)) xs) ≡ false
  any-removed p [] = refl
  any-removed p (x ∷ xs) = ground (arith, any-removed p xs)

-- Whether the map holds a lease of the user in the project under the key.
abbrev pub holds : ℕ → ℕ → List (ℕ × FieldLockLease) → ℕ → Bool
holds p u leases j = elim (get j leases) [ none ↦ false | some l ↦ is_users u p l ]

evicted_keys :
    (m : FieldLockManager) (u p : ℕ)
    → UniqueKeys m.leases
    → UniqueKeys (release_user_in_project m u p).0.leases
evicted_keys m u p = release_user_in_project-keeps UniqueKeys (λ k l. delete-UniqueKeys k l) m u p

pub evicted_holds :
    (m : FieldLockManager) (u p v q j : ℕ)
    → UniqueKeys m.leases
    → holds q v (release_user_in_project m u p).0.leases j
      ≡ (if q == p && v == u then false else holds q v m.leases j)
evicted_holds m u p v q j h = ground (arith, (release_user_in_project_lem m u p h).0 j)

set-none :
    (p u : ℕ) (role : ProjectMemberRole) (q v : ℕ) (f : ℕ → ℕ → Option ProjectMemberRole)
    → set p u (some role) f q v ≡ none
    → (f q v ≡ none) × (q == p && v == u ≡ false)
set-none p u role q v f e = elim (Bool-cases (q == p && v == u)) [
  | inl here ↦ ground (arith, e, here)
  | inr other ↦ (sym (rw other) ∙ e, other)
]

-- `project_of` tells the project that a task or an event belongs to.
abbrev pub belongs : (project_of : ℕ → ℕ) → ℕ → ℕ → Bool
belongs project_of p x = project_of x == p

abbrev pub on_task : (project_of : ℕ → ℕ) → ℕ → ℕ → TaskAssignee → Bool
on_task project_of p u a = a.user_id == u && project_of a.task_id == p

abbrev pub at_event : (project_of : ℕ → ℕ) → ℕ → ℕ → CalendarAssignee → Bool
at_event project_of p u c = c.user_id == u && project_of c.cal_id == p

abbrev pub in_room : ℕ → ℕ → ℕ × ℕ → Bool
in_room p u r = r.0 == u && r.1 == p

module _ (M : Table ProjectMember) (A : Table TaskAssignee) (C : Table CalendarAssignee)
    (project_of_task project_of_event : ℕ → ℕ) where
  -- The user has nothing in the project.
  abbrev pub NoTrace : ℕ → ℕ → Store M A C → Type 0
  NoTrace p u s =
      (any (on_task project_of_task p u) (A.rows s.task_assignees) ≡ false)
      × (any (at_event project_of_event p u) (C.rows s.calendar_assignees) ≡ false)
      × ((j : ℕ) → holds p u s.locks.leases j ≡ false)
      × (any (in_room p u) s.rooms ≡ false)

  -- Those who are no members of a project have nothing in it.
  pub record IsTidy (s : Store M A C) : Type 0 where
    pub unique : OneEach (M.rows s.members)
    pub unique_keys : UniqueKeys s.locks.leases
    pub outsiders : (p u : ℕ) → role_of p u (M.rows s.members) ≡ none → NoTrace p u s

  pub removed-NoTrace :
      (p u q v : ℕ) (s : Store M A C)
      → UniqueKeys s.locks.leases
      → ((q == p && v == u ≡ false) → NoTrace q v s)
      → NoTrace q v (removed M A C (belongs project_of_task) (belongs project_of_event) p u s)
  removed-NoTrace p u q v s h k =
      let tasks =
        A.rows-delete_many (λ a. a.user_id == u && belongs project_of_task p a.task_id)
          s.task_assignees in
      let events =
        C.rows-delete_many (λ c. c.user_id == u && belongs project_of_event p c.cal_id)
          s.calendar_assignees in
      elim (Bool-cases (q == p && v == u)) [
        | inl here ↦
            let eq : q ≡ p = ground (arith, here) in
            let ev : v ≡ u = ground (arith, here) in
            rw (eq, ev)
              (
                rw tasks (any-removed (on_task project_of_task p u) (A.rows s.task_assignees)),
                rw events
                    (any-removed (at_event project_of_event p u) (C.rows s.calendar_assignees)),
                λ j. evicted_holds s.locks u p u p j h ∙ ground arith,
                any-removed (in_room p u) s.rooms,
              )
        | inr other ↦
            let (no_task, no_event, no_lease, no_room) = k other in
            (
              rw tasks
                  (any-filter (on_task project_of_task q v) _ (A.rows s.task_assignees) no_task),
              rw events (
                  any-filter (at_event project_of_event q v) _ (C.rows s.calendar_assignees)
                    no_event),
              λ j. evicted_holds s.locks u p v q j h ∙ ground (arith, other, no_lease j),
              any-filter (in_room q v) _ s.rooms no_room,
            )
      ]

  -- What a call on the members leaves behind, unless it removes a membership, is what was there and
  -- the new member's place in the room.
  added-IsTidy :
      (p rq u : ℕ) (s : Store M A C) → IsTidy s → IsTidy (add_member M A C p (some u) rq s).0
  added-IsTidy p rq u s tidy =
      let allowed =
        may_add (role_of p rq (M.rows s.members)) && is_free (role_of p u (M.rows s.members)) in
      let (_, is_s) = add_member_is M A C p u rq s tidy.unique in
      let (unique, now, _) =
        perform-Step M A C (belongs project_of_task) (belongs project_of_event) p rq (adds (some u))
          s tidy.unique in
      elim (Bool-cases allowed) [
        | inr e ↦ rw (is_s, e) tidy
        | inl e ↦
            let unique' = rw (is_s, e) at unique in
            let now' = rw (is_s, e) at now in
            rw (is_s, e)
              (record {
                unique = unique';
                unique_keys = tidy.unique_keys;
                outsiders = λ q v gone.
                    let (was_out, other) =
                      set-none p u member q v (roles (M.rows s.members))
                        (sym (ap (λ f. f q v) now') ∙ gone) in
                    let (no_task, no_event, no_lease, no_room) = tidy.outsiders q v was_out in
                    (no_task, no_event, no_lease, ground (arith, other, no_room));
              })
      ]

  removed-IsTidy :
      (p rq u : ℕ) (s : Store M A C)
      → IsTidy s
      → IsTidy (remove_member M A C (belongs project_of_task) (belongs project_of_event) p u rq s).0
  removed-IsTidy p rq u s tidy =
      let allowed =
        may_remove (rq == u) (role_of p rq (M.rows s.members)) (role_of p u (M.rows s.members)) in
      let (_, is_s) =
        remove_member_is M A C (belongs project_of_task) (belongs project_of_event) p u rq s
          tidy.unique in
      let (unique, _, _) =
        perform-Step M A C (belongs project_of_task) (belongs project_of_event) p rq (removes u) s
          tidy.unique in
      elim (Bool-cases allowed) [
        | inr e ↦ rw (is_s, e) tidy
        | inl e ↦
            let unique' = rw (is_s, e) at unique in
            rw (is_s, e)
              (record {
                unique = unique';
                unique_keys = evicted_keys s.locks u p tidy.unique_keys;
                outsiders = λ q v gone. removed-NoTrace p u q v s tidy.unique_keys λ other.
                    let gone' : role_of q v (without p u (M.rows s.members)) ≡ none =
                      rw (M.rows-delete_many (is_member p u) s.members) at gone in
                    tidy.outsiders q v
                      (sym (role_of-without q v p u (M.rows s.members) ∙ rw other) ∙ gone');
              })
      ]

  changed-IsTidy :
      (p rq u : ℕ) (new : ProjectMemberRole) (s : Store M A C)
      → is_owner new ≡ false
      → IsTidy s
      → IsTidy (update_member_role M A C p u new rq s).0
  changed-IsTidy p rq u new s low tidy =
      let allowed =
        may_change new (role_of p rq (M.rows s.members)) (role_of p u (M.rows s.members)) in
      let (_, is_s) = update_member_role_is M A C p u rq new s tidy.unique low in
      elim (Bool-cases allowed) [
        | inr e ↦ rw (is_s, e) tidy
        | inl e ↦
            let rows =
              M.rows-update_many (is_member p u) (λ r. record r { role = new }) s.members in
            rw (is_s, e)
              (record {
                unique = rw rows (with_role-OneEach p u new (M.rows s.members) tidy.unique);
                unique_keys = tidy.unique_keys;
                outsiders = λ q v gone.
                    let gone' : role_of q v (with_role p u new (M.rows s.members)) ≡ none =
                      rw rows at gone in
                    tidy.outsiders q v
                      (ground (arith, role_of-with_role q v p u new (M.rows s.members), gone'));
              })
      ]

  pub perform-IsTidy :
      (p rq : ℕ) (call : Call) (s : Store M A C)
      → IsTidy s
      → IsTidy (perform M A C (belongs project_of_task) (belongs project_of_event) p rq call s)
  perform-IsTidy p rq (adds none) s h =
      rw (no_user M A C (belongs project_of_task) (belongs project_of_event) p rq s) h
  perform-IsTidy p rq (adds (some u)) s h = added-IsTidy p rq u s h
  perform-IsTidy p rq (removes u) s h = removed-IsTidy p rq u s h
  perform-IsTidy p rq (promotes u) s h = changed-IsTidy p rq u admin s refl h
  perform-IsTidy p rq (demotes u) s h = changed-IsTidy p rq u member s refl h
