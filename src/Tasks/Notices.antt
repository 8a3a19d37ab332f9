-- ===== src/Tasks/Notices.antt =====
-- The notifications of backend/src/tasks/tasks.service.ts: who is told of a change of a task. The texts
-- are left out; a machine's call has no acting user.
use transcendence.Prelude.{
  ℕ, ◌≡◌, refl, ◌↔◌, Bool, true, false, not, ◌&&◌, ◌||◌, Option, none, some, List, [], ◌∷◌, arith,
  ◌==◌, filter,
}
use transcendence.Tasks.Assignees.{includes}

abbrev pub is_acting : Option ℕ → ℕ → Bool
is_acting none id = false
is_acting (some acting_user_id) id = id == acting_user_id

-- `notifyStatusChange`: the assignees from before the call.
unfoldable pub status_change_recipients : List ℕ → Option ℕ → List ℕ
status_change_recipients assignee_ids acting = filter (λ i. not (is_acting acting i)) assignee_ids

-- `notifyNewAssignees`.
unfoldable pub new_assignee_recipients : List ℕ → List ℕ → Option ℕ → List ℕ
new_assignee_recipients previous_ids new_ids acting =
    filter (λ i. not (includes i previous_ids) && not (is_acting acting i)) new_ids

-- `notifyRemovedAssignees`.
unfoldable pub removed_assignee_recipients : List ℕ → List ℕ → Option ℕ → List ℕ
removed_assignee_recipients previous_ids new_ids acting =
    filter (λ i. not (includes i new_ids) && not (is_acting acting i)) previous_ids

includes-filter :
    (p : ℕ → Bool) (u : ℕ) (is : List ℕ) → includes u (filter p is) ≡ (includes u is && p u)
includes-filter p u [] = refl
includes-filter p u (i ∷ is) = ground (arith, includes-filter p u is)

notice_cases :
    (b n k : Bool)
    → let added = n && (not b && not k) in
      let removed = b && (not n && not k) in
      ((added && removed) ≡ false)
      × (k ≡ true → (added || removed) ≡ false)
      × (k ≡ false → ((added || removed) ≡ false) ↔ (b ≡ n))
notice_cases true true k = ground arith
notice_cases true false k = ground arith
notice_cases false true k = ground arith
notice_cases false false k = ground arith

-- When a task's assignees are changed, nobody is told both of being assigned and of being removed;
-- the acting user is told of neither; any other user is told of neither exactly if they are among
-- both lists or among none; and a status change is told to the previous assignees other than the
-- acting user.
pub update_notices_lem :
    (previous new : List ℕ) (acting : Option ℕ) (u : ℕ)
    → let added = includes u (new_assignee_recipients previous new acting) in
      let removed = includes u (removed_assignee_recipients previous new acting) in
      ((added && removed) ≡ false)
      × (is_acting acting u ≡ true → (added || removed) ≡ false)
      × (is_acting acting u ≡ false
          → ((added || removed) ≡ false) ↔ (includes u previous ≡ includes u new))
      × ((includes u (status_change_recipients previous acting))
          ≡ (includes u previous && not (is_acting acting u)))
unfolding new_assignee_recipients removed_assignee_recipients status_change_recipients
update_notices_lem previous new acting u =
    let a = includes-filter (λ i. not (includes i previous) && not (is_acting acting i)) u new in
    let r = includes-filter (λ i. not (includes i new) && not (is_acting acting i)) u previous in
    let (once, not_self, told) =
      notice_cases (includes u previous) (includes u new) (is_acting acting u) in
    (
      rw (a, r) once,
      rw (a, r) not_self,
      rw (a, r) told,
      includes-filter (λ i. not (is_acting acting i)) u previous,
    )
