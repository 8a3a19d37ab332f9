-- ===== src/ProjectMembers/Roles.antt =====
-- The rows of members as a table of roles: each user's role in each project.
use transcendence.Prelude.{
  ℕ, ◌+◌, ◌≤◌, ◌≡◌, refl, inl, inr, false, not, ◌&&◌, Option, none, some, List, [], ◌∷◌, ◌++◌, map,
  arith, ◌==◌, if◌then◌else◌, Bool-cases, length, filter, find,
}
use mathlib.Core.Option
use transcendence.ProjectMembers.{ProjectMember, ProjectMemberRole, is_owner, is_member}

-- At most one membership for each user in each project, as the unique constraint says.
abbrev pub OneEach : List ProjectMember → Type 0
OneEach ms = (p u : ℕ) → length (filter (is_member p u) ms) ≤ 1

abbrev pub role_of : ℕ → ℕ → List ProjectMember → Option ProjectMemberRole
role_of p u ms = Option.map (λ m. m.role) (find (is_member p u) ms)

abbrev pub owners : ℕ → List ProjectMember → List ProjectMember
owners p ms = filter (λ m. m.project_id == p && is_owner m.role) ms

abbrev pub with_role : ℕ → ℕ → ProjectMemberRole → List ProjectMember → List ProjectMember
with_role p u role ms = map (λ m. if is_member p u m then record m { role = role } else m) ms

abbrev pub without : ℕ → ℕ → List ProjectMember → List ProjectMember
without p u ms = filter (λ m. not (is_member p u m)) ms

pub role_of-with_role :
    (p u q v : ℕ) (role : ProjectMemberRole) (ms : List ProjectMember)
    → role_of p u (with_role q v role ms)
      ≡ (if p == q && u == v then Option.map (λ _. role) (role_of p u ms) else role_of p u ms)
role_of-with_role p u q v role [] = ground arith
role_of-with_role p u q v role (m ∷ ms) = ground (arith, role_of-with_role p u q v role ms)

pub role_of-without :
    (p u q v : ℕ) (ms : List ProjectMember)
    → role_of p u (without q v ms) ≡ (if p == q && u == v then none else role_of p u ms)
role_of-without p u q v [] = ground arith
role_of-without p u q v (m ∷ ms) = ground (arith, role_of-without p u q v ms)

pub role_of-append :
    (p u : ℕ) (ms : List ProjectMember) (m : ProjectMember)
    → role_of p u (ms ++ m ∷ []) ≡ (elim (role_of p u ms) [
      | some role ↦ some role
      | none ↦ if is_member p u m then some m.role else none
    ])
role_of-append p u [] m = ground arith
role_of-append p u (x ∷ ms) m = ground (arith, role_of-append p u ms m)

count-with_role :
    (p u q v : ℕ) (role : ProjectMemberRole) (ms : List ProjectMember)
    → length (filter (is_member p u) (with_role q v role ms)) ≡ length (filter (is_member p u) ms)
count-with_role p u q v role [] = refl
count-with_role p u q v role (m ∷ ms) = ground (arith, count-with_role p u q v role ms)

count-without :
    (p u q v : ℕ) (ms : List ProjectMember)
    → length (filter (is_member p u) (without q v ms)) ≤ length (filter (is_member p u) ms)
count-without p u q v [] = omega arith
count-without p u q v (m ∷ ms) = ground (arith, count-without p u q v ms)

count-append :
    (p u : ℕ) (ms : List ProjectMember) (m : ProjectMember)
    → length (filter (is_member p u) (ms ++ m ∷ []))
      ≡ length (filter (is_member p u) ms) + (if is_member p u m then 1 else 0)
count-append p u [] m = ground arith
count-append p u (x ∷ ms) m = ground (arith, count-append p u ms m)

count_absent :
    (p u : ℕ) (ms : List ProjectMember)
    → role_of p u ms ≡ none
    → length (filter (is_member p u) ms) ≡ 0
count_absent p u [] e = refl
count_absent p u (m ∷ ms) e = ground (arith, count_absent p u ms)

pub with_role-OneEach :
    (q v : ℕ) (role : ProjectMemberRole) (ms : List ProjectMember)
    → OneEach ms
    → OneEach (with_role q v role ms)
with_role-OneEach q v role ms h p u = omega (arith, count-with_role p u q v role ms, h p u)

pub without-OneEach : (q v : ℕ) (ms : List ProjectMember) → OneEach ms → OneEach (without q v ms)
without-OneEach q v ms h p u = omega (arith, count-without p u q v ms, h p u)

pub append-OneEach :
    (m : ProjectMember) (ms : List ProjectMember)
    → OneEach ms
    → role_of m.project_id m.user_id ms ≡ none
    → OneEach (ms ++ m ∷ [])
append-OneEach m ms h e p u = elim (Bool-cases (is_member p u m)) [
  | inr other ↦ ground (arith, count-append p u ms m, h p u, other)
  | inl here ↦
      let ep : m.project_id ≡ p = ground (arith, here) in
      let eu : m.user_id ≡ u = ground (arith, here) in
      ground
        (arith, count-append p u ms m, rw (ep, eu) at (count_absent m.project_id m.user_id ms e))
]

owners_kept_absent :
    (p q v : ℕ) (role : ProjectMemberRole) (ms : List ProjectMember)
    → length (filter (is_member q v) ms) ≡ 0
    → (owners p (with_role q v role ms) ≡ owners p ms) × (owners p (without q v ms) ≡ owners p ms)
owners_kept_absent p q v role [] e = (refl, refl)
owners_kept_absent p q v role (m ∷ ms) e = ground (arith, owners_kept_absent p q v role ms)

-- A change of a row that is no owner's, to a role that is not the owner's, or its removal.
pub owners_kept :
    (p q v : ℕ) (role : ProjectMemberRole) (ms : List ProjectMember) (m : ProjectMember)
    → length (filter (is_member q v) ms) ≤ 1
    → find (is_member q v) ms ≡ some m
    → is_owner m.role ≡ false
    → is_owner role ≡ false
    → (owners p (with_role q v role ms) ≡ owners p ms) × (owners p (without q v ms) ≡ owners p ms)
owners_kept p q v role [] m h e low low' = cc
owners_kept p q v role (x ∷ ms) m h e low low' =
    ground (arith, owners_kept p q v role ms m, owners_kept_absent p q v role ms)

pub owners-append :
    (p : ℕ) (ms : List ProjectMember) (m : ProjectMember)
    → is_owner m.role ≡ false
    → owners p (ms ++ m ∷ []) ≡ owners p ms
owners-append p [] m low = ground arith
owners-append p (x ∷ ms) m low = ground (arith, owners-append p ms m low)
