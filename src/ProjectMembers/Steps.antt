-- ===== src/ProjectMembers/Steps.antt =====
-- What calls on the members of projects should make of everybody's role, and what a change of the rows
-- makes of it.
use transcendence.Prelude.{
  ℕ, ◌≡◌, refl, sym, inl, inr, Bool, true, false, ◌&&◌, Option, none, some, List, [], ◌∷◌, ◌++◌,
  arith, ◌==◌, if◌then◌else◌, ==_refl, Bool-cases, Option-cases, find,
}
use mathlib.Core.Path.{fun_ext}
use transcendence.ProjectMembers.{
  ProjectMember, ProjectMemberRole, owner, admin, member, is_owner, is_member,
}
use transcendence.ProjectMembers.Roles.{
  OneEach, role_of, owners, with_role, without, role_of-with_role, role_of-without, role_of-append,
  with_role-OneEach, without-OneEach, append-OneEach, owners_kept, owners-append,
}
use transcendence.ProjectMembers.Calls.{may_add, may_remove, may_change, is_free}

-- `adds` carries the user that the username belongs to, if there is one.
pub data Call : Type 0 where
  adds : Option ℕ → Call
  removes promotes demotes : ℕ → Call

pub record Request : Type 0 where
  pub project_id : ℕ
  pub caller : ℕ
  pub call : Call

-- Everybody's role in every project.
abbrev pub Roles : Type 0
Roles = ℕ → ℕ → Option ProjectMemberRole

abbrev pub set : ℕ → ℕ → Option ProjectMemberRole → Roles → Roles
set p u role f q v = if q == p && v == u then role else f q v

abbrev pub call_spec : ℕ → ℕ → Call → Roles → Roles
call_spec p rq (adds none) f = f
call_spec p rq (adds (some u)) f =
    if may_add (f p rq) && is_free (f p u) then set p u (some member) f else f
call_spec p rq (removes u) f = if may_remove (rq == u) (f p rq) (f p u) then set p u none f else f
call_spec p rq (promotes u) f =
    if may_change admin (f p rq) (f p u) then set p u (some admin) f else f
call_spec p rq (demotes u) f =
    if may_change member (f p rq) (f p u) then set p u (some member) f else f

abbrev pub run_spec : List Request → Roles → Roles
run_spec [] f = f
run_spec (r ∷ rs) f = run_spec rs (call_spec r.project_id r.caller r.call f)

abbrev pub roles : List ProjectMember → Roles
roles ms p u = role_of p u ms

-- What a step on the rows does: the unique constraint holds, the roles are as told, and no project's
-- rows of owners change.
abbrev pub Step : List ProjectMember → List ProjectMember → Roles → Type 0
Step before after f =
    OneEach after × (roles after ≡ f) × ((p : ℕ) → owners p after ≡ owners p before)

abbrev pub joined : ℕ → ℕ → ProjectMember
joined p u = record { user_id = u; project_id = p; role = member }

is_free-none : (x : Option ProjectMemberRole) → is_free x ≡ true → x ≡ none
is_free-none none e = refl
is_free-none (some r) e = cc

pub append-Step :
    (p u : ℕ) (ms : List ProjectMember)
    → OneEach ms
    → is_free (role_of p u ms) ≡ true
    → Step ms (ms ++ joined p u ∷ []) (set p u (some member) (roles ms))
append-Step p u ms h e =
    let free : role_of p u ms ≡ none = is_free-none _ e in
    (
      append-OneEach _ ms h free,
      fun_ext λ q. fun_ext λ v. elim (Bool-cases (q == p && v == u)) [
        | inl here ↦
            let eq : q ≡ p = ground (arith, here) in
            let ev : v ≡ u = ground (arith, here) in
            rw (eq, ev)
              (ground (arith, role_of-append p u ms (joined p u), free, ==_refl p, ==_refl u))
        | inr other ↦ ground (arith, role_of-append q v ms (joined p u), other)
      ],
      λ q. owners-append q ms _ refl,
    )

pub without-Step :
    (p u : ℕ) (ms : List ProjectMember) (m : ProjectMember)
    → OneEach ms
    → find (is_member p u) ms ≡ some m
    → is_owner m.role ≡ false
    → Step ms (without p u ms) (set p u none (roles ms))
without-Step p u ms m h e low = (
  without-OneEach p u ms h,
  fun_ext λ q. fun_ext λ v. role_of-without q v p u ms,
  λ q. (owners_kept q p u member ms m (h p u) e low refl).1,
)

pub with_role-Step :
    (p u : ℕ) (new : ProjectMemberRole) (ms : List ProjectMember) (m : ProjectMember)
    → OneEach ms
    → find (is_member p u) ms ≡ some m
    → is_owner m.role ≡ false
    → is_owner new ≡ false
    → Step ms (with_role p u new ms) (set p u (some new) (roles ms))
with_role-Step p u new ms m h e low low' = (
  with_role-OneEach p u new ms h,
  fun_ext λ q. fun_ext λ v. ground (arith, role_of-with_role q v p u new ms, e),
  λ q. (owners_kept q p u new ms m (h p u) e low low').0,
)

pub role_found :
    (p u : ℕ) (ms : List ProjectMember) (r : ProjectMemberRole)
    → role_of p u ms ≡ some r
    → (m : ProjectMember) × (find (is_member p u) ms ≡ some m) × (m.role ≡ r)
role_found p u ms r e = elim (Option-cases (find (is_member p u) ms)) [
  | inl e' ↦ cc
  | inr (m, e') ↦ (m, e', cc)
]

pub removable :
    (b : Bool) (x y : Option ProjectMemberRole)
    → (b ≡ true → x ≡ y)
    → may_remove b x y ≡ true
    → (r : ProjectMemberRole) × (y ≡ some r) × (is_owner r ≡ false)
removable true none y same h = cc
removable true (some owner) y same h = cc
removable true (some admin) y same h = (admin, sym (same refl), refl)
removable true (some member) y same h = (member, sym (same refl), refl)
removable false none y same h = cc
removable false (some owner) none same h = cc
removable false (some owner) (some owner) same h = cc
removable false (some admin) none same h = cc
removable false (some admin) (some owner) same h = cc
removable false (some admin) (some admin) same h = cc
removable false (some member) y same h = cc
removable false (some owner) (some admin) same h = (admin, refl, refl)
removable false (some owner) (some member) same h = (member, refl, refl)
removable false (some admin) (some member) same h = (member, refl, refl)

pub changeable :
    (new : ProjectMemberRole) (x y : Option ProjectMemberRole)
    → may_change new x y ≡ true
    → (r : ProjectMemberRole) × (y ≡ some r) × (is_owner r ≡ false)
changeable admin none y h = cc
changeable admin (some admin) none h = cc
changeable admin (some admin) (some admin) h = cc
changeable admin (some admin) (some owner) h = cc
changeable admin (some member) y h = cc
changeable admin (some owner) none h = cc
changeable admin (some owner) (some admin) h = cc
changeable admin (some owner) (some owner) h = cc
changeable member none y h = cc
changeable member (some admin) y h = cc
changeable member (some member) y h = cc
changeable member (some owner) none h = cc
changeable member (some owner) (some member) h = cc
changeable member (some owner) (some owner) h = cc
changeable owner x y h = cc
changeable admin (some owner) (some member) h = (member, refl, refl)
changeable admin (some admin) (some member) h = (member, refl, refl)
changeable member (some owner) (some admin) h = (admin, refl, refl)
