-- ===== src/Relationships/Rows.antt =====
-- The rows as a table of stances: what each user thinks of each other user.
use transcendence.Prelude.{
  ℕ, ◌≤◌, ◌≡◌, refl, inl, inr, Bool, true, not, ◌&&◌, Option, none, some, List, [], ◌∷◌, ◌++◌, map,
  arith, ◌==◌, if◌then◌else◌, Bool-cases, length, filter, any, find,
}
use mathlib.Core.Option
use transcendence.Relationships.{RelationshipStatus, UserRelationship, is_row, set_status}

-- The status of the row from `a` to `b`.
abbrev pub stance_in : ℕ → ℕ → List UserRelationship → Option RelationshipStatus
stance_in a b [] = none
stance_in a b (r ∷ rs) = if is_row a b r then some r.status else stance_in a b rs

-- The unique constraint on (requesterId, addresseeId).
abbrev pub IsUnique : List UserRelationship → Type 0
IsUnique [] = Unit
IsUnique (r ∷ rs) = (stance_in r.requester_id r.addressee_id rs ≡ none) × IsUnique rs

pub stance_in-find :
    (a b : ℕ) (rs : List UserRelationship)
    → Option.map (λ r. r.status) (find (is_row a b) rs) ≡ stance_in a b rs
stance_in-find a b [] = refl
stance_in-find a b (r ∷ rs) = ground (arith, stance_in-find a b rs)

stance_in-filter :
    (a b : ℕ) (rs : List UserRelationship) → stance_in a b rs ≡ none → filter (is_row a b) rs ≡ []
stance_in-filter a b [] h = refl
stance_in-filter a b (r ∷ rs) h = ground (arith, stance_in-filter a b rs)

of_row :
    (a b : ℕ) (r : UserRelationship)
    → is_row a b r ≡ true
    → (r.requester_id ≡ a) × (r.addressee_id ≡ b)
of_row a b r e = ground arith

pub at_most_one :
    (a b : ℕ) (rs : List UserRelationship) → IsUnique rs → length (filter (is_row a b) rs) ≤ 1
at_most_one a b [] u = omega arith
at_most_one a b (r ∷ rs) u = elim (Bool-cases (is_row a b r)) [
  | inl e ↦
      let (p, q) = of_row a b r e in
      rw (e, stance_in-filter a b rs (rw (← p, ← q) u.0)) (omega arith)
  | inr e ↦ rw e (at_most_one a b rs u.1)
]

pub stance_in-append :
    (a b : ℕ) (rs : List UserRelationship) (r : UserRelationship)
    → stance_in a b (rs ++ r ∷ []) ≡ (elim (stance_in a b rs) [
      | some v ↦ some v
      | none ↦ if is_row a b r then some r.status else none
    ])
stance_in-append a b [] r = refl
stance_in-append a b (x ∷ rs) r = ground (arith, stance_in-append a b rs r)

abbrev pub updated : (c d : ℕ) → RelationshipStatus → List UserRelationship → List UserRelationship
updated c d v = map (λ r. if is_row c d r then set_status v r else r)

pub stance_in-updated :
    (a b c d : ℕ) (v : RelationshipStatus) (rs : List UserRelationship)
    → stance_in a b (updated c d v rs)
      ≡ (if a == c && b == d then Option.map (λ _. v) (stance_in a b rs) else stance_in a b rs)
stance_in-updated a b c d v [] = ground arith
stance_in-updated a b c d v (r ∷ rs) = ground (arith, stance_in-updated a b c d v rs)

-- `test` tells which statuses go.
abbrev pub deleted :
    (c d : ℕ) → (RelationshipStatus → Bool) → List UserRelationship → List UserRelationship
deleted c d test = filter (λ r. not (is_row c d r && test r.status))

abbrev pub unless :
    (RelationshipStatus → Bool) → Option RelationshipStatus → Option RelationshipStatus
unless test none = none
unless test (some v) = if test v then none else some v

pub stance_in-deleted :
    (a b c d : ℕ) (test : RelationshipStatus → Bool) (rs : List UserRelationship)
    → IsUnique rs
    → stance_in a b (deleted c d test rs)
      ≡ (if a == c && b == d then unless test (stance_in a b rs) else stance_in a b rs)
stance_in-deleted a b c d test [] u = ground arith
stance_in-deleted a b c d test (r ∷ rs) u = ground (arith, stance_in-deleted a b c d test rs u.1)

pub append-IsUnique :
    (rs : List UserRelationship) (r : UserRelationship)
    → IsUnique rs
    → stance_in r.requester_id r.addressee_id rs ≡ none
    → IsUnique (rs ++ r ∷ [])
append-IsUnique [] r u h = (refl, tt)
append-IsUnique (x ∷ rs) r u h = (
  ground (arith, stance_in-append x.requester_id x.addressee_id rs r),
  append-IsUnique rs r u.1 (ground arith),
)

pub updated-IsUnique :
    (c d : ℕ) (v : RelationshipStatus) (rs : List UserRelationship)
    → IsUnique rs
    → IsUnique (updated c d v rs)
updated-IsUnique c d v [] u = tt
updated-IsUnique c d v (r ∷ rs) u =
    ground (
      arith,
      updated-IsUnique c d v rs u.1,
      stance_in-updated r.requester_id r.addressee_id c d v rs,
    )

pub deleted-IsUnique :
    (c d : ℕ) (test : RelationshipStatus → Bool) (rs : List UserRelationship)
    → IsUnique rs
    → IsUnique (deleted c d test rs)
deleted-IsUnique c d test [] u = tt
deleted-IsUnique c d test (r ∷ rs) u = ground (
  arith,
  deleted-IsUnique c d test rs u.1,
  stance_in-deleted r.requester_id r.addressee_id c d test rs u.1,
)

abbrev pub erased : (c d : ℕ) → List UserRelationship → List UserRelationship
erased c d = filter (λ r. not (is_row c d r))

pub stance_in-erased :
    (a b c d : ℕ) (rs : List UserRelationship)
    → IsUnique rs
    → stance_in a b (erased c d rs) ≡ (if a == c && b == d then none else stance_in a b rs)
stance_in-erased a b c d [] u = ground arith
stance_in-erased a b c d (r ∷ rs) u = ground (arith, stance_in-erased a b c d rs u.1)

pub erased-IsUnique :
    (c d : ℕ) (rs : List UserRelationship) → IsUnique rs → IsUnique (erased c d rs)
erased-IsUnique c d [] u = tt
erased-IsUnique c d (r ∷ rs) u =
    ground
      (arith, erased-IsUnique c d rs u.1, stance_in-erased r.requester_id r.addressee_id c d rs u.1)

pub any_of_stance :
    (a b : ℕ) (v : RelationshipStatus) (rs : List UserRelationship)
    → stance_in a b rs ≡ some v
    → any (is_row a b) rs ≡ true
any_of_stance a b v [] e = cc
any_of_stance a b v (r ∷ rs) e = ground (arith, any_of_stance a b v rs)

pub find_of_stance :
    (a b : ℕ) (v : RelationshipStatus) (rs : List UserRelationship)
    → stance_in a b rs ≡ some v
    → (r : UserRelationship) × (find (is_row a b) rs ≡ some r)
find_of_stance a b v [] e = cc
find_of_stance a b v (r ∷ rs) e = elim (Bool-cases (is_row a b r)) [
  | inl here ↦ (r, rw here)
  | inr there ↦ rw there (find_of_stance a b v rs (rw there at e))
]
