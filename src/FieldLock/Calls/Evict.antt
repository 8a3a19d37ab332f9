-- ===== src/FieldLock/Calls/Evict.antt =====
-- `releaseUserInProject`: what happens to a user's locks when the user loses a project.
use transcendence.Prelude.{
  ℕ, Bool, ◌&&◌, ◌==◌, if◌then◌else◌, none, some, List, [], ◌∷◌, map, filter, any, ◌≡◌, ◌∙◌, refl,
  arith, Bool-cases, inl, inr,
}
use transcendence.JsMap.{get, delete}
use transcendence.JsMap.Laws.{get-delete, UniqueKeys, any-get}
use transcendence.FieldLock.{
  FieldLockLease, FieldLockManager, ReleasedFieldLock, to_public_lock, release_user_loop,
  release_user_in_project,
}

abbrev pub is_users : ℕ → ℕ → FieldLockLease → Bool
is_users user_id project_id lease = lease.user_id == user_id && lease.project_id == project_id

abbrev pub as_released : ℕ × FieldLockLease → ReleasedFieldLock
as_released e = record { key = e.0; lock = to_public_lock e.1 }

get-release_user_loop :
    (user_id project_id : ℕ) (es : List (ℕ × FieldLockLease)) (m : FieldLockManager) (j : ℕ)
    → get j (release_user_loop user_id project_id es m).0.leases
      ≡ (if any (λ e. e.0 == j && is_users user_id project_id e.1) es then none else get j m.leases)
unfolding release_user_loop
get-release_user_loop user_id project_id [] m j = refl
get-release_user_loop user_id project_id ((key, l) ∷ es) m j = ground (
  arith,
  get-release_user_loop user_id project_id es
      (if is_users user_id project_id l then record m { leases = delete key m.leases } else m) j,
  get-delete key j m.leases,
)

released_by_loop :
    (user_id project_id : ℕ) (es : List (ℕ × FieldLockLease)) (m : FieldLockManager)
    → (release_user_loop user_id project_id es m).1
      ≡ map as_released (filter (λ e. is_users user_id project_id e.1) es)
unfolding release_user_loop
released_by_loop user_id project_id [] m = refl
released_by_loop user_id project_id ((key, l) ∷ es) m = ground (
  arith,
  released_by_loop user_id project_id es
      (if is_users user_id project_id l then record m { leases = delete key m.leases } else m),
)

-- In a manager whose map holds no key twice, evicting a user from a project removes exactly that
-- user's leases of that project, keeps what is held on every other key, and returns the removed
-- ones in order.
pub release_user_in_project_lem :
    (m : FieldLockManager) (user_id project_id : ℕ)
    → UniqueKeys m.leases
    → let (m', released) = release_user_in_project m user_id project_id in
      ((j : ℕ)
        → get j m'.leases ≡ (elim (get j m.leases) [
          | none ↦ none
          | some l ↦ if is_users user_id project_id l then none else some l
        ]))
      × (released ≡ map as_released (filter (λ e. is_users user_id project_id e.1) m.leases))
unfolding release_user_in_project
release_user_in_project_lem m user_id project_id h = (
  λ j.
      get-release_user_loop user_id project_id m.leases m j
      ∙ ground (arith, any-get (is_users user_id project_id) j m.leases h),
  released_by_loop user_id project_id m.leases m,
)

-- A property of the leases that each deletion keeps is kept by the whole loop.
module _ (P : List (ℕ × FieldLockLease) → Type 0)
    (keep : (k : ℕ) (l : List (ℕ × FieldLockLease)) → P l → P (delete k l)) where
  release_user_loop-keeps :
      (user_id project_id : ℕ) (es : List (ℕ × FieldLockLease)) (m : FieldLockManager)
      → P m.leases
      → P (release_user_loop user_id project_id es m).0.leases
  unfolding release_user_loop
  release_user_loop-keeps user_id project_id [] m h = h
  release_user_loop-keeps user_id project_id ((key, l) ∷ es) m h =
      elim (Bool-cases (is_users user_id project_id l)) [
        | inl hit ↦ rw hit (release_user_loop-keeps user_id project_id es _ (keep key m.leases h))
        | inr miss ↦ rw miss (release_user_loop-keeps user_id project_id es m h)
      ]

  pub release_user_in_project-keeps :
      (m : FieldLockManager) (user_id project_id : ℕ)
      → P m.leases
      → P (release_user_in_project m user_id project_id).0.leases
  unfolding release_user_in_project
  release_user_in_project-keeps m user_id project_id h =
      release_user_loop-keeps user_id project_id m.leases m h
