-- ===== src/FieldLock/Calls.antt =====
-- The other synchronous calls of the manager, any call as a value, and histories of timed calls.
pub mod Evict
pub mod Histories
pub mod Stable
pub mod Bounded
use transcendence.Prelude.{
  ℕ, ◌+◌, ◌≤◌, ◌<◌, String, Bool, true, false, not, ◌&&◌, ◌||◌, ◌==◌, leb, ltb, if◌then◌else◌,
  Option, none, some, List, [], ◌∷◌, ◌≡◌, ◌≢◌, ◌↔◌, ◌∙◌, ◌⊎◌, refl, arith, Option-cases, Bool-cases,
  inl, inr, All,
}
use mathlib.Core.Option
use transcendence.JsMap.{get, set, delete}
use transcendence.JsMap.Laws.{get-set, get-delete}
use transcendence.FieldLock.Token.{NodeCrypto, tokens_match, tokens_match_iff}
use transcendence.FieldLock.Acquire.{
  if_live, live, live-release_if_expired, get-release_if_expired, live-acquire, winner,
  acquire-answer,
}
use transcendence.FieldLock.{
  FieldLock, FieldLockLease, FieldLockManager, AcquireFieldLockInput, AcquireFieldLockResult,
  ReleasedFieldLock, to_public_lock, extend, new_lease, release_if_expired, release_resource,
  notify, acquire, get_lock, release, renew, token_fits, owns, release_user_loop,
  release_user_in_project, assert_lease_owner_if_locked, set_expiration_handler, create,
  field_lock_ttl_ms,
}

-- Reading a lock reports the lease in force, and changes nothing that is in force.
pub get_lock_lem :
    (now : ℕ) (m : FieldLockManager) (key : ℕ)
    → ((get_lock now m key).1 ≡ Option.map (λ l. to_public_lock l) (live now m key))
      × ((j : ℕ) → live now (get_lock now m key).0 j ≡ live now m j)
unfolding get_lock
get_lock_lem now m key = (
  ground (arith, get-release_if_expired now m key),
  λ j. ground (arith, live-release_if_expired now now m key j),
)

-- A socket gives up its own lease only.
pub live-release :
    (now : ℕ) (m : FieldLockManager) (key socket_id j : ℕ)
    → live now (release m key socket_id).0 j ≡ (
        if j == key
        then (elim (live now m key) [
          | none ↦ none
          | some l ↦ if l.socket_id == socket_id then none else some l
        ])
        else live now m j)
unfolding release
live-release now m key socket_id j = ground (arith, get-delete key j m.leases)

pub live-release_resource :
    (now : ℕ) (m : FieldLockManager) (key j : ℕ)
    → live now (release_resource m key).0 j ≡ (if j == key then none else live now m j)
unfolding release_resource
live-release_resource now m key j = ground (arith, get-delete key j m.leases)

module _ (node : NodeCrypto) where
  -- What a renewal needs of the lease in force on the key.
  abbrev pub renewable : ℕ → String → Option FieldLockLease → Option FieldLockLease
  renewable socket_id token none = none
  renewable socket_id token (some l) =
      if l.socket_id == socket_id && tokens_match node l.token token then some l else none

  live-renew :
      (now : ℕ) (m : FieldLockManager) (key socket_id : ℕ) (token : String)
      (held : Option FieldLockLease)
      → get key m.leases ≡ held
      → (j : ℕ)
      → live now (renew node now m key socket_id token).0 j ≡ (
          if j == key
          then (elim (renewable socket_id token (if_live now held)) [
            | none ↦ if_live now held
            | some l ↦ some (extend now l)
          ])
          else live now m j)
  unfolding renew
  live-renew now m key socket_id token none e j = rw (e, renew) (ground arith)
  live-renew now m key socket_id token (some l) e j =
      rw (e, renew)
        (ground (arith, get-set key j (extend now l) m.leases, get-delete key j m.leases))

  -- A renewal answers with the extended lock exactly if the lease in force on the key is the
  -- socket's with the given token, and then extends it; every other lease in force stays as it
  -- was, and so does this one if the renewal fails.
  pub renew_lem :
      (now : ℕ) (m : FieldLockManager) (key socket_id : ℕ) (token : String)
      → let o = renewable socket_id token (live now m key) in
        ((renew node now m key socket_id token).1
          ≡ Option.map (λ l. to_public_lock (extend now l)) o)
        × ((j : ℕ)
            → live now (renew node now m key socket_id token).0 j ≡ (
                if j == key
                then (elim o [ none ↦ live now m key | some l ↦ some (extend now l) ])
                else live now m j))
  unfolding renew
  renew_lem now m key socket_id token =
      (ground arith, live-renew now m key socket_id token (get key m.leases) refl)

  -- The check passes exactly if no lease is in force on the key or the one in force is the user's,
  -- for the project, with the given token; and it changes no lease in force.
  pub assert_lease_owner_if_locked_lem :
      (now : ℕ) (m : FieldLockManager) (project_id key user_id : ℕ) (token : Option String)
      → let (m', passes) = assert_lease_owner_if_locked node now m project_id key user_id token in
        (passes
          ≡ elim (live now m key) [ none ↦ true | some l ↦ owns node l user_id project_id token ])
        × ((j : ℕ) → live now m' j ≡ live now m j)
  unfolding assert_lease_owner_if_locked
  assert_lease_owner_if_locked_lem now m project_id key user_id token =
      (ground arith, λ j. ground (arith, live-release_if_expired now now m key j))
