-- ===== src/FieldLock/Calls/Histories.antt =====
-- A call of the manager as a value, and histories of timed calls.
use transcendence.Prelude.{ℕ, ◌+◌, String, ◌≡◌, refl, Option, none, some, List, [], ◌∷◌, arith}
use transcendence.JsMap.{get, set, delete}
use transcendence.FieldLock.Calls.Evict.{release_user_in_project-keeps}
use transcendence.FieldLock.Token.{NodeCrypto}
use transcendence.FieldLock.{
  FieldLockLease, release_if_expired, acquire_current, new_lease, extend, field_lock_ttl_ms,
  FieldLockManager, AcquireFieldLockInput, acquire, get_lock, release, release_resource, renew,
  release_user_in_project, assert_lease_owner_if_locked, set_expiration_handler,
}

pub data Call : Type 0 where
  acquires : (uuid : String) → AcquireFieldLockInput → Call
  renews : (key socket_id : ℕ) → String → Call
  gets : (key : ℕ) → Call
  releases : (key socket_id : ℕ) → Call
  asserts : (project_id key user_id : ℕ) → Option String → Call
  frees : (key : ℕ) → Call
  evicts : (user_id project_id : ℕ) → Call
  subscribes : Call

module _ (node : NodeCrypto) where
  unfoldable pub step : FieldLockManager → ℕ × Call → FieldLockManager
  step m (now, acquires uuid input) = (acquire now uuid m input).0
  step m (now, renews key socket_id token) = (renew node now m key socket_id token).0
  step m (now, gets key) = (get_lock now m key).0
  step m (now, releases key socket_id) = (release m key socket_id).0
  step m (now, asserts project_id key user_id token) =
      (assert_lease_owner_if_locked node now m project_id key user_id token).0
  step m (now, frees key) = (release_resource m key).0
  step m (now, evicts user_id project_id) = (release_user_in_project m user_id project_id).0
  step m (now, subscribes) = set_expiration_handler m

  unfoldable pub run : FieldLockManager → List (ℕ × Call) → FieldLockManager
  unfolding step
  run m [] = m
  run m (c ∷ cs) = run (step m c) cs

-- What deletion keeps, and the insertion of a lease that runs for a full term, every call keeps.
module _ (P : List (ℕ × FieldLockLease) → Type 0)
    (keep : (k : ℕ) (l : List (ℕ × FieldLockLease)) → P l → P (delete k l)) where
  release_if_expired-keeps :
      (now : ℕ) (m : FieldLockManager) (key : ℕ)
      → P m.leases
      → P (release_if_expired now m key).0.leases
  unfolding release_if_expired
  release_if_expired-keeps now m key h = ground (arith, keep key m.leases h)

  module _ (node : NodeCrypto) (now : ℕ)
      (put : (k : ℕ) (lease : FieldLockLease) (l : List (ℕ × FieldLockLease))
        → lease.expires_at ≡ now + field_lock_ttl_ms
        → P l
        → P (set k lease l)) where
    acquire_current-keeps :
        (uuid : String) (m : FieldLockManager) (input : AcquireFieldLockInput)
        (o : Option FieldLockLease)
        → get input.key m.leases ≡ o
        → P m.leases
        → P (acquire_current now uuid m input).0.leases
    unfolding acquire_current
    acquire_current-keeps uuid m input none e h =
        rw (e, acquire_current) (put input.key (new_lease now uuid input) m.leases refl h)
    acquire_current-keeps uuid m input (some l) e h =
        rw (e, acquire_current) (ground (arith, put input.key (extend now l) m.leases refl h))

    renew-keeps :
        (m : FieldLockManager) (key socket_id : ℕ) (token : String) (o : Option FieldLockLease)
        → get key m.leases ≡ o
        → P m.leases
        → P (renew node now m key socket_id token).0.leases
    unfolding renew
    renew-keeps m key socket_id token none e h = rw (e, renew) h
    renew-keeps m key socket_id token (some l) e h =
        rw (e, renew) (ground (arith, put key (extend now l) m.leases refl h, keep key m.leases h))

    pub step-keeps :
        (m : FieldLockManager) (c : Call) → P m.leases → P (step node m (now, c)).leases
    unfolding step acquire get_lock release release_resource assert_lease_owner_if_locked
        set_expiration_handler
    step-keeps m (acquires uuid input) h =
        acquire_current-keeps uuid (release_if_expired now m input.key).0 input _ refl
          (release_if_expired-keeps now m input.key h)
    step-keeps m (renews k socket_id token) h = renew-keeps m k socket_id token _ refl h
    step-keeps m (gets k) h = ground (arith, release_if_expired-keeps now m k h)
    step-keeps m (releases k socket_id) h = ground (arith, keep k m.leases h)
    step-keeps m (asserts project_id k user_id token) h =
        ground (arith, release_if_expired-keeps now m k h)
    step-keeps m (frees k) h = ground (arith, keep k m.leases h)
    step-keeps m (evicts user_id project_id) h =
        release_user_in_project-keeps P keep m user_id project_id h
    step-keeps m subscribes h = h
