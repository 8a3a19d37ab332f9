-- ===== src/FieldLock.antt =====
-- backend/src/realtime/field-lock-manager.ts, the part that keeps the leases of edited fields:
-- the interfaces, and the synchronous methods of `FieldLockManager`.
-- Each method reads the clock at one instant, its argument `now` (milliseconds); ids, keys and
-- usernames are opaque. `randomUUID` gives `acquire` its argument `uuid`.
pub mod Token
pub mod Acquire
pub mod Calls
pub mod Async
pub mod Examples
use transcendence.Prelude.{
  ℕ, ◌+◌, String, Bool, true, false, not, ◌&&◌, ◌||◌, ◌==◌, leb, ltb, if◌then◌else◌, Option, none,
  some, List, [], ◌∷◌, ◌++◌,
}
use transcendence.JsMap.{get, set, delete}
use Token.{NodeCrypto, tokens_match}

pub record FieldLock : Type 0 where
  pub user_id : ℕ
  pub username : String
  pub avatar_url : Option String
  pub project_id : ℕ
  pub socket_id : ℕ
  pub expires_at : ℕ

pub record FieldLockLease : Type 0 where
  pub field_lock : FieldLock
  pub open field_lock use *
  pub token : String

pub record AcquireFieldLockInput : Type 0 where
  pub key : ℕ
  pub user_id : ℕ
  pub username : String
  pub avatar_url : Option String
  pub project_id : ℕ
  pub socket_id : ℕ

pub record AcquireFieldLockResult : Type 0 where
  pub acquired : Bool
  pub lock : Option FieldLock
  pub token : Option String

pub record ReleasedFieldLock : Type 0 where
  pub key : ℕ
  pub lock : FieldLock

abbrev pub field_lock_ttl_ms : ℕ
field_lock_ttl_ms = 30_000

-- `notified` lists the calls of the expiration handler, the latest first.
pub record FieldLockManager : Type 0 where
  pub leases : List (ℕ × FieldLockLease)
  pub has_expiration_handler : Bool
  pub notified : List ReleasedFieldLock

unfoldable pub create : FieldLockManager
create = record { leases = []; has_expiration_handler = false; notified = [] }

unfoldable pub set_expiration_handler : FieldLockManager → FieldLockManager
set_expiration_handler m = record m { has_expiration_handler = true }

abbrev pub to_public_lock : FieldLockLease → FieldLock
to_public_lock lease = record {
  user_id = lease.user_id;
  username = lease.username;
  avatar_url = lease.avatar_url;
  project_id = lease.project_id;
  socket_id = lease.socket_id;
  expires_at = lease.expires_at;
}

-- `existing.expiresAt = Date.now() + FIELD_LOCK_TTL_MS`.
abbrev pub extend : ℕ → FieldLockLease → FieldLockLease
extend now lease = record lease {
  field_lock = record (lease.field_lock) { expires_at = now + field_lock_ttl_ms };
}

-- `this.expirationHandler?.(released)`.
abbrev pub notify : FieldLockManager → ReleasedFieldLock → FieldLockManager
notify m released =
    if m.has_expiration_handler then record m { notified = released ∷ m.notified } else m

abbrev pub without : FieldLockManager → ℕ → FieldLockManager
without m key = record m { leases = delete key m.leases }

unfoldable pub release_resource : FieldLockManager → ℕ → FieldLockManager × Option ReleasedFieldLock
release_resource m key = elim (get key m.leases) [
  | none ↦ (m, none)
  | some lease ↦ (without m key, some (record { key = key; lock = to_public_lock lease }))
]

abbrev pub notify_released : FieldLockManager × Option ReleasedFieldLock → FieldLockManager
notify_released (m, none) = m
notify_released (m, some released) = notify m released

unfoldable pub release_if_expired : ℕ → FieldLockManager → ℕ → FieldLockManager × Bool
unfolding release_resource
release_if_expired now m key = elim (get key m.leases) [
  | none ↦ (m, false)
  | some lease ↦
      if ltb now lease.expires_at
      then (m, false)
      else (notify_released (release_resource m key), true)
]

abbrev pub new_lease : ℕ → String → AcquireFieldLockInput → FieldLockLease
new_lease now uuid input = record {
  field_lock = record {
    user_id = input.user_id;
    username = input.username;
    avatar_url = input.avatar_url;
    project_id = input.project_id;
    socket_id = input.socket_id;
    expires_at = now + field_lock_ttl_ms;
  };
  token = uuid;
}

-- `this.leases.set(key, lease)`, with the answer that carries the lease's token.
abbrev pub granted :
    FieldLockManager → ℕ → FieldLockLease → FieldLockManager × AcquireFieldLockResult
granted m key lease = (
  record m { leases = set key lease m.leases },
  record { acquired = true; lock = some (to_public_lock lease); token = some lease.token },
)

-- `acquire` once an expired lease is out of the way.
acquire_current :
    ℕ
    → String
    → FieldLockManager
    → AcquireFieldLockInput
    → FieldLockManager × AcquireFieldLockResult
acquire_current now uuid m input = elim (get input.key m.leases) [
  | none ↦ granted m input.key (new_lease now uuid input)
  | some existing ↦
      if existing.socket_id == input.socket_id
      then granted m input.key (extend now existing)
      else (m, record { acquired = false; lock = some (to_public_lock existing); token = none })
]

unfoldable pub acquire :
    ℕ
    → String
    → FieldLockManager
    → AcquireFieldLockInput
    → FieldLockManager × AcquireFieldLockResult
unfolding acquire_current release_if_expired
acquire now uuid m input = acquire_current now uuid (release_if_expired now m input.key).0 input

unfoldable pub get_lock : ℕ → FieldLockManager → ℕ → FieldLockManager × Option FieldLock
unfolding release_if_expired
get_lock now m key =
    let m' = (release_if_expired now m key).0 in
    elim (get key m'.leases) [ none ↦ (m', none) | some lease ↦ (m', some (to_public_lock lease)) ]

unfoldable pub release : FieldLockManager → ℕ → ℕ → FieldLockManager × Option ReleasedFieldLock
release m key socket_id = elim (get key m.leases) [
  | none ↦ (m, none)
  | some lease ↦
      if lease.socket_id == socket_id
      then (without m key, some (record { key = key; lock = to_public_lock lease }))
      else (m, none)
]

-- The loop of `releaseUserInProject`; deleting the entry just visited does not disturb the others.
release_user_loop :
    ℕ → ℕ → List (ℕ × FieldLockLease) → FieldLockManager → FieldLockManager × List ReleasedFieldLock
release_user_loop user_id project_id [] m = (m, [])
release_user_loop user_id project_id ((key, lease) ∷ entries) m =
    let hit = lease.user_id == user_id && lease.project_id == project_id in
    let (m', released) =
      release_user_loop user_id project_id entries (if hit then without m key else m) in
    (m', if hit then record { key = key; lock = to_public_lock lease } ∷ released else released)

unfoldable pub release_user_in_project :
    FieldLockManager → ℕ → ℕ → FieldLockManager × List ReleasedFieldLock
unfolding release_user_loop
release_user_in_project m user_id project_id = release_user_loop user_id project_id m.leases m

module _ (node : NodeCrypto) where
  unfoldable pub renew : ℕ → FieldLockManager → ℕ → ℕ → String → FieldLockManager × Option FieldLock
  unfolding release_resource
  renew now m key socket_id token = elim (get key m.leases) [
    | none ↦ (m, none)
    | some lease ↦
        if not (lease.socket_id == socket_id) || not (tokens_match node lease.token token)
        then (m, none)
        else (if leb lease.expires_at now
            then (notify_released (release_resource m key), none)
            else (
              record m { leases = set key (extend now lease) m.leases },
              some (to_public_lock (extend now lease)),
            ))
  ]

  -- `token === undefined || !tokensMatch(lease.token, token)`, negated.
  abbrev pub token_fits : FieldLockLease → Option String → Bool
  token_fits lease none = false
  token_fits lease (some token) = tokens_match node lease.token token

  abbrev pub owns : FieldLockLease → ℕ → ℕ → Option String → Bool
  owns lease user_id project_id token =
      lease.user_id == user_id && lease.project_id == project_id && token_fits lease token

  -- The second part says whether the call returns; otherwise it throws `FieldLockLeaseError`.
  unfoldable pub assert_lease_owner_if_locked :
      ℕ → FieldLockManager → ℕ → ℕ → ℕ → Option String → FieldLockManager × Bool
  unfolding release_if_expired
  assert_lease_owner_if_locked now m project_id key user_id token = elim (get key m.leases) [
    | none ↦ (m, true)
    | some lease ↦
        let (m', expired) = release_if_expired now m key in
        (m', expired || owns lease user_id project_id token)
  ]
