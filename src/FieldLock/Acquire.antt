-- ===== src/FieldLock/Acquire.antt =====
-- The abstract view of the manager, the lease that is live on each key at a time, and what the
-- calls that grant, read and renew a lock do to it.
use transcendence.Prelude.{
  ℕ, ◌≤◌, ◌<◌, String, false, ◌==◌, ltb, if◌then◌else◌, Option, none, some, ◌≡◌, ◌≢◌, ◌↔◌, ◌∙◌, ap,
  refl, arith,
}
use transcendence.JsMap.{get}
use transcendence.JsMap.Laws.{get-set, get-delete}
use transcendence.FieldLock.{
  FieldLockLease, FieldLockManager, AcquireFieldLockInput, AcquireFieldLockResult, to_public_lock,
  extend, new_lease, release_if_expired, acquire, acquire_current,
}

abbrev pub if_live : ℕ → Option FieldLockLease → Option FieldLockLease
if_live now none = none
if_live now (some lease) = if ltb now lease.expires_at then some lease else none

-- The lease in force on a key: the one held there, unless it has run out.
abbrev pub live : ℕ → FieldLockManager → ℕ → Option FieldLockLease
live now m key = if_live now (get key m.leases)

-- Dropping an expired lease changes nothing that is in force, then or later.
pub live-release_if_expired :
    (now later : ℕ) (m : FieldLockManager) (key j : ℕ)
    → now ≤ later
    → live later (release_if_expired now m key).0 j ≡ live later m j
unfolding release_if_expired
live-release_if_expired now later m key j h = ground (arith, get-delete key j m.leases)

-- After it, what is held on the key is what is in force.
pub get-release_if_expired :
    (now : ℕ) (m : FieldLockManager) (key : ℕ)
    → get key (release_if_expired now m key).0.leases ≡ live now m key
unfolding release_if_expired
get-release_if_expired now m key = ground (arith, get-delete key key m.leases)

-- Who has the lock after an attempt: the holder, or else the one who asks.
abbrev pub winner : ℕ → String → AcquireFieldLockInput → Option FieldLockLease → FieldLockLease
winner now uuid input none = new_lease now uuid input
winner now uuid input (some lease) =
    if lease.socket_id == input.socket_id then extend now lease else lease

-- What `acquire` answers if that is the winner.
abbrev pub answer : AcquireFieldLockInput → FieldLockLease → AcquireFieldLockResult
answer input lease =
    let mine = lease.socket_id == input.socket_id in
    record {
      acquired = mine;
      lock = some (to_public_lock lease);
      token = if mine then some lease.token else none;
    }

live-acquire_current :
    (now : ℕ) (uuid : String) (m : FieldLockManager) (input : AcquireFieldLockInput)
    (o : Option FieldLockLease)
    → get input.key m.leases ≡ o
    → if_live now o ≡ o
    → (j : ℕ)
    → live now (acquire_current now uuid m input).0 j
      ≡ (if j == input.key then some (winner now uuid input o) else live now m j)
unfolding acquire_current
live-acquire_current now uuid m input none e f j =
    rw (e, acquire_current)
      (ground (arith, get-set input.key j (new_lease now uuid input) m.leases))
live-acquire_current now uuid m input (some l) e f j =
    rw (e, acquire_current) (ground (arith, get-set input.key j (extend now l) m.leases))

if_live-live : (now : ℕ) (o : Option FieldLockLease) → if_live now (if_live now o) ≡ if_live now o
if_live-live now none = refl
if_live-live now (some l) = ground arith

-- After an attempt to lock a key, the lease in force there is the winner's (the holder's, renewed
-- if it is the same socket; or a new one if none was in force), and on every other key the one
-- that was.
pub live-acquire :
    (now : ℕ) (uuid : String) (m : FieldLockManager) (input : AcquireFieldLockInput) (j : ℕ)
    → live now (acquire now uuid m input).0 j ≡ (
        if j == input.key
        then some (winner now uuid input (live now m input.key))
        else live now m j)
unfolding acquire
live-acquire now uuid m input j =
    live-acquire_current now uuid (release_if_expired now m input.key).0 input
      (live now m input.key) (get-release_if_expired now m input.key)
      (if_live-live now (get input.key m.leases)) j
    ∙ ap (λ o. if j == input.key then some (winner now uuid input (live now m input.key)) else o)
        (live-release_if_expired now now m input.key j (omega arith))

answer_current :
    (now : ℕ) (uuid : String) (m : FieldLockManager) (input : AcquireFieldLockInput)
    (o : Option FieldLockLease)
    → get input.key m.leases ≡ o
    → (acquire_current now uuid m input).1 ≡ answer input (winner now uuid input o)
unfolding acquire_current
answer_current now uuid m input none e = rw (e, acquire_current) (ground arith)
answer_current now uuid m input (some l) e = rw (e, acquire_current) (ground arith)

-- An attempt answers with the winner's public lock, reports success exactly if the winner is the
-- socket that asks, and hands out the token only then.
pub acquire-answer :
    (now : ℕ) (uuid : String) (m : FieldLockManager) (input : AcquireFieldLockInput)
    → (acquire now uuid m input).1 ≡ answer input (winner now uuid input (live now m input.key))
unfolding acquire
acquire-answer now uuid m input =
    answer_current now uuid (release_if_expired now m input.key).0 input (live now m input.key)
      (get-release_if_expired now m input.key)

refused_iff :
    (now : ℕ) (uuid : String) (input : AcquireFieldLockInput) (o : Option FieldLockLease)
    → ((answer input (winner now uuid input (if_live now o))).acquired ≡ false) ↔ (
        (l : FieldLockLease) × (o ≡ some l)
        × (now < l.expires_at)
        × (l.socket_id ≢ input.socket_id))
refused_iff now uuid input none = ground arith
refused_iff now uuid input (some l) =
    ((λ h. (l, refl, ground arith, ground arith)), (λ h. ground arith))

-- An attempt is refused exactly when a lease of another socket is held on the key and has not run
-- out.
pub acquire_refused_iff :
    (now : ℕ) (uuid : String) (m : FieldLockManager) (input : AcquireFieldLockInput)
    → ((acquire now uuid m input).1.acquired ≡ false) ↔ (
        (l : FieldLockLease) × (get input.key m.leases ≡ some l)
        × (now < l.expires_at)
        × (l.socket_id ≢ input.socket_id))
acquire_refused_iff now uuid m input =
    rw (acquire-answer now uuid m input) (refused_iff now uuid input (get input.key m.leases))
