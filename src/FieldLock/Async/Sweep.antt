-- ===== src/FieldLock/Async/Sweep.antt =====
-- The two loops over a snapshot of the leases: the expiry timer, and the socket that disconnects.
use transcendence.Prelude.{
  ℕ, ◌≤◌, ◌<◌, ◌≡◌, ◌∙◌, ◌≢◌, ◌⊎◌, inl, inr, true, none, some, List, [], ◌∷◌, arith, ◌==◌,
  if◌then◌else◌, lt→ltb, Bool-cases, Option-cases, length, any, All,
}
use transcendence.JsMap.{get}
use transcendence.JsMap.Laws.{get-delete}
use transcendence.FieldLock.{FieldLockLease, FieldLockManager, release}
use transcendence.FieldLock.Acquire.{if_live}
use transcendence.FieldLock.Async.{
  Interference, sweep_key, sweep_loop, expired_keys, release_expired_leases, release_socket_loop,
  release_socket, socket_keys,
}

-- What is held on the key, if anything, has the property.
abbrev pub HoldsAt : (FieldLockLease → Type 0) → FieldLockManager → ℕ → Type 0
HoldsAt P m j = (l : FieldLockLease) → get j m.leases ≡ some l → P l

-- What other code may do while the loop waits: nothing that makes the property fail on a key.
abbrev pub Respects : (FieldLockLease → Type 0) → Interference → Type 0
Respects P others = (m : FieldLockManager) (j : ℕ) → HoldsAt P m j → HoldsAt P (others m) j

-- The keys where the property may still fail are among those that are left.
abbrev Pending : (FieldLockLease → Type 0) → List ℕ → FieldLockManager → Type 0
Pending P keys m = (j : ℕ) → HoldsAt P m j ⊎ (any (λ k. j == k) keys ≡ true)

abbrev pub Outlives : ℕ → FieldLockLease → Type 0
Outlives now l = now < l.expires_at

get-sweep_key :
    (now : ℕ) (m : FieldLockManager) (key j : ℕ)
    → get j (sweep_key now m key).leases
      ≡ (if j == key then if_live now (get j m.leases) else get j m.leases)
unfolding sweep_key
get-sweep_key now m key j = ground (arith, get-delete key j m.leases)

sweep_key-HoldsAt :
    (start now : ℕ) (m : FieldLockManager) (key j : ℕ)
    → start ≤ now
    → HoldsAt (Outlives start) m j ⊎ ((j == key) ≡ true)
    → HoldsAt (Outlives start) (sweep_key now m key) j
sweep_key-HoldsAt start now m key j t (inl h) l e = h l (ground (arith, get-sweep_key now m key j))
sweep_key-HoldsAt start now m key j t (inr same) l e = ground (arith, get-sweep_key now m key j)

sweep_loop-HoldsAt :
    (start : ℕ) (keys : List ℕ) (waits : List (ℕ × Interference)) (m : FieldLockManager)
    → length keys ≤ length waits
    → All (λ w. (start ≤ w.0) × Respects (Outlives start) w.1) waits
    → Pending (Outlives start) keys m
    → (j : ℕ) → HoldsAt (Outlives start) (sweep_loop keys waits m) j
unfolding sweep_loop
sweep_loop-HoldsAt start [] waits m n r p j = elim (p j) [ inl h ↦ h | inr e ↦ cc ]
sweep_loop-HoldsAt start (key ∷ keys) [] m n r p j = absurd (omega arith)
sweep_loop-HoldsAt start (key ∷ keys) ((now, others) ∷ waits) m n r p j =
    sweep_loop-HoldsAt start keys waits (sweep_key now (others m) key) (omega arith) r.1 left j
  where
    left : Pending (Outlives start) keys (sweep_key now (others m) key)
    left i = elim (p i) [
      | inl h ↦ inl (sweep_key-HoldsAt start now (others m) key i r.0.0 (inl (r.0.1 m i h)))
      | inr e ↦ elim (Bool-cases (i == key)) [
        | inl same ↦ inl (sweep_key-HoldsAt start now (others m) key i r.0.0 (inr same))
        | inr other ↦ inr (rw other at e)
      ]
    ]

Pending-expired_keys :
    (now : ℕ) (es : List (ℕ × FieldLockLease)) (j : ℕ) (l : FieldLockLease)
    → get j es ≡ some l
    → (now < l.expires_at) ⊎ (any (λ k. j == k) (expired_keys now es) ≡ true)
unfolding get
Pending-expired_keys now [] j l e = cc
Pending-expired_keys now ((k, x) ∷ es) j l e = ground (arith, Pending-expired_keys now es j l)

Pending-of_expired :
    (now : ℕ) (m : FieldLockManager) → Pending (Outlives now) (expired_keys now m.leases) m
Pending-of_expired now m j = elim (Option-cases (get j m.leases)) [
  | inl e ↦ inl (λ l e'. cc)
  | inr (l, e) ↦ elim (Pending-expired_keys now m.leases j l e) [
    | inl alive ↦ inl (λ l' e'. ground arith)
    | inr listed ↦ inr listed
  ]
]

-- After a round of the expiry timer no lease is held that had run out when the round began, if
-- every snapshot key gets its section, no section reads an earlier clock than the round, and other
-- code meanwhile adds on no key a lease that ends by the round's beginning.
pub release_expired_leases_complete :
    (now : ℕ) (m : FieldLockManager) (waits : List (ℕ × Interference)) (j : ℕ) (l : FieldLockLease)
    → length (expired_keys now m.leases) ≤ length waits
    → All (λ w. (now ≤ w.0) × Respects (Outlives now) w.1) waits
    → get j (release_expired_leases now waits m).leases ≡ some l
    → now < l.expires_at
unfolding release_expired_leases
release_expired_leases_complete now m waits j l n r =
    sweep_loop-HoldsAt now (expired_keys now m.leases) waits m n r (Pending-of_expired now m) j l

abbrev pub Keeps : ℕ → FieldLockLease → Interference → Type 0
Keeps j l others =
    (m : FieldLockManager) → get j m.leases ≡ some l → get j (others m).leases ≡ some l

sweep_loop_spares :
    (keys : List ℕ) (waits : List (ℕ × Interference)) (m : FieldLockManager) (j : ℕ)
    (l : FieldLockLease)
    → All (λ w. (w.0 < l.expires_at) × Keeps j l w.1) waits
    → get j m.leases ≡ some l
    → get j (sweep_loop keys waits m).leases ≡ some l
unfolding sweep_loop
sweep_loop_spares (key ∷ keys) ((now, others) ∷ waits) m j l r e =
    sweep_loop_spares keys waits (sweep_key now (others m) key) j l r.1 (
      get-sweep_key now (others m) key j
      ∙ rw (r.0.1 m e, lt→ltb now l.expires_at r.0.0) (ground arith))
sweep_loop_spares [] waits m j l r e = e
sweep_loop_spares (key ∷ keys) [] m j l r e = e

-- A round of the expiry timer keeps a lease that is held when it begins and ends after every clock
-- reading of the round's sections, if other code keeps it.
pub release_expired_leases_spares :
    (now : ℕ) (m : FieldLockManager) (waits : List (ℕ × Interference)) (j : ℕ) (l : FieldLockLease)
    → All (λ w. (w.0 < l.expires_at) × Keeps j l w.1) waits
    → get j m.leases ≡ some l
    → get j (release_expired_leases now waits m).leases ≡ some l
unfolding release_expired_leases
release_expired_leases_spares now m waits j l r e =
    sweep_loop_spares (expired_keys now m.leases) waits m j l r e

-- The lease is of another socket.
abbrev pub IsOthers : ℕ → FieldLockLease → Type 0
IsOthers socket_id l = l.socket_id ≢ socket_id

get-release :
    (m : FieldLockManager) (key socket_id j : ℕ)
    → get j (release m key socket_id).0.leases ≡ (
        if j == key
        then (elim (get j m.leases) [
          | none ↦ none
          | some l ↦ if l.socket_id == socket_id then none else some l
        ])
        else get j m.leases)
unfolding release
get-release m key socket_id j = ground (arith, get-delete key j m.leases)

release-HoldsAt :
    (m : FieldLockManager) (key socket_id j : ℕ)
    → HoldsAt (IsOthers socket_id) m j ⊎ ((j == key) ≡ true)
    → HoldsAt (IsOthers socket_id) (release m key socket_id).0 j
release-HoldsAt m key socket_id j (inl h) l e = h l (ground (arith, get-release m key socket_id j))
release-HoldsAt m key socket_id j (inr same) l e = ground (arith, get-release m key socket_id j)

release_socket_loop-HoldsAt :
    (socket_id : ℕ) (keys : List ℕ) (waits : List Interference) (m : FieldLockManager)
    → length keys ≤ length waits
    → All (Respects (IsOthers socket_id)) waits
    → Pending (IsOthers socket_id) keys m
    → (j : ℕ) → HoldsAt (IsOthers socket_id) (release_socket_loop socket_id keys waits m).0 j
unfolding release_socket_loop
release_socket_loop-HoldsAt socket_id [] waits m n r p j = elim (p j) [ inl h ↦ h | inr e ↦ cc ]
release_socket_loop-HoldsAt socket_id (key ∷ keys) [] m n r p j = absurd (omega arith)
release_socket_loop-HoldsAt socket_id (key ∷ keys) (others ∷ waits) m n r p j =
    release_socket_loop-HoldsAt socket_id keys waits (release (others m) key socket_id).0
      (omega arith) r.1 left j
  where
    left : Pending (IsOthers socket_id) keys (release (others m) key socket_id).0
    left i = elim (p i) [
      | inl h ↦ inl (release-HoldsAt (others m) key socket_id i (inl (r.0 m i h)))
      | inr e ↦ elim (Bool-cases (i == key)) [
        | inl same ↦ inl (release-HoldsAt (others m) key socket_id i (inr same))
        | inr other ↦ inr (rw other at e)
      ]
    ]

Pending_of_socket :
    (socket_id : ℕ) (es : List (ℕ × FieldLockLease)) (j : ℕ) (l : FieldLockLease)
    → get j es ≡ some l
    → IsOthers socket_id l ⊎ (any (λ k. j == k) (socket_keys socket_id es) ≡ true)
unfolding get
Pending_of_socket socket_id [] j l e = cc
Pending_of_socket socket_id ((k, x) ∷ es) j l e = ground (arith, Pending_of_socket socket_id es j l)

Pending-of_snapshot :
    (socket_id : ℕ) (m : FieldLockManager)
    → Pending (IsOthers socket_id) (socket_keys socket_id m.leases) m
Pending-of_snapshot socket_id m j = elim (Option-cases (get j m.leases)) [
  | inl e ↦ inl (λ l e'. cc)
  | inr (l, e) ↦ elim (Pending_of_socket socket_id m.leases j l e) [
    | inl others ↦ inl (λ l' e'. ground arith)
    | inr listed ↦ inr listed
  ]
]

-- After `releaseSocket` no key holds a lease of the socket, if every snapshot key gets its section
-- and other code meanwhile gives the socket no lease on a key where it has none.
pub release_socket_complete :
    (socket_id : ℕ) (m : FieldLockManager) (waits : List Interference) (j : ℕ) (l : FieldLockLease)
    → length (socket_keys socket_id m.leases) ≤ length waits
    → All (Respects (IsOthers socket_id)) waits
    → get j (release_socket socket_id waits m).0.leases ≡ some l
    → l.socket_id ≢ socket_id
unfolding release_socket
release_socket_complete socket_id m waits j l n r =
    release_socket_loop-HoldsAt socket_id (socket_keys socket_id m.leases) waits m n r
      (Pending-of_snapshot socket_id m) j l
