-- ===== src/FieldLock/Async.antt =====
-- The asynchronous methods of `FieldLockManager`: what runs between two reads of the leases.
-- A critical section of a resource runs alone among the sections of that resource (the coordinator),
-- but synchronous calls for the same key, and every call for other keys, may run at each `await`.
-- They are a parameter: a function on the manager for each await.
pub mod Sweep
pub mod Validated
use transcendence.Prelude.{
  ℕ, zero, suc, ◌+◌, ◌-◌, ◌*◌, ◌≤◌, ◌<◌, min, max, String, ◌≡◌, refl, sym, ap, subst, ◌∙◌, ◌≡⟨◌⟩◌,
  ◌∎, ◌≢◌, ◌↔◌, ◌⊎◌, inl, inr, Bool, true, false, not, ◌&&◌, ◌||◌, Option, none, some, List, [],
  ◌∷◌, ◌++◌, map, arith, ltb, leb, ◌==◌, if◌then◌else◌, ltb→lt, lt→ltb, leb→le, ==_iff, ==_refl,
  Bool-cases, Option-cases, length, filter, any, find, All, length-append, All-append, All-mono,
}
use transcendence.JsMap.{get}
use transcendence.FieldLock.Token.{NodeCrypto, tokens_match}
use transcendence.FieldLock.{
  FieldLockLease, FieldLockManager, ReleasedFieldLock, owns, token_fits, release, release_resource,
  notify_released,
}

-- The state of the manager, and what other code does to it while a method waits.
abbrev pub Interference : Type 0
Interference = FieldLockManager → FieldLockManager

-- The critical section of `releaseExpiredLeases` for one key, at its own reading of the clock.
unfoldable pub sweep_key : ℕ → FieldLockManager → ℕ → FieldLockManager
unfolding release_resource
sweep_key now m key = elim (get key m.leases) [
  | none ↦ m
  | some current ↦
      if ltb now current.expires_at then m else notify_released (release_resource m key)
]

-- The loop of `releaseExpiredLeases` over the keys found expired when the timer fired. Each round
-- waits for its key's section: `others` and the clock then are listed, one entry for each key.
unfoldable pub sweep_loop : List ℕ → List (ℕ × Interference) → FieldLockManager → FieldLockManager
unfolding sweep_key
sweep_loop (key ∷ keys) ((now, others) ∷ waits) m =
    sweep_loop keys waits (sweep_key now (others m) key)
sweep_loop [] _ m = m
sweep_loop _ [] m = m

abbrev pub expired_keys : ℕ → List (ℕ × FieldLockLease) → List ℕ
expired_keys now leases = map (λ e. e.0) (filter (λ e. leb e.1.expires_at now) leases)

unfoldable pub release_expired_leases :
    ℕ → List (ℕ × Interference) → FieldLockManager → FieldLockManager
unfolding sweep_loop
release_expired_leases now waits m = sweep_loop (expired_keys now m.leases) waits m

-- The loop of `releaseSocket` over the keys that the socket held when it began.
unfoldable pub release_socket_loop :
    ℕ → List ℕ → List Interference → FieldLockManager → FieldLockManager × List ReleasedFieldLock
release_socket_loop socket_id (key ∷ keys) (others ∷ waits) m =
    let (m', result) = release (others m) key socket_id in
    let (m'', released) = release_socket_loop socket_id keys waits m' in
    (m'', elim result [ none ↦ released | some r ↦ r ∷ released ])
release_socket_loop socket_id [] _ m = (m, [])
release_socket_loop socket_id _ [] m = (m, [])

abbrev pub socket_keys : ℕ → List (ℕ × FieldLockLease) → List ℕ
socket_keys socket_id leases = map (λ e. e.0) (filter (λ e. e.1.socket_id == socket_id) leases)

unfoldable pub release_socket :
    ℕ → List Interference → FieldLockManager → FieldLockManager × List ReleasedFieldLock
unfolding release_socket_loop
release_socket socket_id waits m =
    release_socket_loop socket_id (socket_keys socket_id m.leases) waits m

-- How a guarded operation ends: it ran and gave its result, `authorize` threw, or the lease failed.
pub data Guarded {ℓ} (E : Type 0) (T : Type ℓ) : Type ℓ where
  ran : T → Guarded E T
  denied : E → Guarded E T
  lease_error : Guarded E T

module _ (node : NodeCrypto) {E T : Type 0} where
  -- After `await authorize()`: the lease is read again.
  revalidate :
      ℕ
      → FieldLockManager
      → ℕ
      → Option String
      → (FieldLockManager → FieldLockManager × T)
      → FieldLockManager × Guarded E T
  revalidate now m key token operation = elim (get key m.leases) [
    | none ↦ (m, lease_error)
    | some current ↦
        if not (token_fits node current token) || leb current.expires_at now
        then (m, lease_error)
        else (let (m', result) = operation m in (m', ran result))
  ]

  -- `authorize` gives the error that it throws, if it does; `others` runs while it is awaited, and
  -- `later` is the clock after it.
  unfoldable pub with_validated_lease :
      (now later : ℕ)
      → FieldLockManager
      → (project_id key user_id : ℕ) → Option String
      → (authorize : Option E) → Interference
      → (FieldLockManager → FieldLockManager × T)
      → FieldLockManager × Guarded E T
  unfolding revalidate release_resource
  with_validated_lease now later m project_id key user_id token authorize others operation =
      elim (get key m.leases) [
        | none ↦ (m, lease_error)
        | some lease ↦
            if not (owns node lease user_id project_id token) || leb lease.expires_at now
            then (
              if leb lease.expires_at now then notify_released (release_resource m key) else m,
              lease_error,
            )
            else (elim authorize [
              | some e ↦ (others m, denied e)
              | none ↦ revalidate later (others m) key token operation
            ])
      ]
