-- ===== src/FieldLock/Calls/Bounded.antt =====
-- How long a lock can outlive the client that took it.
use transcendence.Prelude.{
  ℕ, ◌+◌, ◌≤◌, String, ◌≡◌, inl, inr, true, List, [], ◌∷◌, arith, Bool-cases,
}
use transcendence.JsMap.Laws.{Values, get-Values, set-Values, delete-Values}
use transcendence.FieldLock.Token.{NodeCrypto}
use transcendence.FieldLock.{
  FieldLockLease, FieldLockManager, AcquireFieldLockInput, acquire, create, field_lock_ttl_ms,
}
use transcendence.FieldLock.Acquire.{acquire_refused_iff}
use transcendence.FieldLock.Calls.Histories.{Call, step, run, step-keeps}

-- The lease ends at most one term after `now`.
abbrev pub EndsBy : ℕ → FieldLockLease → Type 0
EndsBy now l = l.expires_at ≤ now + field_lock_ttl_ms

-- The calls are made at times that do not fall, none before `start` nor after `end`.
abbrev pub IsBetween : ℕ → ℕ → List (ℕ × Call) → Type 0
IsBetween start end [] = start ≤ end
IsBetween start end ((now, c) ∷ cs) = (start ≤ now) × IsBetween now end cs

EndsBy-mono :
    (t u : ℕ) (m : List (ℕ × FieldLockLease)) → t ≤ u → Values (EndsBy t) m → Values (EndsBy u) m
EndsBy-mono t u [] h v = tt
EndsBy-mono t u ((k, l) ∷ m) h v = (omega arith, EndsBy-mono t u m h v.1)

module _ (node : NodeCrypto) where
  step-EndsBy :
      (m : FieldLockManager) (t now : ℕ) (c : Call)
      → t ≤ now
      → Values (EndsBy t) m.leases
      → Values (EndsBy now) (step node m (now, c)).leases
  step-EndsBy m t now c h v =
      step-keeps (Values (EndsBy now)) (delete-Values (EndsBy now)) node now
        (λ k lease l e. set-Values (EndsBy now) k lease l (omega arith)) m c
        (EndsBy-mono t now m.leases h v)

  run-EndsBy :
      (m : FieldLockManager) (start end : ℕ) (cs : List (ℕ × Call))
      → Values (EndsBy start) m.leases
      → IsBetween start end cs
      → Values (EndsBy end) (run node m cs).leases
  unfolding run
  run-EndsBy m start end [] v h = EndsBy-mono start end m.leases h v
  run-EndsBy m start end ((now, c) ∷ cs) v h =
      run-EndsBy (step node m (now, c)) now end cs (step-EndsBy m start now c h.0 v) h.1

  -- After any history of calls from an empty manager at times that do not fall, the last not after
  -- `end`, an attempt to lock any key at least 30 000 ms after `end` succeeds.
  pub abandoned_lock_is_free :
      (end later : ℕ) (cs : List (ℕ × Call)) (uuid : String) (input : AcquireFieldLockInput)
      → IsBetween 0 end cs
      → end + field_lock_ttl_ms ≤ later
      → (acquire later uuid (run node create cs) input).1.acquired ≡ true
  unfolding create
  abandoned_lock_is_free end later cs uuid input h late =
      elim (Bool-cases (acquire later uuid (run node create cs) input).1.acquired) [
        | inl yes' ↦ yes'
        | inr refused ↦
            let (l, held, alive, _) =
              (acquire_refused_iff later uuid (run node create cs) input).0 refused in
            let bound =
              get-Values (EndsBy end) input.key l _ (run-EndsBy create 0 end cs tt h) held in
            absurd (omega arith)
      ]
