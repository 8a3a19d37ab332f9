-- ===== src/FieldLock/Calls/Stable.antt =====
-- What the calls of other clients can do to a lease in force.
use transcendence.Prelude.{
  ℕ, ◌<◌, String, ◌≡◌, sym, subst, ◌∙◌, ◌≢◌, inl, inr, false, Option, none, some, List, [], ◌∷◌,
  arith, ◌==◌, ==_iff, Bool-cases, All,
}
use transcendence.JsMap.{get}
use transcendence.JsMap.Laws.{UniqueKeys, set-UniqueKeys, delete-UniqueKeys}
use transcendence.FieldLock.Token.{NodeCrypto}
use transcendence.FieldLock.{
  FieldLockLease, FieldLockManager, AcquireFieldLockInput, acquire, set_expiration_handler,
}
use transcendence.FieldLock.Acquire.{if_live, live, live-acquire, acquire_refused_iff}
use transcendence.FieldLock.Calls.{
  get_lock_lem, live-release, live-release_resource, renew_lem, assert_lease_owner_if_locked_lem,
}
use transcendence.FieldLock.Calls.Evict.{is_users, release_user_in_project_lem}
use transcendence.FieldLock.Calls.Histories.{
  Call, acquires, renews, gets, releases, asserts, frees, evicts, subscribes, step, run, step-keeps,
}

held_of_live :
    (now : ℕ) (l : FieldLockLease) (o : Option FieldLockLease) → if_live now o ≡ some l → o ≡ some l
held_of_live now l none e = e
held_of_live now l (some l') e = ground arith

-- A call that is not made for the lease `l` on `key`: it comes from another socket, or the program
-- frees another key, or evicts another user.
abbrev pub IsForeign : FieldLockLease → ℕ → Call → Type 0
IsForeign l key (acquires uuid input) = input.socket_id ≢ l.socket_id
IsForeign l key (renews k socket_id token) = socket_id ≢ l.socket_id
IsForeign l key (gets k) = Unit
IsForeign l key (releases k socket_id) = socket_id ≢ l.socket_id
IsForeign l key (asserts project_id k user_id token) = Unit
IsForeign l key (frees k) = k ≢ key
IsForeign l key (evicts user_id project_id) = is_users user_id project_id l ≡ false
IsForeign l key subscribes = Unit

module _ (node : NodeCrypto) where
  step-live_of_IsForeign :
      (m : FieldLockManager) (now key : ℕ) (c : Call) (l : FieldLockLease)
      → UniqueKeys m.leases
      → live now m key ≡ some l
      → IsForeign l key c
      → live now (step node m (now, c)) key ≡ some l
  unfolding step set_expiration_handler
  step-live_of_IsForeign m now key (acquires uuid input) l u e f =
      elim (Bool-cases (key == input.key)) [
        | inl same ↦
            let here : live now m input.key ≡ some l =
              subst (λ k. live now m k ≡ some l) ((==_iff key input.key).0 same) e in
            live-acquire now uuid m input key ∙ rw (same, here) (ground arith)
        | inr other ↦ live-acquire now uuid m input key ∙ rw other e
      ]
  step-live_of_IsForeign m now key (renews k socket_id token) l u e f =
      ground (arith, (renew_lem node now m k socket_id token).1 key)
  step-live_of_IsForeign m now key (gets k) l u e f = ground (arith, (get_lock_lem now m k).1 key)
  step-live_of_IsForeign m now key (releases k socket_id) l u e f =
      ground (arith, live-release now m k socket_id key)
  step-live_of_IsForeign m now key (asserts project_id k user_id token) l u e f =
      ground (arith, (assert_lease_owner_if_locked_lem node now m project_id k user_id token).1 key)
  step-live_of_IsForeign m now key (frees k) l u e f =
      ground (arith, live-release_resource now m k key)
  step-live_of_IsForeign m now key (evicts user_id project_id) l u e f =
      ground (arith, (release_user_in_project_lem m user_id project_id u).0 key)
  step-live_of_IsForeign m now key subscribes l u e f = e

  pub step-UniqueKeys :
      (m : FieldLockManager) (now : ℕ) (c : Call)
      → UniqueKeys m.leases
      → UniqueKeys (step node m (now, c)).leases
  step-UniqueKeys m now c =
      step-keeps UniqueKeys delete-UniqueKeys node now (λ k lease l _. set-UniqueKeys k lease l) m c

  -- In a manager whose map holds no key twice, a lease held on a key is still there, unchanged,
  -- after any history of calls made before it runs out, none of which is for that lease (from its
  -- own socket, freeing its key, or evicting its user from its project).
  pub run-get_of_IsForeign :
      (m : FieldLockManager) (cs : List (ℕ × Call)) (key : ℕ) (l : FieldLockLease)
      → UniqueKeys m.leases
      → get key m.leases ≡ some l
      → All (λ c. (c.0 < l.expires_at) × IsForeign l key c.1) cs
      → get key (run node m cs).leases ≡ some l
  unfolding run
  run-get_of_IsForeign m [] key l u e h = e
  run-get_of_IsForeign m ((now, c) ∷ cs) key l u e h =
      run-get_of_IsForeign (step node m (now, c)) cs key l (step-UniqueKeys m now c u)
        (held_of_live now l _ (step-live_of_IsForeign m now key c l u (rw e (ground arith)) h.0.1))
        h.1

  -- So no other client gets the lock in that time: its attempt is refused.
  pub run-acquire_refused :
      (m : FieldLockManager) (cs : List (ℕ × Call)) (l : FieldLockLease) (now : ℕ) (uuid : String)
      (input : AcquireFieldLockInput)
      → UniqueKeys m.leases
      → get input.key m.leases ≡ some l
      → All (λ c. (c.0 < l.expires_at) × IsForeign l input.key c.1) cs
      → now < l.expires_at
      → input.socket_id ≢ l.socket_id
      → (acquire now uuid (run node m cs) input).1.acquired ≡ false
  run-acquire_refused m cs l now uuid input u e h t f =
      (acquire_refused_iff now uuid (run node m cs) input).1
        (l, run-get_of_IsForeign m cs input.key l u e h, t, λ p. f (sym p))
