-- ===== src/FieldLock/Async/Validated.antt =====
-- When a write guarded by a lease goes through.
use transcendence.Prelude.{
  ℕ, ◌<◌, String, ◌≡◌, sym, ap, ◌∙◌, ◌↔◌, inl, inr, Bool, true, false, not, ◌||◌, Option, none,
  some, arith, leb, Bool-cases, Option-cases,
}
use transcendence.JsMap.{get}
use transcendence.FieldLock.Token.{NodeCrypto, tokens_match_iff}
use transcendence.FieldLock.{FieldLockLease, FieldLockManager, owns, token_fits}
use transcendence.FieldLock.Async.{
  Interference, Guarded, ran, denied, lease_error, revalidate, with_validated_lease,
}

-- A lease in force on the key.
abbrev pub IsInForce : ℕ → FieldLockManager → ℕ → FieldLockLease → Type 0
IsInForce now m key l = (get key m.leases ≡ some l) × (now < l.expires_at)

module _ (node : NodeCrypto) where
  token_fits_iff :
      (l : FieldLockLease) (token : Option String)
      → (token_fits node l token ≡ true) ↔ (token ≡ some l.token)
  token_fits_iff l none = ground arith
  token_fits_iff l (some t) = (
    λ h. ap some (sym ((tokens_match_iff node l.token t).0 h)),
    λ e. (tokens_match_iff node l.token t).1 (ground arith),
  )

  -- The first check of the lease, failed.
  abbrev fails : ℕ → FieldLockLease → ℕ → ℕ → Option String → Bool
  fails now l user_id project_id token =
      not (owns node l user_id project_id token) || leb l.expires_at now

  fails_iff :
      (now : ℕ) (l : FieldLockLease) (user_id project_id : ℕ) (token : Option String)
      → (fails now l user_id project_id token ≡ false) ↔ (
          (now < l.expires_at)
          × (token ≡ some l.token)
          × (l.user_id ≡ user_id)
          × (l.project_id ≡ project_id))
  fails_iff now l user_id project_id token = (
    λ h. (ground arith, (token_fits_iff l token).0 (ground arith), ground arith, ground arith),
    λ h. ground (arith, (token_fits_iff l token).1 h.1),
  )

module _ (node : NodeCrypto) {E T : Type 0} where
  revalidate_ran :
      (now : ℕ) (m : FieldLockManager) (key : ℕ) (token : Option String)
      (operation : FieldLockManager → FieldLockManager × T) (t : T)
      → (revalidate node {E = E} now m key token operation).1 ≡ ran t
      → ((l : FieldLockLease) × IsInForce now m key l × (token ≡ some l.token))
        × ((operation m).1 ≡ t)
  unfolding revalidate
  revalidate_ran now m key token operation t h = elim (Option-cases (get key m.leases)) [
    | inl e ↦ absurd (ground arith)
    | inr (l, e) ↦
        ((l, (e, ground arith), ground (arith, token_fits_iff node l token)), ground arith)
  ]

  revalidate-eq-ran :
      (now : ℕ) (m : FieldLockManager) (key : ℕ) (token : Option String)
      (operation : FieldLockManager → FieldLockManager × T) (t : T) (l : FieldLockLease)
      → IsInForce now m key l
      → token ≡ some l.token
      → (operation m).1 ≡ t
      → (revalidate node {E = E} now m key token operation).1 ≡ ran t
  unfolding revalidate
  revalidate-eq-ran now m key token operation t l h e r =
      ground (arith, token_fits_iff node l token)

  module _ (now later : ℕ) (m : FieldLockManager) (project_id key user_id : ℕ)
      (token : Option String) (authorize : Option E) (others : Interference)
      (operation : FieldLockManager → FieldLockManager × T) where
    abbrev guarded : FieldLockManager × Guarded E T
    guarded =
        with_validated_lease node now later m project_id key user_id token authorize others
          operation

    guarded_fails :
        (l : FieldLockLease)
        → get key m.leases ≡ some l
        → fails node now l user_id project_id token ≡ true
        → guarded.1 ≡ lease_error
    unfolding with_validated_lease
    guarded_fails l e bad = rw (e, with_validated_lease) (rw bad)

    guarded_passes :
        (l : FieldLockLease)
        → get key m.leases ≡ some l
        → fails node now l user_id project_id token ≡ false
        → authorize ≡ none
        → guarded ≡ revalidate node later (others m) key token operation
    unfolding with_validated_lease
    guarded_passes l e good a = rw (e, with_validated_lease) (rw (good, a))

    guarded_denied :
        (l : FieldLockLease) (error : E)
        → get key m.leases ≡ some l
        → fails node now l user_id project_id token ≡ false
        → authorize ≡ some error
        → guarded ≡ (others m, denied error)
    unfolding with_validated_lease
    guarded_denied l error e good a = rw (e, with_validated_lease) (rw (good, a))

    not_held : (t : T) → get key m.leases ≡ none → guarded.1 ≡ ran t → ⊥
    unfolding with_validated_lease
    not_held t e h = let h' = rw (e, with_validated_lease) at h in cc

    ran_needs :
        (t : T)
        → guarded.1 ≡ ran t
        → (authorize ≡ none)
          × ((l : FieldLockLease) × IsInForce now m key l
              × (token ≡ some l.token)
              × (l.user_id ≡ user_id)
              × (l.project_id ≡ project_id))
          × ((l : FieldLockLease) × IsInForce later (others m) key l × (token ≡ some l.token))
          × ((operation (others m)).1 ≡ t)
    ran_needs t h = elim (Option-cases (get key m.leases)) [
      | inl e ↦ absurd (not_held t e h)
      | inr (l, e) ↦ elim (Bool-cases (fails node now l user_id project_id token)) [
        | inl bad ↦ absurd (cc (guarded_fails l e bad))
        | inr good ↦ elim (Option-cases authorize) [
          | inr (error, a) ↦ absurd (cc (ap (λ r. r.1) (guarded_denied l error e good a)))
          | inl a ↦
              let (alive, fits, user, project) =
                (fails_iff node now l user_id project_id token).0 good in
              let (again, result) =
                revalidate_ran later (others m) key token operation t
                  (sym (ap (λ r. r.1) (guarded_passes l e good a)) ∙ h) in
              (a, (l, (e, alive), fits, user, project), again, result)
        ]
      ]
    ]

    ran_of :
        (t : T)
        → (authorize ≡ none)
          × ((l : FieldLockLease) × IsInForce now m key l
              × (token ≡ some l.token)
              × (l.user_id ≡ user_id)
              × (l.project_id ≡ project_id))
          × ((l : FieldLockLease) × IsInForce later (others m) key l × (token ≡ some l.token))
          × ((operation (others m)).1 ≡ t)
        → guarded.1 ≡ ran t
    ran_of t (a, (l, (e, alive), fits, user, project), (l', force, fits'), r) =
        let good = (fails_iff node now l user_id project_id token).1 (alive, fits, user, project) in
        ap (λ r. r.1) (guarded_passes l e good a)
        ∙ revalidate-eq-ran later (others m) key token operation t l' force fits' r

    -- A guarded write runs and returns a value exactly if the authorization passes, the user held
    -- the field's lease in this project with the given token when the request came in, a lease
    -- with this token is in force after the authorization, and the operation gives that value.
    pub with_validated_lease_ran_iff :
        (t : T)
        → ((with_validated_lease node now later m project_id key user_id token authorize others
              operation).1
            ≡ ran t)
          ↔ ((authorize ≡ none)
              × ((l : FieldLockLease) × IsInForce now m key l
                  × (token ≡ some l.token)
                  × (l.user_id ≡ user_id)
                  × (l.project_id ≡ project_id))
              × ((l : FieldLockLease) × IsInForce later (others m) key l × (token ≡ some l.token))
              × ((operation (others m)).1 ≡ t))
    with_validated_lease_ran_iff t = (ran_needs t, ran_of t)
