-- ===== src/ProjectLock/Drain.antt =====
-- What `drain` lets in.
use transcendence.Prelude.{
  ℕ, ◌+◌, ◌-◌, ◌<◌, ◌≡◌, refl, subst, ◌⊎◌, inl, inr, Bool, true, false, not, ◌||◌, List, [], ◌∷◌,
  ◌++◌, arith, ltb, if◌then◌else◌, Bool-cases, length, filter,
}
use transcendence.ProjectLock.{
  ProjectLockWaiter, ProjectCoordinator, drain_shared, drain_queue, drain, release_shared,
  release_exclusive, is_exclusive,
}

abbrev pub is_shared : ProjectLockWaiter → Bool
is_shared w = not (is_exclusive w)

abbrev pub count : (ProjectLockWaiter → Bool) → List ProjectLockWaiter → ℕ
count p ws = length (filter p ws)

-- Whoever stands first is blocked: by the writer, or, if it wants to write, by readers.
abbrev pub IsBlocked : ProjectCoordinator → List ProjectLockWaiter → Type 0
IsBlocked c [] = Unit
IsBlocked c (w ∷ ws) = (c.writer_active ≡ true) ⊎ ((is_exclusive w ≡ true) × (0 < c.reader_count))

-- What every coordinator satisfies between two calls.
pub record Inv (c : ProjectCoordinator) : Type 0 where
  pub alone : c.writer_active ≡ true → c.reader_count ≡ 0
  pub blocked : IsBlocked c c.waiters

-- The coordinator after some waiters were let in.
pub record Admits (c d : ProjectCoordinator) (granted : List ProjectLockWaiter) : Type 0 where
  pub inv : Inv d
  pub order : granted ++ d.waiters ≡ c.waiters
  pub readers : d.reader_count ≡ c.reader_count + count is_shared granted
  pub writers :
      (if d.writer_active then 1 else 0)
      ≡ (if c.writer_active then 1 else 0) + count is_exclusive granted

drain_shared-Admits :
    (readers : ℕ) (ws : List ProjectLockWaiter)
    → (0 < readers)
      ⊎ (ws ≡ [])
      ⊎ ((w : ProjectLockWaiter) × (rest : List ProjectLockWaiter) × (ws ≡ w ∷ rest)
          × (is_exclusive w ≡ false))
    → let r = drain_shared readers false ws in
      Admits (record { reader_count = readers; writer_active = false; waiters = ws }) r.0 r.1
unfolding drain_shared
drain_shared-Admits readers [] h = ground arith
drain_shared-Admits readers (w ∷ ws) h =
    let ih = drain_shared-Admits (readers + 1) ws (inl (omega arith)) in ground (arith, ih)

-- Nobody inside.
abbrev vacant : List ProjectLockWaiter → ProjectCoordinator
vacant ws = record { reader_count = 0; writer_active = false; waiters = ws }

drain_queue-Admits :
    (ws : List ProjectLockWaiter)
    → Admits (vacant ws) (drain_queue (vacant ws) ws).0 (drain_queue (vacant ws) ws).1
unfolding drain_queue
drain_queue-Admits [] = ground arith
drain_queue-Admits (w ∷ ws) = elim (Bool-cases (is_exclusive w)) [
  | inl e ↦ rw e (ground arith)
  | inr e ↦ rw e (drain_shared-Admits 0 (w ∷ ws) (inr (inr (w, ws, refl, e))))
]

drain-Admits_of_vacant :
    (c : ProjectCoordinator)
    → c.writer_active ≡ false
    → c.reader_count ≡ 0
    → Admits c (drain c).0 (drain c).1
unfolding drain
drain-Admits_of_vacant c w r =
    let e : vacant c.waiters ≡ c = ground arith in
    subst (λ d. Admits d (drain d).0 (drain d).1) e (drain_queue-Admits c.waiters)

drain-Admits_of_busy :
    (c : ProjectCoordinator)
    → Inv c
    → (c.writer_active || ltb 0 c.reader_count) ≡ true
    → Admits c (drain c).0 (drain c).1
unfolding drain
drain-Admits_of_busy c v busy = rw (busy, drain) (ground (arith, v.alone, v.blocked))

still-IsBlocked :
    (c : ProjectCoordinator) (n : ℕ) (ws : List ProjectLockWaiter)
    → c.writer_active ≡ false
    → 0 < n
    → IsBlocked c ws
    → IsBlocked (record c { reader_count = n }) ws
still-IsBlocked c n [] w h b = tt
still-IsBlocked c n (x ∷ ws) w h b = ground arith

-- A reader that leaves lets the queue in if it was the last one.
pub release_shared-Admits :
    (c : ProjectCoordinator)
    → Inv c
    → 0 < c.reader_count
    → Admits
        (record c { reader_count = c.reader_count - 1 })
        (release_shared c).0
        (release_shared c).1
unfolding release_shared
release_shared-Admits c v h = elim (Bool-cases (ltb 0 (c.reader_count - 1))) [
  | inl more ↦
      drain-Admits_of_busy _
        (record {
          alone = ground (arith, v.alone);
          blocked =
              still-IsBlocked c _ c.waiters (ground (arith, v.alone)) (ground arith) v.blocked;
        })
        (ground arith)
  | inr last ↦ drain-Admits_of_vacant _ (ground (arith, v.alone)) (ground arith)
]

-- So does the writer.
pub release_exclusive-Admits :
    (c : ProjectCoordinator)
    → Inv c
    → c.writer_active ≡ true
    → Admits (record c { writer_active = false }) (release_exclusive c).0 (release_exclusive c).1
unfolding release_exclusive
release_exclusive-Admits c v h = drain-Admits_of_vacant _ refl (v.alone h)
