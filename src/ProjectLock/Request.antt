-- ===== src/ProjectLock/Request.antt =====
-- What a request for access does.
use transcendence.Prelude.{
  ℕ, ◌≡◌, refl, inl, inr, Bool, true, false, not, ◌&&◌, List, [], ◌∷◌, ◌++◌, arith, ◌==◌,
  if◌then◌else◌, Bool-cases, any,
}
use transcendence.ProjectLock.{
  is_empty, ProjectLockMode, shared, exclusive, ProjectLockWaiter, ProjectCoordinator, is_exclusive,
  acquire_shared, acquire_exclusive,
}
use transcendence.ProjectLock.System.{request}
use transcendence.ProjectLock.Drain.{IsBlocked, Inv, Admits}

IsBlocked-append :
    (c : ProjectCoordinator) (ws vs : List ProjectLockWaiter)
    → IsBlocked c ws
    → (ws ≡ [] → IsBlocked c vs)
    → IsBlocked c (ws ++ vs)
IsBlocked-append c [] vs h k = k refl
IsBlocked-append c (w ∷ ws) vs h k = h

-- A queue that holds no writer is empty or stands behind one.
writer_blocks :
    (c : ProjectCoordinator) (ws : List ProjectLockWaiter)
    → IsBlocked c ws
    → c.writer_active ≡ false
    → any is_exclusive ws ≡ false
    → ws ≡ []
writer_blocks c [] b w h = refl
writer_blocks c (x ∷ ws) b w h = ground arith

abbrev pub joined : ProjectCoordinator → ProjectLockWaiter → ProjectCoordinator
joined c w = record c { waiters = c.waiters ++ w ∷ [] }

-- A request is let in at once, or waits at the end of the queue.
abbrev pub Requests : ProjectCoordinator → ProjectLockWaiter → ProjectCoordinator × Bool → Type 0
Requests c w r = Admits (joined c w) r.0 (if r.1 then w ∷ [] else [])

queue-Admits :
    (c : ProjectCoordinator) (w : ProjectLockWaiter)
    → Inv c
    → (c.waiters ≡ [] → IsBlocked c (w ∷ []))
    → Requests c w (joined c w, false)
queue-Admits c w v h = record {
  inv = record {
    alone = v.alone;
    blocked = IsBlocked-append (joined c w) c.waiters (w ∷ []) (same c.waiters v.blocked) h;
  };
  order = refl;
  readers = omega arith;
  writers = omega arith;
}
  where
    same : (ws : List ProjectLockWaiter) → IsBlocked c ws → IsBlocked (joined c w) ws
    same [] b = tt
    same (x ∷ ws) b = b

busy_writer :
    (c : ProjectCoordinator) → (not c.writer_active && not false) ≡ false → c.writer_active ≡ true
busy_writer c h = ground arith

shared-Admits :
    (c : ProjectCoordinator) (id : ℕ)
    → Inv c
    → Requests c (record { mode = shared; id = id }) (acquire_shared c id)
unfolding acquire_shared
shared-Admits c id v = elim (Bool-cases (not c.writer_active && not (any is_exclusive c.waiters))) [
  | inl free ↦
      let none_wait = writer_blocks c c.waiters v.blocked (ground arith) (ground arith) in
      rw free (record {
        inv = record { alone = ground arith; blocked = rw none_wait tt };
        order = rw none_wait refl;
        readers = omega arith;
        writers = omega arith;
      })
  | inr busy ↦ rw busy (queue-Admits c _ v (λ e. inl (busy_writer c (rw e at busy))))
]

exclusive-Admits :
    (c : ProjectCoordinator) (id : ℕ)
    → Inv c
    → Requests c (record { mode = exclusive; id = id }) (acquire_exclusive c id)
unfolding acquire_exclusive
exclusive-Admits c id v =
    elim (Bool-cases (not c.writer_active && c.reader_count == 0 && is_empty c.waiters)) [
      | inl free ↦
          let none_wait = empty_queue c.waiters (ground arith) in
          rw free (record {
            inv = record { alone = ground arith; blocked = rw none_wait tt };
            order = rw none_wait refl;
            readers = omega arith;
            writers = ground arith;
          })
      | inr busy ↦ rw busy (queue-Admits c _ v (λ e. let b = rw e at busy in ground arith))
    ]
  where
    empty_queue : (ws : List ProjectLockWaiter) → is_empty ws ≡ true → ws ≡ []
    empty_queue [] e = refl
    empty_queue (x ∷ ws) e = cc

pub request-Admits :
    (mode : ProjectLockMode) (c : ProjectCoordinator) (id : ℕ)
    → Inv c
    → Requests c (record { mode = mode; id = id }) (request mode c id)
unfolding request
request-Admits shared c id v = shared-Admits c id v
request-Admits exclusive c id v = exclusive-Admits c id v
