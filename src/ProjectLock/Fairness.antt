-- ===== src/ProjectLock/Fairness.antt =====
-- Every operation that asks for access gets it.
use transcendence.Prelude.{
  ℕ, zero, suc, ◌+◌, ◌≡◌, refl, sym, ap, ◌∙◌, ◌⊎◌, inl, inr, true, false, some, List, [], ◌∷◌, ◌++◌,
  arith, length, find, length-append,
}
use mathlib.Core.List.{append-nil}
use transcendence.ProjectLock.{ProjectLockWaiter, ProjectCoordinator, is_idle}
use transcendence.ProjectLock.System.{
  System, Event, finishes, start, has_id, remove, give_back, leave, step, run,
}
use transcendence.ProjectLock.Drain.{IsBlocked, Inv}
use transcendence.ProjectLock.Exclusion.{IsSound, leave-IsSound, run-start-IsSound}

vacant_is_idle :
    (c : ProjectCoordinator)
    → Inv c
    → c.writer_active ≡ false
    → c.reader_count ≡ 0
    → (ws : List ProjectLockWaiter) → c.waiters ≡ ws
    → (ws ≡ []) × (is_idle c ≡ true)
unfolding is_idle
vacant_is_idle c v w r [] e = (refl, ground arith)
vacant_is_idle c v w r (x ∷ ws) e = absurd (blocked_first (rw e at (v.blocked)))
  where
    blocked_first : IsBlocked c (x ∷ ws) → ⊥
    blocked_first b = ground arith

empty_is_idle :
    (s : System)
    → IsSound s
    → s.inside ≡ []
    → (s.coordinator.waiters ≡ []) × (is_idle s.coordinator ≡ true)
empty_is_idle s v e =
    let r = rw e at (v.readers) in
    let w = rw e at (v.writers) in
    vacant_is_idle s.coordinator v.inv (ground arith) r s.coordinator.waiters refl

-- After any arrivals and departures, if no operation is inside then none waits and the coordinator
-- is idle.
pub nobody_waits_for_nobody :
    (es : List Event)
    → (run start es).inside ≡ []
    → ((run start es).coordinator.waiters ≡ []) × (is_idle (run start es).coordinator ≡ true)
nobody_waits_for_nobody es = empty_is_idle (run start es) (run-start-IsSound es)

-- The operation that has run longest finishes.
unfoldable pub finish_first : System → System
finish_first s = elim s.inside [ [] ↦ s | w ∷ ws ↦ step s (finishes w.id) ]

unfoldable pub finish_all : ℕ → System → System
unfolding finish_first
finish_all zero s = s
finish_all (suc n) s = finish_all n (finish_first s)

-- How many have not finished yet.
abbrev pub pending : System → ℕ
pending s = length s.inside + length s.coordinator.waiters

List-cases :
    (ws : List ProjectLockWaiter)
    → (ws ≡ []) ⊎ ((w : ProjectLockWaiter) × (rest : List ProjectLockWaiter) × (ws ≡ w ∷ rest))
List-cases [] = inl refl
List-cases (w ∷ ws) = inr (w, ws, refl)

length-remove :
    (id : ℕ) (ws : List ProjectLockWaiter) (w : ProjectLockWaiter)
    → find (has_id id) ws ≡ some w
    → length ws ≡ length (remove id ws) + 1
unfolding remove
length-remove id [] w e = cc
length-remove id (x ∷ ws) w e = ground (arith, length-remove id ws w)

leave-pending :
    (s : System) (w : ProjectLockWaiter)
    → IsSound s
    → IsSound (leave s w)
    → find (has_id w.id) s.inside ≡ some w
    → pending s ≡ pending (leave s w) + 1
unfolding leave
leave-pending s w v v' e = omega (
  arith,
  ap length (v.order ∙ sym v'.order),
  length-append s.entered s.coordinator.waiters,
  length-append (leave s w).entered (leave s w).coordinator.waiters,
  length-append s.entered (give_back w.mode s.coordinator).1,
  length-append (remove w.id s.inside) (give_back w.mode s.coordinator).1,
  length-remove w.id s.inside w e,
)

step-leave :
    (s : System) (w : ProjectLockWaiter)
    → find (has_id w.id) s.inside ≡ some w
    → step s (finishes w.id) ≡ leave s w
unfolding step
step-leave s w found = rw (found, step)

finish_first-leave :
    (s : System) (w : ProjectLockWaiter) (ws : List ProjectLockWaiter)
    → s.inside ≡ w ∷ ws
    → (find (has_id w.id) s.inside ≡ some w) × (finish_first s ≡ leave s w)
unfolding finish_first
finish_first-leave s w ws e =
    let found : find (has_id w.id) s.inside ≡ some w = rw e (ground arith) in
    (found, first s.inside e ∙ step-leave s w found)
  where
    first :
        (inside : List ProjectLockWaiter)
        → inside ≡ w ∷ ws
        → (elim inside [ [] ↦ s | x ∷ xs ↦ step s (finishes x.id) ]) ≡ step s (finishes w.id)
    first inside e' = rw e' refl

leave-arrived : (s : System) (w : ProjectLockWaiter) → (leave s w).arrived ≡ s.arrived
unfolding leave
leave-arrived s w = refl

empty_of_length : (ws : List ProjectLockWaiter) → length ws ≡ 0 → ws ≡ []
empty_of_length [] h = refl
empty_of_length (w ∷ ws) h = absurd (omega arith)

-- The next round: one operation fewer, the same arrivals, and the invariant.
abbrev Advances : System → ℕ → System → Type 0
Advances s n t = IsSound t × (pending t ≡ n) × (t.arrived ≡ s.arrived)

leave-Advances :
    (s : System) (n : ℕ) (w : ProjectLockWaiter)
    → IsSound s
    → pending s ≡ suc n
    → find (has_id w.id) s.inside ≡ some w
    → Advances s n (leave s w)
leave-Advances s n w v h e =
    let v' = leave-IsSound s w v e in
    let fewer = leave-pending s w v v' e in (v', omega arith, leave-arrived s w)

finish_first-Advances :
    (s : System) (n : ℕ) → IsSound s → pending s ≡ suc n → Advances s n (finish_first s)
finish_first-Advances s n v h = elim (List-cases s.inside) [
  | inl e ↦ absurd (nothing_left e)
  | inr (w, ws, e) ↦
      let (found, same) = finish_first-leave s w ws e in rw same (leave-Advances s n w v h found)
]
  where
    nothing_left : s.inside ≡ [] → ⊥
    nothing_left e =
        let none_wait = (empty_is_idle s v e).0 in omega (arith, ap length none_wait, ap length e)

finish_all_idle :
    (n : ℕ) (s : System)
    → IsSound s
    → pending s ≡ n
    → ((finish_all n s).entered ≡ s.arrived) × (is_idle (finish_all n s).coordinator ≡ true)
unfolding finish_all
finish_all_idle zero s v h =
    let e : s.inside ≡ [] = empty_of_length s.inside (omega arith) in
    let (none_wait, idle) = empty_is_idle s v e in
    (sym (append-nil s.entered) ∙ ap (λ l. s.entered ++ l) (sym none_wait) ∙ v.order, idle)
finish_all_idle (suc n) s v h =
    let (v', h', same) = finish_first-Advances s n v h in
    let (all, idle) = finish_all_idle n (finish_first s) v' h' in (all ∙ same, idle)

-- After any arrivals and departures, if nothing new arrives and the operations inside finish one
-- by one, then after as many rounds as operations are inside or waiting all that ever arrived have
-- entered, in order of arrival, and the coordinator is idle.
pub everybody_enters :
    (es : List Event)
    → let s = run start es in
      let t = finish_all (pending s) s in (t.entered ≡ s.arrived) × (is_idle t.coordinator ≡ true)
everybody_enters es = finish_all_idle _ (run start es) (run-start-IsSound es) refl
