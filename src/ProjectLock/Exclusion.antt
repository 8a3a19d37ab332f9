-- ===== src/ProjectLock/Exclusion.antt =====
-- The invariant of the system, kept by every event.
use transcendence.Prelude.{
  ℕ, ◌+◌, ◌-◌, ◌<◌, ◌≡◌, refl, sym, ap, subst, ◌∙◌, inl, inr, Bool, false, some, List, [], ◌∷◌,
  ◌++◌, arith, if◌then◌else◌, Option-cases, length, find,
}
use mathlib.Core.List.{append_assoc}
use transcendence.ProjectLock.{
  ProjectLockMode, shared, exclusive, ProjectLockWaiter, ProjectCoordinator, is_exclusive,
}
use transcendence.ProjectLock.System.{
  System, Event, arrives, finishes, start, give_back, has_id, remove, enter, leave, step, run,
}
use transcendence.ProjectLock.Request.{joined, request-Admits}
use transcendence.ProjectLock.Drain.{
  is_shared, count, Inv, Admits, release_shared-Admits, release_exclusive-Admits,
}

-- The coordinator's counters are those of the operations inside, and no operation has overtaken
-- another: those that entered and then those that wait are those that arrived, in order.
pub record IsSound (s : System) : Type 0 where
  pub inv : Inv s.coordinator
  pub readers : s.coordinator.reader_count ≡ count is_shared s.inside
  pub writers : (if s.coordinator.writer_active then 1 else 0) ≡ count is_exclusive s.inside
  pub order : s.entered ++ s.coordinator.waiters ≡ s.arrived

count-append :
    (p : ProjectLockWaiter → Bool) (xs ys : List ProjectLockWaiter)
    → count p (xs ++ ys) ≡ count p xs + count p ys
count-append p [] ys = omega arith
count-append p (x ∷ xs) ys = ground (arith, count-append p xs ys)

count-remove :
    (p : ProjectLockWaiter → Bool) (id : ℕ) (xs : List ProjectLockWaiter) (w : ProjectLockWaiter)
    → find (has_id id) xs ≡ some w
    → count p xs ≡ count p (remove id xs) + (if p w then 1 else 0)
unfolding remove
count-remove p id [] w e = cc
count-remove p id (x ∷ xs) w e = ground (arith, count-remove p id xs w)

start-IsSound : IsSound start
unfolding start
start-IsSound = ground arith

-- `enter` and `leave` alike: some waiters are let in, in the order of the queue.
admit-IsSound :
    (s : System) (c d : ProjectCoordinator) (rest arrived granted : List ProjectLockWaiter)
    → Admits c d granted
    → c.reader_count ≡ count is_shared rest
    → (if c.writer_active then 1 else 0) ≡ count is_exclusive rest
    → s.entered ++ c.waiters ≡ arrived
    → IsSound (record {
      coordinator = d;
      inside = rest ++ granted;
      arrived = arrived;
      entered = s.entered ++ granted;
    })
admit-IsSound s c d rest arrived granted a r w o = record {
  inv = a.inv;
  readers = omega (arith, a.readers, count-append is_shared rest granted);
  writers = omega (arith, a.writers, count-append is_exclusive rest granted);
  order = append_assoc s.entered granted d.waiters ∙ ap (λ l. s.entered ++ l) a.order ∙ o;
}

enter-IsSound : (s : System) (w : ProjectLockWaiter) → IsSound s → IsSound (enter s w)
unfolding enter
enter-IsSound s w v =
    admit-IsSound s (joined s.coordinator w) _ s.inside _ _
      (request-Admits w.mode s.coordinator w.id v.inv) v.readers v.writers
      (sym (append_assoc s.entered s.coordinator.waiters (w ∷ [])) ∙ ap (λ l. l ++ w ∷ []) v.order)

-- The coordinator before it drains its queue for one that leaves.
abbrev vacated : ProjectLockMode → ProjectCoordinator → ProjectCoordinator
vacated shared c = record c { reader_count = c.reader_count - 1 }
vacated exclusive c = record c { writer_active = false }

abbrev Leaves : ProjectLockMode → ProjectCoordinator → List ProjectLockWaiter → Type 0
Leaves mode c rest =
    Admits (vacated mode c) (give_back mode c).0 (give_back mode c).1
    × ((vacated mode c).reader_count ≡ count is_shared rest)
    × ((if (vacated mode c).writer_active then 1 else 0) ≡ count is_exclusive rest)
    × ((vacated mode c).waiters ≡ c.waiters)

give_back-Leaves :
    (mode : ProjectLockMode) (c : ProjectCoordinator) (id : ℕ) (inside : List ProjectLockWaiter)
    → Inv c
    → c.reader_count ≡ count is_shared inside
    → (if c.writer_active then 1 else 0) ≡ count is_exclusive inside
    → find (has_id id) inside ≡ some (record { mode = mode; id = id })
    → Leaves mode c (remove id inside)
unfolding give_back
give_back-Leaves shared c id inside v r w e =
    let readers = count-remove is_shared id inside _ e in
    let writers = count-remove is_exclusive id inside _ e in
    (release_shared-Admits c v (omega arith), omega arith, omega arith, refl)
give_back-Leaves exclusive c id inside v r w e =
    let readers = count-remove is_shared id inside _ e in
    let writers = count-remove is_exclusive id inside _ e in
    (release_exclusive-Admits c v (ground arith), omega arith, ground arith, refl)

pub leave-IsSound :
    (s : System) (w : ProjectLockWaiter)
    → IsSound s
    → find (has_id w.id) s.inside ≡ some w
    → IsSound (leave s w)
unfolding leave
leave-IsSound s w v e =
    let (a, r, x, same) =
      give_back-Leaves w.mode s.coordinator w.id s.inside v.inv v.readers v.writers e in
    admit-IsSound s (vacated w.mode s.coordinator) _ (remove w.id s.inside) _ _ a r x
      (rw same v.order)

find-has_id :
    (id : ℕ) (ws : List ProjectLockWaiter) (w : ProjectLockWaiter)
    → find (has_id id) ws ≡ some w
    → id ≡ w.id
find-has_id id [] w e = cc
find-has_id id (x ∷ ws) w e = ground (arith, find-has_id id ws w)

pub step-IsSound : (s : System) (e : Event) → IsSound s → IsSound (step s e)
unfolding step
step-IsSound s (arrives w) v = enter-IsSound s w v
step-IsSound s (finishes id) v = elim (Option-cases (find (has_id id) s.inside)) [
  | inl e ↦ rw (e, step) v
  | inr (w, e) ↦
      rw (e, step)
        (leave-IsSound s w v
          (subst (λ k. find (has_id k) s.inside ≡ some w) (find-has_id id s.inside w e) e))
]

run-IsSound : (s : System) (es : List Event) → IsSound s → IsSound (run s es)
unfolding run
run-IsSound s [] v = v
run-IsSound s (e ∷ es) v = run-IsSound (step s e) es (step-IsSound s e v)

pub run-start-IsSound : (es : List Event) → IsSound (run start es)
run-start-IsSound es = run-IsSound start es start-IsSound

length-count :
    (ws : List ProjectLockWaiter) → length ws ≡ count is_shared ws + count is_exclusive ws
length-count [] = omega arith
length-count (w ∷ ws) = ground (arith, length-count ws)

-- After any arrivals and departures, if an exclusive operation is inside a project then exactly
-- one operation is inside.
pub exclusive_is_alone :
    (es : List Event)
    → 0 < count is_exclusive (run start es).inside
    → length (run start es).inside ≡ 1
exclusive_is_alone es h =
    let v = run-start-IsSound es in
    ground (arith, v.readers, v.writers, v.inv.alone, length-count (run start es).inside)

-- After any arrivals and departures, those that entered followed by those that wait are those that
-- arrived, in order: nobody overtakes and nobody is lost.
pub entered_in_order :
    (es : List Event)
    → (run start es).entered ++ (run start es).coordinator.waiters ≡ (run start es).arrived
entered_in_order es = (run-start-IsSound es).order
