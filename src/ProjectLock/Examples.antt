-- ===== src/ProjectLock/Examples.antt =====
-- Two edits run, a member is removed meanwhile, and a third edit comes after that.
use transcendence.Prelude.{ℕ, ◌≡◌, refl, true, List, [], ◌∷◌, ◌++◌, arith, length}
use transcendence.ProjectLock.{shared, exclusive, ProjectLockWaiter, is_idle}
use transcendence.ProjectLock.System.{Event, arrives, finishes, start, run}
use transcendence.ProjectLock.Exclusion.{exclusive_is_alone, entered_in_order}
use transcendence.ProjectLock.Fairness.{finish_all, pending, everybody_enters}

abbrev edit : ℕ → ProjectLockWaiter
edit id = record { mode = shared; id = id }

abbrev removal : ProjectLockWaiter
removal = record { mode = exclusive; id = 9 }

abbrev arrivals : List Event
arrivals = arrives (edit 1) ∷ arrives (edit 2) ∷ arrives removal ∷ arrives (edit 3) ∷ []

abbrev edits_done : List Event
edits_done = arrives (edit 1) ∷ arrives removal ∷ arrives (edit 3) ∷ finishes 1 ∷ []

waits : (run start arrivals).coordinator.waiters ≡ removal ∷ edit 3 ∷ []
unfolding run start
waits = refl

removal_runs : (run start edits_done).inside ≡ removal ∷ []
unfolding run start
removal_runs = refl

exclusive_is_alone_example : length (run start edits_done).inside ≡ 1
exclusive_is_alone_example = exclusive_is_alone edits_done (rw removal_runs (omega arith))

entered_in_order_example :
    (run start arrivals).entered ++ (run start arrivals).coordinator.waiters
    ≡ (run start arrivals).arrived
entered_in_order_example = entered_in_order arrivals

everybody_enters_example :
    ((finish_all (pending (run start arrivals)) (run start arrivals)).entered
      ≡ (run start arrivals).arrived)
    × (is_idle (finish_all (pending (run start arrivals)) (run start arrivals)).coordinator ≡ true)
everybody_enters_example = everybody_enters arrivals
