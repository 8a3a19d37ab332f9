-- ===== src/ProjectLock/System.antt =====
-- The operations that use one coordinator: `runProject` and `runProjectResource` ask for access, run
-- their operation once they have it, and release it in `finally`, in whatever order these come.
use transcendence.Prelude.{ℕ, Bool, none, some, List, [], ◌∷◌, ◌++◌, ◌==◌, if◌then◌else◌, find}
use transcendence.ProjectLock.{
  ProjectLockMode, shared, exclusive, ProjectLockWaiter, ProjectCoordinator, create, acquire_shared,
  acquire_exclusive, release_shared, release_exclusive,
}

-- `inside` are the operations that run now; `arrived` and `entered` are all those that asked for
-- access and that got it, in order.
pub record System : Type 0 where
  pub coordinator : ProjectCoordinator
  pub inside : List ProjectLockWaiter
  pub arrived : List ProjectLockWaiter
  pub entered : List ProjectLockWaiter

pub data Event : Type 0 where
  arrives : ProjectLockWaiter → Event
  finishes : (id : ℕ) → Event

unfoldable pub start : System
unfolding create
start = record { coordinator = create; inside = []; arrived = []; entered = [] }

unfoldable pub request : ProjectLockMode → ProjectCoordinator → ℕ → ProjectCoordinator × Bool
unfolding acquire_shared acquire_exclusive
request shared c id = acquire_shared c id
request exclusive c id = acquire_exclusive c id

unfoldable pub give_back :
    ProjectLockMode → ProjectCoordinator → ProjectCoordinator × List ProjectLockWaiter
unfolding release_shared release_exclusive
give_back shared c = release_shared c
give_back exclusive c = release_exclusive c

abbrev pub has_id : ℕ → ProjectLockWaiter → Bool
has_id id w = w.id == id

-- The operation that finishes is no longer inside.
unfoldable pub remove : ℕ → List ProjectLockWaiter → List ProjectLockWaiter
remove id [] = []
remove id (w ∷ ws) = if has_id id w then ws else w ∷ remove id ws

unfoldable pub enter : System → ProjectLockWaiter → System
unfolding request
enter s w =
    let (c, at_once) = request w.mode s.coordinator w.id in
    let added = if at_once then w ∷ [] else [] in
    record {
      coordinator = c;
      inside = s.inside ++ added;
      arrived = s.arrived ++ w ∷ [];
      entered = s.entered ++ added;
    }

unfoldable pub leave : System → ProjectLockWaiter → System
unfolding give_back remove
leave s w =
    let (c, granted) = give_back w.mode s.coordinator in
    record {
      coordinator = c;
      inside = remove w.id s.inside ++ granted;
      arrived = s.arrived;
      entered = s.entered ++ granted;
    }

unfoldable pub step : System → Event → System
unfolding enter leave
step s (arrives w) = enter s w
step s (finishes id) = elim (find (has_id id) s.inside) [ none ↦ s | some w ↦ leave s w ]

unfoldable pub run : System → List Event → System
unfolding step
run s [] = s
run s (e ∷ es) = run (step s e) es
