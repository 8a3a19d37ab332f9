-- ===== src/ProjectLock.antt =====
-- `ProjectCoordinator` of backend/src/realtime/field-lock-manager.ts: who may work in a project, many
-- at once on its fields or one alone on its members. A waiter is known by an id, which stands for
-- the promise that `acquireShared` or `acquireExclusive` returned; an operation gives the ids that it
-- resolves, in order. The fields are private to the class, and `release` is called once by each
-- operation that was let in.
pub mod System
pub mod Drain
pub mod Request
pub mod Exclusion
pub mod Fairness
pub mod Examples
use transcendence.Prelude.{
  ℕ, zero, suc, ◌+◌, ◌-◌, ◌*◌, ◌≤◌, ◌<◌, min, max, String, ◌≡◌, refl, sym, ap, subst, ◌∙◌, ◌≡⟨◌⟩◌,
  ◌∎, ◌≢◌, ◌↔◌, ◌⊎◌, inl, inr, Bool, true, false, not, ◌&&◌, ◌||◌, Option, none, some, List, [],
  ◌∷◌, ◌++◌, map, arith, ltb, leb, ◌==◌, if◌then◌else◌, ltb→lt, lt→ltb, leb→le, ==_iff, ==_refl,
  Bool-cases, Option-cases, length, filter, any, find, All, length-append, All-append, All-mono,
}

pub data ProjectLockMode : Type 0 where
  shared exclusive : ProjectLockMode

pub record ProjectLockWaiter : Type 0 where
  pub mode : ProjectLockMode
  pub id : ℕ

pub record ProjectCoordinator : Type 0 where
  pub reader_count : ℕ
  pub writer_active : Bool
  pub waiters : List ProjectLockWaiter

unfoldable pub create : ProjectCoordinator
create = record { reader_count = 0; writer_active = false; waiters = [] }

abbrev pub is_exclusive : ProjectLockWaiter → Bool
is_exclusive w = elim w.mode [ shared ↦ false | exclusive ↦ true ]

abbrev pub is_empty : List ProjectLockWaiter → Bool
is_empty [] = true
is_empty (w ∷ ws) = false

abbrev pub enqueue : ProjectCoordinator → ProjectLockMode → ℕ → ProjectCoordinator
enqueue c mode id = record c { waiters = c.waiters ++ record { mode = mode; id = id } ∷ [] }

-- Whether the promise is resolved at once.
unfoldable pub acquire_shared : ProjectCoordinator → ℕ → ProjectCoordinator × Bool
acquire_shared c id =
    if not c.writer_active && not (any is_exclusive c.waiters)
    then (record c { reader_count = c.reader_count + 1 }, true)
    else (enqueue c shared id, false)

unfoldable pub acquire_exclusive : ProjectCoordinator → ℕ → ProjectCoordinator × Bool
acquire_exclusive c id =
    if not c.writer_active && c.reader_count == 0 && is_empty c.waiters
    then (record c { writer_active = true }, true)
    else (enqueue c exclusive id, false)

unfoldable pub is_idle : ProjectCoordinator → Bool
is_idle c = not c.writer_active && c.reader_count == 0 && is_empty c.waiters

-- The `while` loop of `drain`: the shared waiters at the front are let in.
drain_shared : ℕ → Bool → List ProjectLockWaiter → ProjectCoordinator × List ProjectLockWaiter
drain_shared readers writer [] =
    (record { reader_count = readers; writer_active = writer; waiters = [] }, [])
drain_shared readers writer (w ∷ ws) =
    let (c, granted) = drain_shared (readers + 1) writer ws in
    if is_exclusive w
    then (record { reader_count = readers; writer_active = writer; waiters = w ∷ ws }, [])
    else (c, w ∷ granted)

drain_queue :
    ProjectCoordinator → List ProjectLockWaiter → ProjectCoordinator × List ProjectLockWaiter
drain_queue c [] = (c, [])
drain_queue c (first ∷ rest) =
    if is_exclusive first
    then (record c { writer_active = true; waiters = rest }, first ∷ [])
    else drain_shared c.reader_count c.writer_active (first ∷ rest)

-- With the waiters whose promises it resolves, in order.
unfoldable pub drain : ProjectCoordinator → ProjectCoordinator × List ProjectLockWaiter
unfolding drain_queue drain_shared
drain c = if c.writer_active || ltb 0 c.reader_count then (c, []) else drain_queue c c.waiters

unfoldable pub release_shared : ProjectCoordinator → ProjectCoordinator × List ProjectLockWaiter
unfolding drain
release_shared c = drain (record c { reader_count = c.reader_count - 1 })

unfoldable pub release_exclusive : ProjectCoordinator → ProjectCoordinator × List ProjectLockWaiter
unfolding drain
release_exclusive c = drain (record c { writer_active = false })
