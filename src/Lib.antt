-- ===== src/Lib.antt =====
-- A verification library for the TypeScript of the project manager: the backend's core services and
-- what the clients rely on.
--
-- The program. Members of a project edit its fields together. A client locks a field before it edits
-- it (backend/src/realtime/field-lock-manager.ts, driven by the gateway and by the services that
-- write); changes of membership take exclusive access to the project (backend/src/project-members). Members
-- share a board of tasks, and discovery blocks with checklists (backend/src/tasks,
-- backend/src/discovery-blocks, backend/src/discovery-block-items). Users ask each other for
-- friendship and block each other (backend/src/user-relationships). The services keep their rows in
-- PostgreSQL through Prisma, and tell the clients by notifications and socket events.
--
-- The files.
--   Prelude       names of the libraries, Boolean tests on numbers, list methods, `Result`.
--   JsMap         the built-in `Map`: `get`, `set`, `delete`, and their laws.
--   FieldLock     `FieldLockManager`: its interfaces and synchronous methods, one function for each
--                 method (`get` is `get_lock`). Token: `tokensMatch` over Node's Buffer and
--                 timingSafeEqual, which are a parameter. Acquire, Calls: what each method does to the
--                 leases in force. Calls/Histories: a call as a value, histories of timed calls, with
--                 Stable and Bounded on them; Calls/Evict: `releaseUserInProject`. Async: the
--                 asynchronous methods, `releaseSocket`, `releaseExpiredLeases`,
--                 `withValidatedLease`; what other code does at each await is a parameter, a function
--                 on the manager. Async/Sweep, Async/Validated: their theorems.
--   ProjectLock   `ProjectCoordinator`, the fair readers-writer lock of a project. System: the
--                 operations that `runProject` and `runProjectResource` run under one coordinator, as
--                 a machine whose events are arrivals and departures. Drain, Request, Exclusion,
--                 Fairness: its theorems.
--   Prisma        the calls on one table, as a record of operations and laws that the services take
--                 as a parameter; Memory: a table that meets the laws.
--   Relationships `UserRelationshipsService`, over a table of rows. Rows: rows as stances.
--                 Spec: the specification on the two users' stances; View, Answer: the calls meet it.
--                 Consent: sequences of calls. Mask: what a user sees.
--   Tasks         the board part of `TasksService`: columns, ranks, and the transactions of create,
--                 update (with `moveTask`) and remove, over a table of tasks. Places: a column as the
--                 number of cards at each rank. Counts, Board: the steps of a transaction. Moves: the
--                 rows after it. Service, Order: the theorems. Assignees: `TaskAssigneeService`,
--                 over the tables of assignees and of members. Notices: who is notified.
--   ProjectMembers  `ProjectMembersService`, over the tables of members and of assignees, the field locks
--                 and the rooms; `findAll` is `find_members`. Roles: the rows as a table of roles. Calls,
--                 Removing, Change: when each call succeeds. Steps: the specification on roles. Team:
--                 sequences of calls. Traces, Removal, Tidy: what a user has in a project, and what a removal clears.
--   DiscoveryBlocks  `DiscoveryBlocksService` and `DiscoveryBlockItemsService` (Items), over the tables of
--                 blocks and items: `findById` and `findAll` are `find_block`, `find_blocks`, `find_item`,
--                 `find_items`. Rows: the status that items give. Machine: calls that run at once, each
--                 waiting after its guard and after its write. Sound, Writes, Interleaved, Proceeding,
--                 Derivations, Statuses: what holds at any time. Alone: a call that nobody interrupts.
--   Progress      the score of a project's checklist: the server's (projects.service.ts) and the client's
--                 (frontend/src/lib/evaluationChecklistProgress.ts). Agreement relates them.
--                 The rounded floating-point quotient of a section is a parameter.
--   TasksReducer  `tasksReducer`, the board's state at a client (frontend/src/lib/tasksReducer.ts).
--                 Columns, Below: the index of a task in its sorted column. Moved, Agrees, Reindex:
--                 the reducer's passes are the server's shifts. Views: the tasks of one project among
--                 the rows. Steps, Sync: a client that applies the server's events.
--   Each Examples file applies the theorems to a small run.
--
-- Conventions. Ids, keys and project names are opaque and only compared: they are numbers. Times are
-- milliseconds, unbounded. A synchronous method reads the clock at one instant. An error that a method
-- throws is a value of a result type. Serializable transactions take effect one after another, so a
-- transaction is a function on the table. One that the database rejects (P2034) changes nothing and
-- ends its call. Where the transaction is the call's only write, the call is then as good as not made,
-- and this is left out; in DiscoveryBlocks, where a status is derived after a committed write, it is
-- an argument and a step of the machine.
-- No model runs on fuel except ProjectLock.Fairness.finish_all, which counts rounds; the count that
-- the theorem gives is the number of operations inside or waiting, and is enough.
--
-- Not modelled: the promise chain of `KeyedCoordinator` and the map of coordinators (a section of a
-- resource is taken to run alone among the sections of that resource); the timer itself; the text of
-- notifications, time stamps, and the ids of rows that nothing compares; of the tasks service the rows
-- of audits, and which checks a call runs before its transaction; of the members service the events for
-- clients; of the discovery blocks the field lock around an update or a removal, the events, and the
-- foreign key of the items; and a failure of the database between two writes of a call that has no
-- transaction (a removal of a member). Nor are the other services, the rest of the frontend and the Go service,
-- and the controllers, DTO decorators and modules, which are glue.
mod Prelude
pub mod JsMap
pub mod FieldLock
pub mod ProjectLock
pub mod Prisma
pub mod Relationships
pub mod Tasks
pub mod TasksReducer
pub mod ProjectMembers
pub mod DiscoveryBlocks
pub mod Progress
