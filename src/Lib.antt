-- ===== src/Lib.antt =====
-- Minicomps, a C++17 framework for calls between components: a model of its core and theorems about it.
--
-- A component publishes handlers for messages in a broker. Other components hold references that look
-- the handler of a message up through the broker and cache it; queries and events call through these
-- references, directly if both components work on one executor, else by a lock or through the queue of
-- the other's executor. Results go back through a callback that a lifetime guards.
--
-- Parts, with the files of include/minicomps and src that they model:
--   Broker        broker.h, broker.cpp: the table of receivers; Broker/Table is what it says,
--                 Broker/Handles when the weak pointers that it gave out expire, Broker/Contract
--                 what a caller may rely on
--   Lifetime      lifetime.h; Lifetime/Expiry which weak pointers become void
--   FixedAny      fixed_any.h; FixedAny/Alignment, FixedAny/Lifecycle and FixedAny/Moves:
--                 addresses, objects, and moves of objects
--   Executor      executor.h: the two buffers; Executor/Threads the threads that share them, step by
--                 step, with their order (Order), who is between lock and unlock (Inside, Exclusion), and how
--                 they come to rest (Round, Progress and Release); Query/Loop runs a round over the tasks of the program:
--                 Query/Loop/Exchange is a request and its answer on two executors, RoundTrip and
--                 Published follow a call, Replaced a request whose handler changes meanwhile
--   Component     component.h, and the state of component_base.h
--   Callback      the closures that travel through queues: callback.h, async_query.h, executor.h
--   Ref           mono_ref.h (Ref/Mono) and poly_ref.h (Ref/Poly): cached references
--   World         the state that the queries share, and the code of the program that they call
--   Query         callback.h (Query/Result), async_query.h (Query/Async), sync_query.h (Query/Sync),
--                 event.h (Query/Event), if_async_query.h, if_sync_query.h, if_volatile_sync_query.h,
--                 interface_ref.h and interface.h (Query/Interface, with a child for each class of
--                 queries; Copies and Reference are how a client gets its copies, Call what it does
--                 with them, with the children RoundTrip, Filtered and Bracket; Reference/Lookup is what the
--                 look-up of an interface gives, Reference/Called a call from the look-up on). Published in
--                 Query/Sync and Query/Event follows a call from the publishing on
--   Base          component_base.h: publishing, filters, references, life cycle, with what a sender
--                 finds (Base/Publish/Reached, Filter), who owns the handler objects over any history
--                 of calls (Base/Publish/Ownership, Safe, Known and History) and what withdrawal
--                 leaves (Base/Lifecycle/Withdrawn, Base/Lifecycle/RoundTrip)
--   Registry      testing.h: the registry of components for tests
--   Messaging     messaging.h: what the declaration of a message says of its handlers;
--                 Messaging/Casts the pointers to handlers that component_base.h and the queries cast
--   Tools         tools/testing.h and tools/testing.cpp: the counters of allocations
--                 (Tools/Allocations, with Reported and Counts) and the registered tests (Tools/Suites); Tools/Int is the
--                 type int; Tools/Measure is
--                 measure and measure_with_allocs of testing.h, on top of the counters
--   Sample        test/sample_application: the sessions of session_system; Sample/Sessions/Create,
--                 Destroy and Numbered what its two changing calls do, Authenticate and Moved the
--                 answer to an authentication; Sample/Composition the check of dependencies of
--                 composition_root, Sample/Composition/Root its constructor and destructor
--   Tests         runs on concrete inputs and the theorems at such inputs
--
-- Correspondence. Functions and fields keep their names; a `this` that is changed is returned. Objects
-- are named by numbers where the source has addresses: components, executors, messages, lifetime
-- objects, handler objects, interface queries. Arguments, results and events are numbers too: the
-- library passes them on without looking at them. A null pointer, an empty `std::function` and a weak
-- pointer that owns nothing are `none`. A run (Prelude/Run) ends normally, in `std::abort`, or in
-- undefined behaviour, which covers null and dangling pointers; the source is built without exceptions,
-- so the call of an empty `std::function` aborts.
--
-- Parameters. The code of the program, handlers, filters and callbacks, is the record `UserCode` of
-- functions on the state, and so is the result type of minicoros; nothing is assumed of it but what a
-- theorem names. Which components can be locked through a weak pointer is part of the state. Addresses
-- that the allocator returns are arguments of FixedAny.
--
-- Not modelled: the end of interface objects other than the proxies of references, reference counts of components (a reference that keeps its receiver alive), data races
-- inside one function, the macros of tools/testing.h that print and abort, the diagrams of the
-- sample, its user system and fakes, which answer constants, the code of listeners (their calls are entries of a log), and
-- the hash map's order of iteration, on which no function here depends.
--
-- Every recursion is structural, so there is no fuel, but for the loop of the sample's `destroy_session`:
-- it runs on a number of turns, and whether one turn is enough or none is the theorem about it.
pub mod Prelude
pub mod Broker
pub mod FixedAny
pub mod Lifetime
pub mod Component
pub mod Executor
pub mod Callback
pub mod Ref
pub mod World
pub mod Messaging
pub mod Registry
pub mod Tools
pub mod Sample
pub mod Query
pub mod Base
mod Tests
