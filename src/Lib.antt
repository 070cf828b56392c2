-- ===== src/Lib.antt =====
-- Verification library of architecturekit, a Go library for applications on an event-sourced
-- database.
--
-- The program: commands are decided on a state that is folded from the events of a subject
-- (architecturekit/state.go, store.go), with preconditions for the write (precondition.go, write.go)
-- and upcasters for events of older types (upcast.go). Projections follow the events
-- (projection.go, projection_run.go) and keep views (in_memory_view.go), which queries read
-- (query/query.go). Revisions (revision.go) tell how far a view has come. Subject schemes (subject.go)
-- compose subjects and take them apart, and the HTTP API (httpapi) wires commands and queries to routes.
--
-- The files:
--   Base             numbers, lists, texts (lists of bytes) and maps (association lists)
--   Failure          errors as the tree of what they wrap: error.go, database_failure.go
--   Stored           the fields of an event of the client that the kit reads, and streams of them
--   Revision         revision.go: ParseRevision, CompareRevisions, RevisionOf, Tracking,
--                    WaitForWritten
--   ReadOptions      read_options.go: readSettingsOf, checkBounds
--   Precondition     precondition.go and write.go: checkPreconditions, resolvePreconditions,
--                    writePreconditions, violatedPrecondition
--   Upcast           upcast.go: applyWithBudget
--   View             in_memory_view.go: a record of the map, the order, the indexes and the revision;
--                    each method is a function from the view to the view and the result
--   Query            query/query.go: a sequence is the list of what it hands out
--   StateCache       state_cache.go: get and put
--   State            state.go: rules, replaying and stepping over stored events
--   Store            store.go: fold and verify (Store), executeOnce (Execution), the loop of Execute
--                    (Retries), Read and Load (Reading), RegisterSchemas (Schemas); the world of a
--                    command is a parameter
--   Subject          subject.go: a scheme as a record, NewSubjectScheme, Root, Build, Check, Match,
--                    and Value
--   Projection       projection.go: drive over a projection writer (Drive), the writers
--                    (Transactions, Writers), and catchUp, follow, and run (Running);
--                    projection_run.go: the status of a run and the verdict of WaitCaughtUp;
--                    httpapi/health.go: isReady and isAlive
--   TypedProjection  typed_projection.go: On, Decode, UpcastWith, and Apply
--   HttpApi          httpapi/httpapi.go, query.go, and revision.go: StatusFor, explain, and
--                    categorise (Statuses), BodyOf (Bodies), UserOf, Handle, and Route (Commands),
--                    holdsTag and etagOf (Tags), Ask, Await, and Query (Queries)
--   Tests            runs at concrete inputs
--
-- State is passed on explicitly. Where the code holds a lock, the operation is one step. An error is
-- a value of Failure, without its text, and Result is what a function with an error hands out; a
-- panic of a programming error is a missing result. Integers are natural numbers; the 64-bit
-- arithmetic of ParseRevision and checkBounds has its wrap-around written out. Loops are recursion on
-- lists; upcasting recurses on the budget of maxUpcastSteps, as the code does, and Execute on
-- its retries, so that neither needs other fuel. A projection runs over a list of sessions, each with
-- what the database answers and the clock says, and is still running when the list ends. holdsTag
-- recurses on fuel, one more than the length of the list of tags, of which each round reads a byte.
--
-- Parameters stand for the code of others: the constructors of the client for preconditions, its
-- reads and its checks of hashes and signatures, JSON decoding, what reflection finds of a type, and
-- the projection of an application. What is assumed of them are named records of hypotheses:
-- IsAtomic of Projection/Transactions for the documentation of Tx, IsReliable of Projection/Reliable
-- for an application that does not fail, WaitsFor of Revision/Written for a view, and ReadsAll of
-- Store/Log, IsHistory of Store/Replayed, and IsSchemaStore of Store/Registered for the database.
--
-- Not modelled: texts of errors, how schemas are derived and everything else that rests on reflection
-- (schema.go, value_type.go, isSame of state_cache.go), decoding and spelling out of httpapi
-- (decoding.go, spell_out.go), the wiring of functions that are nil, and the test kit.
pub mod Base
pub mod Failure
pub mod Stored
pub mod Subject
pub mod Revision
pub mod ReadOptions
pub mod Precondition
pub mod Upcast
pub mod View
pub mod Query
pub mod Projection
pub mod TypedProjection
pub mod StateCache
pub mod State
pub mod Store
pub mod HttpApi
pub mod Tests
