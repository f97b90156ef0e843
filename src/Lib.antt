-- ===== src/Lib.antt =====
-- nova_voice: the household voice service (README.md), its durable companion work in particular.
--
-- The program hands reasoning jobs to a companion device and keeps a durable row for each. A job is
-- a record with a history of attempts and a lease; src/nova_voice/companion/jobs.py says which moves
-- are legal, src/nova_voice/companion/ledger.py applies them to the store of
-- src/nova_voice/durable/store.py under optimistic revisions, and its records and their validators
-- are those of src/nova_voice/durable/models.py. Beside that, it decides what a request may do
-- (policy, authority), runs plans step by step under leases, keeps purchases, automations and
-- reminders in the same or a like store, and speaks a protocol with its satellites.
--
-- Which file models what:
--   Base       names of the libraries passed on, Boolean tests, helpers on lists and options
--   Job        jobs.py and its records. Record holds the records, Attempts the legal moves and the
--              history, Validators the models' validators, which run when a stored row is read back, Moves and
--              Endings the operations, one function for each. Events is the alphabet of all the
--              operations, and the other children prove theorems about its runs.
--   Durable    store.py: get, create, save and the removal of expired rows, of one record type, with the
--              audit trail
--   Ledger     ledger.py: Apply has apply, fall_back and complete_locally, Recovery has sweep and
--              reconcile. Race is about other writers, Alone, Sweeping and Fallback about none.
--   Tiers      companion/tiers.py: Defs has the tracker, Streaks what its readings say of its tier
--   Presence   companion/presence.py: who is home, and the reading of a location answer
--   Domain     domain.py: the types of a turn that the other parts read
--   Sessions   sessions.py: Defs has the manager of the goals of rooms, Expiry one call of it, Ceiling
--              many calls
--   Approvals  companion/approvals.py: Gate has the operations over the store, Decisions is about
--              answers, Runs about running an approved mutation
--   Callbacks  companion/callbacks.py: Defs has the operations over the store, Laws is about running a tool
--   Rollout    rollout.py: Defs has the operations, Ladder is about how a stage is reached, Control
--              about revocation and validity
--   Arbitration  audio/arbitration.py: Defs has the arbiter, its claims shared objects in a heap,
--              Exclusion is about all runs of it
--   Plans      durable/runner.py and the plan transactions of durable/store.py: Records holds the
--              records, Lease what one lease operation makes of a step and its execution, Attempts
--              the calls of many workers on one step, Transactions the same operations over the four
--              tables, Commits one that goes through, Runner the decisions of the runner on the steps
--              it has read, Waves and Preparation what they promise
--   Authority  authority.py: Defs has roles, grants and authorize, Laws what is allowed
--   Policy     policy.py: evaluate, and its composition with authorize; Laws has what is executed
--   Wire       satellites/protocol.py: Bytes and Struct what `struct` does, Frames the packing of audio
--              frames, Trips its round trip, Greeting the validation of a greeting, Admission what
--              passes it
--   Transactions  transactions.py: Records holds the tables, Manager the operations up to the
--              transport, Endings those through it, Tables reads the tables after an update, Warrants,
--              Pending and Once are about who reaches the transport, Money about
--              budgets, Overlaps about a cancellation beside a commit
--   Automation  automation.py: Defs has the operations, Lifecycle is about what an active automation has
--              behind it
--   Commitments  commitments.py: Calendar has the recurrence by months, Recurrence when a reminder
--              recurs, Defs the operations and what reading a row checks, Overlaps is about
--              writes that meet, and about rows that cannot be read back
--
-- Instants and durations are natural numbers in one unit, microseconds. Where the code reads the
-- clock, the model takes the reading as an argument, one for each reading and in the code's order.
-- A fraction of progress and a probability are numbers of millionths, an amount of money a number of
-- its smallest unit. An operation that may raise returns an outcome: the record it was given (the
-- code compares identities), a new record, or the refused move.
--
-- `apply` tries `max_conflict_retries` times, and the model recurs on the tries left, so the bound
-- is the code's own. What other writers do between two calls of the store is a function of the
-- number of the call; the rows that the store lists, and the sorting of texts, are arguments. Time
-- zones, the normalizing and hashing of texts and the printing of instants are arguments too. The
-- rounds of a plan's preparation are given fuel, of which two for each step and one more are enough;
-- the search of a reminder's next occurrence too, of which the instants that have passed and two
-- more are enough. A reminder's rule is given read, and its instants are counted from the first day
-- of year 0 in the zone of the record.
--
-- Not modelled: SQLite, JSON and pydantic themselves, the limits that fields set on lengths and
-- ranges but for a reminder's, the uniqueness of the idempotency keys of stored rows, sockets and
-- audio, the language models, and the parts of the service that only pass calls on. Of a plan, the
-- writing of its bundle, the executor of a step and the gathering of a wave's outcomes are not
-- modelled, and of a poll of the reminders not the interventions that it proposes.
pub mod Base
pub mod Domain
pub mod Job
pub mod Durable
pub mod Ledger
pub mod Tiers
pub mod Presence
pub mod Sessions
pub mod Approvals
pub mod Rollout
pub mod Arbitration
pub mod Callbacks
pub mod Plans
pub mod Authority
pub mod Policy
pub mod Wire
pub mod Transactions
pub mod Automation
pub mod Commitments
