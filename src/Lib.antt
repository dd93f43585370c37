-- ===== src/Lib.antt =====
-- The governed harness of src/gsrr_slice01: one run that takes a document from DRAFT to REVIEW under
-- explicit authority, retains everything it did, and publishes an outcome once.
--
-- The program's parts and where they are modelled:
--   * src/gsrr_slice01/contracts.py, the immutable records that the parts exchange: Contracts (each
--     dataclass is a record with the fields of the source in their order, each StrEnum a data type).
--     A field whose run-time type the source tests (a policy's bounds, a grant's versions) is a Scalar,
--     as the source's annotation does not bind it; `Record` is the union of what the journal retains,
--     and `same_record` is Python's `==` on it.
--   * src/gsrr_slice01/journal.py, the history of one run: Journal (Defs, Event and Publish for the
--     methods, and beside them what is proved of them).
--   * src/gsrr_slice01/retry.py, the supervisor of attempts: Retry (Defs, Lifecycle, Eligibility and
--     Successor for the methods).
--   * src/gsrr_slice01/fixture.py, the provider that holds the effect view and the capability that makes
--     requests of it: Fixture (Defs, Provider, Observe and Capability for the methods).
--   * src/gsrr_slice01/governance.py, grants, envelopes, plans and their validation: Governance (Checks,
--     Grants, Building and Validation for the functions).
--   * src/gsrr_slice01/reconciliation.py, the comparison of the evidence with the approval: Reconciliation
--     (Evidence and Reconcile for `reconcile`; `project`, which acts on the runtime, is Runtime/Project).
--   * src/gsrr_slice01/runtime.py, the orchestration of one scope: Runtime (Defs and Start for the state
--     and its construction, Inject for the test seams, Fresh for the fresh reads, Prepare, Admit,
--     Dispatch and Realize for the methods of those names; `lookup` and `finish_index` are in Dispatch/Index,
--     `run` is in Realize).
-- The supervisor and the provider call the journal, the functions of governance.py and `reconcile` read
-- and extend it, and the runtime drives them all: its state holds theirs beside the one journal.
-- Samples holds the artifacts that the tests share.
--
-- How code is modelled. A method is a value of `Exec S A` (Exec): a function of the state that gives a
-- result or an exception, and the state that it leaves, so a method that raises keeps what it had
-- assigned before. A method of a class with a reference to the journal acts on `Shared S`: the journal
-- beside the object's own state (Shared). The assignments, calls and tests stand in the order of the
-- source. Exec/Keeps, Exec/Triple and Exec/Invert are the rules that the proofs use.
-- Runtime/Stable is the interface between the runtime's methods and an order on its states: the methods
-- are shown once to be made of the parts that it names (Parts, Seams, Steps, Preparing, Publishing,
-- Dispatching, Realizing), and each invariant fills it in (Invariants, Always, Replayed, Settled,
-- Scheduling). Three methods an order has to answer for as a whole: `prepare`, which reads the state
-- before, `project`, which publishes, and `successor`, which makes a further attempt (Pivots, Founded,
-- Judged, Advanced, Rounds, Ending).
--
-- Numbers: the program's integers are unbounded; the ones that a run cannot make negative are naturals,
-- the others are Scalars. The loops are over lists, but for two. `decimal`, which writes a number in
-- digits, runs on fuel, the number's successor, and a number has no more digits than that. The loop of
-- `realize` takes a number of rounds and gives no result when it has run out of them. A round that goes
-- on has been given a successor, and each is a further attempt, because what is scheduled is scheduled
-- under the id of an attempt before the current one, and an id ends with a number that is given once
-- (Journal/Serial). The policy bounds the attempts, by its max_attempts or by one where that is less, so that
-- as many rounds as it allows attempts are enough (Runtime/Ending). What is proved of a number of rounds holds of every number.
--
-- A set of the runtime (the injected entries, the claimed keys) is a list; `Presented` stands
-- for what `dispatch` is given, where any mapping is one value, because the code only finds that it is no
-- payload. An attribute that `__init__` leaves None is an Option, and reading through it raises.
--
-- Not modelled: `plain` of contracts.py, which turns records to JSON for the reports;
-- the scripts under examples and the tests, which only drive the package.
pub mod Prelude
pub mod Exec
pub mod Contracts
pub mod Journal
pub mod Samples
pub mod Shared
pub mod Retry
pub mod Fixture
pub mod Governance
pub mod Reconciliation
pub mod Runtime
