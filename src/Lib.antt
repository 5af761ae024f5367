-- ===== src/Lib.antt =====
-- The engine of django-logic: state fields, their transitions, and the durable background
-- transitions that workers run. A Python call is a function of a `World` that returns a `Result`
-- and a new world (Exec); what was written before an exception stays written, unless a block
-- around it is rolled back.
--
-- Parts, and the file that models each:
--
-- - exceptions.py, background/exceptions.py: Errors. An exception is a value of `Error`; an
--   `isinstance` test is a Boolean function of it. A consumer's exception class is a number.
-- - django_logic/state.py: State (set_state, lock, unlock, ...); the theorems on writes are in
--   State/Writing, those on the lock in State/Ownership.
-- - django_logic/commands.py: Commands (`_run_in_savepoint`, deferred unlocks, SideEffects,
--   Callbacks, NextTransition); Commands/Savepoint, Commands/Deferred and Commands/Callbacks
--   prove.
-- - django_logic/transition.py: Transition, and Transition/Action for `class Action`. `init` is
--   the constructors' checks, `change_state` the synchronous run. Declaring, Entry, Failing,
--   Release, Running, Writes, Action/Raising and Action/Yielding prove.
-- - django_logic/background/models.py: Message, the operations of `TransitionMessage`;
--   Message/Rows and Message/Stamping have the lemmas on rows, Message/Classification proves on
--   `retry_status`, and Message/Probing that it leaves the world as it was.
-- - django_logic/background/transitions.py and dispatch.py: Background/Enqueue; its children
--   Acceptance, Admission and Uniqueness prove. Background/Dispatch has the rest of dispatch.py,
--   the probe `in_flight` and the inline retry of sync mode.
-- - django_logic/background/runner.py: Background/Handlers (the steps of an attempt),
--   Background/Runner (their composition in `run_background_transition`) and Background/Finalize
--   (the entries of the watchdog and of detect_stuck). Accounting, Attempts, Guard, Whole and
--   Finalize/Abandoned prove. Background/Restoration is `_restore` and `_find_transition`; its
--   children Owner and Fallback prove.
-- - django_logic/background/safety_nets.py: Background/SafetyNets; Claimable, Watchdog and Cleanup
--   prove.
-- - django_logic/background/pull.py: Background/Pull, one claim and one run of a worker, and
--   Background/Pull/Loop, the loop of `run_worker`; Claim, Death and Loop/Drained prove.
-- - django_logic/background/serializers.py: Values has the Python values, Serializers their tagged
--   encoding, and Serializers/Kwargs `serialize_kwargs` and its inverse; RoundTrip, Json, Prepared
--   and Whole prove.
-- - django_logic/process.py: Process, the checks of a new process class, the available transitions
--   and the call of one by its name. Tree is `_iter_process_tree`; Reached, Validation and
--   Resolving prove. Process/Actions has `get_available_actions`. Process/Hooks is the check of
--   hook signatures, with Hooks/Accepting, and Process/Binding the `ProcessManager` with bind and unbind; Binding/Registered, Removal,
--   History, Owned and Undone prove.
-- - Background/Engine puts runner.py, serializers.py and process.py together: the deployment that
--   a worker runs in, with the processes of the site as what it restores. Engine/Lifecycle proves
--   on a background transition from its call to the commit of the attempt that finishes it.
-- - django_logic/checks.py: Checks, the four system checks; Checks/Background, Checks/Routing and
--   Checks/Settings prove.
-- - django_logic/testing/snapshot.py and runner.py: Testing/Snapshot, the row of a snapshot and its
--   restoration, and testing/driven.py: Testing/Driven, the record of driven transitions;
--   Snapshot/Replay and Driven/History prove.
-- - django_logic/conf.py and background/settings.py: Configuration, the readers of the settings
--   and the checks at boot, and Configuration/Bridge, the legacy base of `TransitionNotAllowed`;
--   Boot and Bridge/Installing prove.
--
-- How they interact: a call by name resolves in the process tree to a transition and the class
-- that declares it. Enqueue takes the state lock, inserts a row and writes the in-progress state
-- in one block, and unlocks; from then on the uncompleted row keeps other transitions away,
-- through the partial unique constraint and through `retry_status`. A pull worker claims the
-- oldest claimable row; an attempt locks the row, restores the transition, checks the state guard,
-- runs the side-effects in a savepoint and accounts for the outcome on the row. The safety nets
-- charge an attempt that overran, finalize a row that has no retries left, and sweep old completed
-- rows.
--
-- Django is a parameter (Django): the cache with `add`, `get` and `delete`, and the connection
-- with blocks, on-commit hooks, queries and saves. Its types are abstract; the laws are the
-- documented behaviour that the code relies on. Sample has a concrete Django that meets them, a
-- small site and a small process tree, on which each theorem with hypotheses is applied (the
-- modules called Tests). Another connection's writes become visible at one point, `wait`, where an
-- insert waits for a conflicting transaction. What the connection shows after a rollback is taken
-- to be what it showed at the entry of the block; where a `wait` inside the block made another
-- connection's commits visible, this is not what a database shows at once after the rollback, and
-- the theorems on rolled-back blocks say nothing about those commits. Other parameters: `Python`, the printing and parsing
-- of values that the serializers do not look into; `find_user`, the lookup of a user; `Column`,
-- the JSON column between enqueue and worker, which keeps plain JSON; `Floats`,
-- the arithmetic on floats; `Surroundings`, the other Django settings that the checks at boot
-- read; `Answers`, what the database and the imports give to `_restore`; `Interpreter`, what
-- Python answers on classes; `child`, what an attempt in a forked process leaves and its exit
-- code; `monotonic` and `wait`, the clock and the wait of the worker's loop; `Models` and
-- `Attributes`, what Python and Django answer on model classes and on hooks; `Router`, the aliases
-- that the database routers choose; `sorted` in the check of the settings. The runner and the
-- process call each other through two interfaces: `Deployment` is what a worker restores, and
-- `Accessor` the process bound to an instance. Background/Engine fills both for an `Installation`,
-- a record of the site's processes and of the answers above.
--
-- Numbers: times are milliseconds in ℕ. In the engine names, keys and keyword arguments are
-- numbers, where 0 is None or the empty string; in the serializers and the settings a text is a
-- value of its own. Where a subtraction of times would go below 0, it is an addition on the other
-- side, or stops at 0 as the source clamps it.
--
-- Fuel: the walks over nested process classes take it. It is Python's recursion limit
-- (`Program.depth`), and a walk that runs out raises RecursionError, as Python does. A walk enters
-- no class twice, so a depth above the number of classes is enough. Follow-ups that call the
-- process of Background/Engine again nest as deep as the same limit. The worker's loop takes fuel
-- for its rounds, inner and outer; one catch-up needs two more than the runs that are to do.
--
-- Not modelled: logging; several databases; the limits of text columns; exceptions that are no
-- `Exception`; a cache that fails or forgets a lock; the ids that `_transition_context` threads
-- through nested calls; NOTIFY, and the LISTEN of a waiting worker, which is the parameter `wait`;
-- the texts of the system checks; of the testing helpers the fields of an instance in a snapshot,
-- the tracking of hooks, and the scenarios with their assertions, which wrap a test case. In the engine the encoding of keyword
-- arguments enters as an outcome; Serializers models the encoding itself.
pub mod Prelude
pub mod Errors
pub mod Exec
pub mod Django
pub mod World
pub mod State
pub mod Atomic
pub mod Commands
pub mod Message
pub mod Transition
pub mod Background
pub mod Results
pub mod Values
pub mod Serializers
pub mod Configuration
pub mod Process
pub mod Checks
pub mod Testing
pub mod Sample
