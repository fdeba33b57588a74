-- ===== src/Lib.antt =====
-- Verification of Euboulia (src/euboulia of the repository), an optimization agent for inference
-- engines: it profiles, proposes reviewed changes, evaluates each by an A/B comparison against a
-- fixed scenario, and promotes only what is correct and better.
--
-- Parts, and the files that model them:
--
-- Prelude (Tests, Lists, Dict, Chars, Equal): shared names, Boolean tests, lists, Python's dict,
--   and texts as lists of code points.
-- Floats: Python's float as an abstract type with the operations that the code calls; the IEEE
--   facts that some theorems need are a separate record of laws. Floats.Scaled is a concrete
--   instance over thousandths, for the examples.
-- Lifecycle: src/euboulia/optimization/state.py. `run_transitions` and `iteration_transitions` are
--   the two tables, and `move_run`, `begin_iteration`, `move_iteration` the methods of the class.
-- Budget: src/euboulia/optimization/budget.py, and the head of the loop of optimization/runner.py
--   alone. Each reading of the clock is an argument. The loop is a recursion on a list of rounds.
-- Evaluator: src/euboulia/optimization/evaluator.py. Evaluator.Metrics is the parser of metrics
--   files and the objective gate, Evaluator.Stages one tier, Evaluator.Benchmark the warm-up and
--   the measurement loop, Evaluator.Run the authorizations and the four tiers. Processes, files,
--   the clock and the digest of a plan are operations of the record `Host`, over an abstract world
--   that they thread. The loops recur on the commands or on the windows that are left, so they take
--   no fuel.
-- Gates: src/euboulia/gates.py, with Verdict of src/euboulia/models.py. Gates.Evaluate is the
--   correctness gate, Gates.Compare the performance gate and the composite of the two,
--   Gates.Construct the checks of their constructors. A verdict whose numbers are not finite is the
--   result `not_finite`, the ValueError of its constructor.
-- Planner: src/euboulia/optimization/planner.py. Planner.Catalog reads a catalog from the parsed
--   YAML document on, Planner.Propose is the rule planner. The record `Library` holds what they
--   call of Python's library and of the file system.
-- Ledger: src/euboulia/optimization/events.py and src/euboulia/ledger.py. `append` writes to a list
--   of characters, with os.write taking what it is given to take: an error that os.open, flock,
--   os.write or fsync raises is not modelled; its loop over os.write recurs on fuel, a round for
--   each character of the line, which is enough since each write takes at least one. Ledger.Read
--   has the iterators and the queries.
-- Runner: src/euboulia/optimization/runner.py, from `run` down. Runner.Exec has its code as actions
--   on a session: the events appended, the handles that `controller.start` has returned to
--   `_evaluate_managed_service` and on which `controller.stop` was not called since, and the host's
--   world. Runner.Loop is `run` with its loop, Runner.Candidate the execution of a candidate,
--   Runner.Service the managed service and the build, Runner.Profile the capture of the champion's
--   profile, whose service is not on that stack, Runner.Suite the workload suite and the verdict on
--   it. Runner.Keeps has one rule for each way to build an action, and Runner.Tracks one for the
--   services that run in the host's world. What these call outside (the controller, the workspaces,
--   the evaluator of a point, the planner behind `_deliberate`, the profiler's run on a service,
--   the memory store, the ledger's file, the clock) are operations of the record `RunnerHost`, each
--   of which may raise. The loop takes as fuel the patience plus the failures allowed, and one,
--   which is enough since each round that goes on raises one of the two counters. Events have no
--   payloads; a run has no run_uid and no name, which nothing here branches on.
-- Control: src/euboulia/control.py. Control.Store has the transactions of ControlStore that change
--   it: a store is a dict of rows by run_uid, the list of events with the latest first, and the
--   counter of their sequence. Control.Reconcile is `_reconcile_task` and
--   `_reconcile_terminal_state` on what the manager finds of a run: its record, its progress, its
--   manifest and its process. The clock's readings are arguments. SQLite's order of texts is a
--   parameter of `claim_next`; Control.Texts has the order of code points.
-- Workspace: src/euboulia/optimization/workspace.py. Workspace.Paths is `_safe_patch_path`,
--   Workspace.Inspect `_inspect_patch`, and Workspace.Apply `prepare_patch` and `apply_patch` with
--   the checks that they share, as actions (Workspace.Actions) on the world of the record `Host`:
--   git, the file system and uuid4. UTF-8 and SHA-256 are the record `Codec`. A patch is a list of
--   bytes, and a text a list of code points; `str.casefold` is the fold of ASCII, which decides as
--   it does whether a text is ".git". The directory of the evidence is known by the names of its
--   files alone. Runner calls the same two methods as operations of its own host.
-- Arguments: `ServerArgumentPatch` of src/euboulia/optimization/target.py. Arguments.Walk is the
--   walk over a command line, which `_long_option_occurrences` and the loop of `apply` make alike:
--   its items stand for the steps, with a token and the value that it takes. Arguments.Overlay is
--   the constructor and `apply`. Tokens are lists of code points.
-- Memory: src/euboulia/optimization/memory.py. A table is a list of rows with the columns of an
--   entry and its JSON; a transaction gives its result and the table after it. The JSON of entries,
--   the row that SQLite gives of those it finds, and its order of texts are the record `Library`.
--
-- Not modelled: the texts of messages (a constructor with the values printed stands for each), the
-- order of keys where Python sorts a dict, the checks of types that Python makes at run time where
-- the model's types make them (but for the progress that a task's update refuses), the
-- UnicodeDecodeError of an output of git that is no UTF-8 and the OSError of a command that does
-- not start, that `_plan_digest` resolves the workspace anew at each call, and the parts that the
-- manifest lists as such.
pub mod Prelude
pub mod Floats
pub mod Lifecycle
pub mod Budget
pub mod Evaluator
pub mod Gates
pub mod Planner
pub mod Ledger
pub mod Runner
pub mod Control
pub mod Workspace
pub mod Arguments
pub mod Memory
