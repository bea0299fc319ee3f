-- ===== src/Lib.antt =====
-- The backend of a wealth-management service: a customer's signal starts a workflow run that takes a
-- redacted snapshot of the customer's data, lets an agent job assess it and plan actions, executes
-- the harmless actions at once and asks the customer to approve the others.
--
-- The parts, from the bottom up, and how they interact:
--  - Base, Integers and Json hold lists, texts, Python's integers and JSON values. Database is the
--    request's database session: `World` has the committed tables, the session's view of them and a
--    count of the readings of the clock and of the generator of identifiers; `Exec` is an action on it
--    that returns or raises. A write is seen at once in the view; `commit` makes the view permanent;
--    the end of a request drops the rest. Models has the rows (app/models), Environment the settings
--    (app/core/config.py) and everything that is not the program's own: identifiers, clock, hashes,
--    the collation, the process of a Codex worker, and the arithmetic of floats and decimals.
--  - Security: who may act for which customer (app/core/auth.py, app/security/scope.py).
--  - Tokens: base64url as `_b64_bytes` and `_b64_decode` use it (Base64, RoundTrip), `create_jwt` and
--    `verify_jwt` (Jwt, Signed), password hashes (Password; all app/core/auth.py), and on top of them
--    the principal of a request and the login (Login, Sessions; app/api/deps.py,
--    app/api/routes/auth.py). `verify_jwt` is read in the order of its checks; each exception of its
--    body is the 401 that it becomes.
--  - Tools: the views of a customer's data (app/tools/data_tools.py), in People, Money, Cards and
--    Context, with `build_context` there and `get_customer_detail_snapshot` in Snapshot. Isolation,
--    Details and Consent say whose rows they show.
--  - Redaction: the boundary of the context that an agent sees (app/adapters/mock/context.py):
--    `sanitize` is `build_agent_context_snapshot` from the raw context on.
--  - Planning and Policy: plans (app/planning/schemas.py) and which proposal needs the customer's
--    approval (app/policy/engine.py).
--  - Signals: the deterministic signal of a run (app/signals/detectors.py).
--  - AgentJobs: the local planning worker (app/agent_jobs/local_stub.py, in Assess, Asset, Insurance and
--    LocalStub) and the run of a job (app/agent_jobs/dispatcher.py and app/planning/validators.py, in
--    Dispatcher). A worker's output is a JSON value that is searched for leaks before it is validated, and
--    each failure raises the exception of the code. Schema is the strict JSON schema that a Codex worker's output must match; it takes
--    the schema that Pydantic generates. Codex is the command, the environment and the checks of such a
--    worker.
--  - Executor: the mock handlers and `execute_scoped` (app/executor/handlers.py). It derives its
--    authority from the tables again, whatever its caller says.
--  - Workflow: the nodes of the graph (app/workflows/nodes.py), one function each: Helpers, Nodes up to
--    `policy_check`, Decisions from `approval_interrupt` on; Graph has the edges
--    (app/workflows/wm_graph.py). `execute_action` is cut at its points of interest: `record_and_decide`
--    stores the decision and branches, `advance` looks for the next pending proposal.
--    Service has the threads and the entry points around the graph (app/workflows/service.py), with
--    `serialize_thread` in Service/Views; the compiled graph is a parameter of it.
--  - Privacy: the withdrawal of a consent and the purge of old messages (app/privacy/service.py).
--  - Routes: the routes of customers, push subscriptions and workflows (app/api/routes), for a principal
--    who is known.
--  - Tests: the theorems at concrete inputs.
--
-- Loops are structural recursions on lists, texts and JSON values, so that no fuel is needed; a run of the
-- graph (Workflow.Walk) has fuel, and eleven nodes are enough for every run. Invariants of the tables are
-- predicates `P` with `Keeps P m` for an action `m` (Database.Keeps); Workflow.Invariants lifts one from
-- `execute_scoped` to every node.
--
-- Not modelled: LangGraph's checkpoints (a run follows the edges of the graph from any node and state, or
-- is any sequence of node executions), the files of jobs and the process of a worker, logging, SQL, the texts of errors, and
-- Pydantic's validation but for a proposal's kind; the streams and the debug view of the service, which
-- repeat its operations in another form; the demo data (app/seed.py) and the benchmark script, which no
-- part of the service calls. The settings are read once, when the program starts. HMAC, PBKDF2, JSON texts, hashes, the clock, random texts and the arithmetic
-- of floats and decimals are parameters, as Environment lists them.
pub mod Base
pub mod Integers
pub mod Json
pub mod Redaction
pub mod Planning
pub mod Policy
pub mod Models
pub mod Database
pub mod Environment
pub mod Security
pub mod Executor
pub mod Signals
pub mod Tools
pub mod Tokens
pub mod AgentJobs
pub mod Workflow
pub mod Privacy
pub mod Routes
pub mod Tests
