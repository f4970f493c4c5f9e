-- ===== src/Lib.antt =====
-- AegisFlow, the security investigation orchestrator: a model of the core of its Python backend
-- (backend/app) and proofs about it.
--
-- The parts that are modelled:
-- - Approvals: the human approval of containment actions (backend/app/schemas/approval.py,
--   backend/app/engines/approvals/service.py). Types has the request and its statuses, Store the
--   protocol ApprovalStore with the laws that the service relies on, Memory the in-memory store
--   that meets them, Service the methods of ApprovalService, each a function from the service's
--   state to a result and the next state. Time and ids come from an environment, read in the order
--   in which the code reads them. The other modules of the folder are proofs.
-- - Planning: the task graph and the scheduler that runs an investigation
--   (backend/app/agents/planning). Task has the task and its key, the JSON text of the parameters
--   included (Json); Graph is TaskGraph; Scheduler has PlanningEngine.expand and
--   PriorityScheduler, whose planner, executor, reflection and clock are the fields of a record.
--   The loop of _drain is recursion on the iterations that are left under max_iterations, and that
--   of run on the reflection rounds that are left, so neither needs fuel. The other modules of the
--   folder are proofs.
-- - Schemas: the types that the parts exchange (backend/app/schemas/common.py, alert.py,
--   investigation.py). A JSON value of an alert is a text, a list, a dict, or a scalar by its
--   text.
-- - Access: who may do what (backend/app/core/authz.py, backend/app/core/security.py,
--   backend/app/core/ssrf.py). Roles has the RBAC matrix, Resources the attribute check, Claims
--   the principal of a verified token, Keys the cache of the signing keys of an issuer, over a
--   network and a clock that are parameters, Egress the guard of outgoing requests
--   (backend/app/core/ssrf.py), over the parsing of URLs, the resolution of names and the classes
--   of addresses of ipaddress. Matrix reads the RBAC matrix by permission, and Rotation has the
--   sequences of fetches of Keys. A response that is not the JSON that the code expects raises
--   another error there, which is not modelled.
-- - Stores: the in-memory stores by tenant. Rules is RuleStore
--   (backend/app/engines/detection/store.py), Fingerprints InMemoryFingerprintStore
--   (backend/app/engines/fingerprint/store.py), Investigations InMemoryInvestigationRepo
--   (backend/app/repository.py); RuleRuns has sequences of calls of the first, Recent the listing
--   of the last.
-- - Detection: the detection rules and their evaluation (backend/app/engines/detection). Rules has
--   the matchers, Fields the fields of an alert, Engine is DetectionEngine, Builtin the built-in
--   rules; Evaluation, Evidence and Justified are proofs. What a regular expression finds is a
--   parameter.
-- - Investigation: one investigation from its first plan to the end of the collection
--   (backend/app/agents). State is InvestigationState with its methods (state.py), Planner is
--   Planner.next_actions (planner.py), Reflection is ReflectionEngine (reflection.py), Tools the
--   six tools (tools.py) over connectors that are parameters and may answer differently at every
--   call, Loop the registry, run_tool and the batch loop (loop.py). The loop is recursion on the
--   iterations that are left. The tools of one plan run one after the other, where the code awaits
--   them together. Any planner can be given to the loop; next_actions is one, also of the
--   scheduler of Planning, which suggest is a reflection for. Mapper has the ATT&CK mapper and the
--   timeline (backend/app/engines/mitre/mapper.py, backend/app/engines/timeline/builder.py).
--   Memory is the in-memory case memory (memory.py), over the operations of floats, which are a
--   parameter. The other modules of the folder are proofs.
-- - Graph: the incident graph in memory (backend/app/engines/graph/client.py). Client has the
--   writes, the neighbours and the campaigns; the search of neighbours is recursion on the depth,
--   which is at most 6. Cases has what an investigation writes (_write_graph of
--   backend/app/agents/loop.py). The other modules are proofs.
-- - Accounts: native accounts (backend/app/core/accounts.py, backend/app/api/v1/routes/auth.py).
--   Passwords has the hash of a password and its test, over the hex texts and the key derivation
--   of a library, Store the accounts, Routes the registration, the login and their rate limit,
--   with the random draws and the clock from an environment. Limits, SignIn and Login are proofs.
-- - Dispatch: the submission of investigations (backend/app/orchestrator/dispatch.py) over the
--   repository of Stores. A submission and the end of a task are the two steps of Dispatcher, in
--   any order; Capacity has sequences of them. A cancelled task is not an ending.
-- - Playbook: the recommended steps (backend/app/engines/playbook/recommender.py). Recommender is
--   recommend_playbook, whose steps are those that Approvals makes requests of; Steps says what
--   every playbook is.
-- - Circuit: the circuit breaker of the threat-intelligence connectors
--   (backend/app/engines/threat_intel/circuit.py), over a clock that is a parameter.
-- - Base: names and lemmas that the parts share, Python's dict with text keys in insertion order,
--   sets of texts, the two-level dict by tenant, the stable sort of list.sort, what is asked of
--   texts, with lower on the letters of ASCII only, and the monad of methods that write an object
--   and may raise.
--
-- Each method of a service that holds the service's lock is one step; logging is left out. Times
-- are natural numbers.
--
-- Not modelled are the Postgres and Neo4j stores, the temporal mode, the connectors, the copilot
-- and most of the HTTP layer, which are calls of libraries and services; scores that are floats
-- (backend/app/engines/risk_scoring, backend/app/agents/consensus.py); and, of the backend's own
-- logic, the report that finalize puts together (backend/app/agents/loop.py), the shortest path of
-- the incident graph, campaigns and attribution, the sign-in with Google, ingestion and the
-- threat-intelligence aggregation.
pub mod Base
pub mod Approvals
pub mod Planning
pub mod Schemas
pub mod Access
pub mod Stores
pub mod Investigation
pub mod Dispatch
pub mod Playbook
pub mod Circuit
pub mod Detection
pub mod Graph
pub mod Accounts
