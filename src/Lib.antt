-- ===== src/Lib.antt =====
-- The governed runtime of the process swarm (process-swarm-gen2/): a proposal is validated, compiled to
-- a plan, given a lease, checked by the execution gate, executed under the tool gate and recorded; and
-- the life of a swarm, from its draft to its revocation, is governed by roles and warnings.
--
-- The runtime (process-swarm-gen2/runtime):
--   Runtime/Artifacts and Runtime/Faults: the JSON artifacts as records, and what a stage raises.
--   Runtime/Signer: identity/signer.py. JSON, key files and Ed25519 are the parameter `Crypto`.
--   Runtime/Clock: the datetime operations that the source calls, the parameter `Platform`. An instant
--     is a number of microseconds.
--   Runtime/Lease: lease/lease_manager.py; Times (validity over time), Storage (the directories),
--     Grants (what a plan is granted).
--   Runtime/Paths: the two tests of path containment.
--   Runtime/ToolGate: gate/toolgate.py; Authority (what is authorized), Sessions (calls in any order),
--     Total (when every request is answered).
--   Runtime/ExecutionGate: gate/execution_gate.py; Failures and Chain (when it allows).
--   Runtime/Validator: validation/validator.py; Admissible (what passes). Regular expressions and the
--     JSON schema are the parameter `Matcher`.
--   Runtime/Compiler: compiler/compiler.py; Steps (what a plan holds).
--   Runtime/Executor: executor/executor.py; Steps and Loops (the model), Containment, Halting, Status
--     and Total. The file system and subprocess are the parameter `Host`.
--   Runtime/Ledger: ledger/ledger_writer.py.
--   Runtime/Pipeline: pipeline/runner.py with proposal/proposal_loader.py; Stages (the model), Trust
--     (the artifacts of one run), Outcomes and Runs (a run that succeeds), Refusals (runs that do not).
--   Runtime/Exchange: exchange/ingress.py, receipt.py and the runner's intake; Files and Names (a
--     directory), Acceptance (what is accepted), Moves and Settling (where files go), Intake and Receipts
--     (the receipts). A file's name without its suffix, the JSON and schema libraries and the order in
--     which Python walks a set are parameters.
--
-- The governance and the integration (process-swarm-gen2/swarm):
--   Governance/Registry: registry/repository.py and events/recorder.py, the four tables that the
--     lifecycle uses. SQLite is lists of rows; a primary key that is taken raises.
--   Governance/Warnings: governance/warnings.py, the family of reduced assurance. The digests of
--     hashlib, the fresh ids and the clock are the parameter `Source`.
--   Governance/Tables, Governance/Guards and Governance/Lifecycle: governance/lifecycle.py; Roles (the
--     tables agree), Frame (what the handling of warnings leaves alone), Moves (one transition),
--     Settling and Separation (one actor in several roles), Vetting (any sequence of transitions).
--   Integration/Contracts, Integration/Policy and Integration/Retry: integration/contracts.py, policy.py,
--     errors.py and retry.py; Eligibility (which provider is allowed).
--   Integration/Client: integration/acds_client.py; Attempts, Scoring and Requests (the model), Sorting and
--     Ranking (the choice), Traffic, Turns, Chain and Calls (whom a request calls), Recording and Histories (the
--     latencies it remembers). A provider is a function on a world. The fallback has as much fuel as there
--     are candidates, and Calls shows that it is enough.
--   Integration/Nodes: integration/execution_pipeline.py, node_schemas.py and lineage.py; Lineage (the
--     entries), Chains and Runs (any sequence of nodes), Policies (the policy node).
--   ArgusHold: argus_hold/, the gateway of commands; Models, Policy and Scope with Bounds (the guards),
--     Ledger with Chains and Tampering (the hash chain), Results, Endings and Dispatch (the stages), Conduct
--     and Governed (what a command leaves). The libraries and the adapters are the records `Library` and
--     `Gateway`.
--
-- Prelude has the shared helpers: tests, lists, results, texts as lists of code points, and computations
-- over a state that keep what was written before they raised. Examples has concrete libraries and runs.
--
-- Every loop of the source but that fallback runs over a list or a range, so its model is structural
-- recursion and needs no fuel.
-- A stage that raises is an error value beside the state it leaves. The pipeline reads the clock and
-- the source of uuids through counters.
--
-- Not modelled: the bridge, the scheduler, the definer, the aggregation node, the adapters of Argus-Hold,
-- the other families of warnings, reports and user interfaces, which other parts of the program carry;
-- and the routing program under acds/, which is written in TypeScript. A URL that urlparse does not parse
-- is outside the model of Argus-Hold. Of the writes to disk, those that can raise here are the storing of a
-- proposal, the files of the executor, the artifacts of nodes and of commands, and SQLite's primary keys;
-- the files named by uuids, the two ledgers and the moves of the exchange are taken to succeed.
pub mod Prelude
pub mod Runtime
pub mod Governance
pub mod Integration
pub mod Examples
pub mod ArgusHold
