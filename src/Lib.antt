-- ===== src/Lib.antt =====
-- SafeHire ProofOps: the core of the Python backend.
--
-- The backend lets a wallet owner give an agent a bounded permission (a policy), hire it for a task,
-- and execute the task through an adapter behind a deterministic gate. Everything that happens is
-- appended to a hash-chained evidence ledger. Plugins provide the ledger, the agents' registry and
-- the agents' scorer; a workspace journal keeps the private watches of a visitor.
--
-- How the parts meet: `TaskService` (Execution.Service) reads and writes the SQLite store
-- (Execution.Store), asks the gate (Execution.RiskGate) with the answers of the store, follows the
-- table of transitions (Execution.StateMachine), and logs to the ledger, whose own form is
-- Plugins.Evidence. `WalletAuthService` (Services.WalletAuth) keeps its challenges and sessions in
-- the same store. The harness (Harness) starts and stops the plugins (Plugins).
--
-- The files, and the code that each models:
--   Prelude: names that every file shares; tables keyed by text (Dict), calls that may raise
--     (Raising), membership (Members), lists (Lists) and lower-case text (Text).
--   Domain.Models, Domain.Agents: src/proofops/domain/models.py and category_metrics.py, a record for
--     each dataclass and a data type for each enumeration.
--   Domain.Canonical: redact_secrets of src/proofops/domain/canonical.py over JSON values.
--   Execution.StateMachine, Execution.RiskGate, Execution.Errors, Execution.Store: state_machine.py,
--     risk_gate.py, the exceptions, and the tables of store.py in src/proofops/execution. A table is
--     an association list, or a list of rows; one function stands for each method of `SQLiteStore`.
--   Execution.Exec, Execution.Service: src/proofops/execution/service.py, each method a program over
--     the database and the ledger. `execute` is `begin`, the adapter's answer, and `finish`, since
--     other calls run while the adapter is awaited; Execution.Service.Interleaving is the relation of
--     those steps, with the gate wired as in src/proofops/services/bootstrap.py.
--   Services.WalletAuth: src/proofops/services/wallet_auth.py.
--   Plugins.Evidence, Plugins.AgentProof, Plugins.AgentRegistry: evidence.py, agent_proof.py and
--     agent_registry.py of src/proofops/plugins, the last with src/proofops/services/marketplace.py.
--   Harness.Registry, Harness.Lifecycle: registry.py and contracts.py of src/proofops/harness.
--   LiveHire: src/proofops/services/live_erc8183.py. Chain has the reads of BSC and the errors, Status
--     the status of a job, Plans the transactions that a buyer signs, Logs the search for an event,
--     Delivery the manifest and the paid dossier, Notify the notification of the provider.
--   Decision.Paid: src/proofops/decision/paid.py; BscReader is its reader over decoded answers.
--   Decision.Market: src/proofops/decision/market.py; Catalogue, Projection, Ranking and Compare are its
--     tables and functions, SnapshotCache its cache. A `now` of the code is a time of the caller's.
--   Workspace.Store, Workspace.FollowUp, Workspace.Quotas: src/proofops/workspace/store.py.
--   Workspace.Worker: src/proofops/workspace/worker.py, over the journal and LiveHire; Rounds has
--     `process` and a round of `run`.
--   Arena.Store: create and submit of src/proofops/arena/store.py, with the parsing and evaluation of a
--     proposal as arguments.
--   Tests: runs at concrete data.
--
-- Choices: a time is a number of microseconds, a day the number of whole days. A float is a value of
-- a type with the operations that the code uses, and the laws that a theorem needs of it are named
-- hypotheses (FloatLaws, RoundingLaws). Ids, clock readings, digests and signature recovery are
-- arguments. A method of a store is one transaction, so that it runs to its end. The order of plugins
-- has fuel, one unit for each plugin and one more; a run that the fuel would cut off has
-- ordered more plugins than there are and is refused. The digits of a number have one unit more than
-- the number.
--
-- Not modelled: HTTP routes, web3 and price sources, the arena's models, planners and bundles, the
-- submission checks, the other actions
-- of the workspace, files and SQL text, the contracts and the other languages of the repository;
-- threads that share one store, a task cancelled while its adapter is awaited, and the text of error
-- messages.
pub mod Arena
pub mod Decision
pub mod Domain
pub mod Execution
pub mod Harness
pub mod LiveHire
pub mod Plugins
pub mod Prelude
pub mod Services
pub mod Tests
pub mod Workspace
