-- ===== src/Lib.antt =====
-- Model Courier: a server keeps the tasks that devices hand in, and workers claim them under leases,
-- run a provider on the input and publish the result.
--
-- Parts, with paths from the root of the repository:
--   Contracts: src/model_courier/contracts, the envelopes that all parts exchange: a text or number
--   of a record is any text or number, Checks has the constraints of the fields, and Models the
--   validation of a body.
--   Server/Db: the tables of src/model_courier/server/migrations/001_initial.sql. A table is the list
--   of its rows in the order of insertion (Prelude/Tables has SELECT, UPDATE, DELETE, ORDER BY). JSON
--   columns hold the value that their text stands for.
--   Server/Exec: a call returns or raises, and leaves a database: what was committed before a raise
--   stays.
--   Server/Repository: src/model_courier/server/repository.py, one definition for each method of
--   `TaskRepository` under its name. Identities has owners, devices and workers, Submit the making of
--   a task, Matching `_matches`, Claim `claim_next`, Leases the calls under a lease, Sweep
--   `requeue_expired` and `cancel`. Each transaction is one step, since each begins with BEGIN
--   IMMEDIATE.
--   Server/Lifecycle: the abstract life cycle of a row (`Move`), the histories of calls (`Calls`) and
--   what holds along them (`History`). The times of the calls in a history need not increase.
--   Server/Fencing, Claiming, Sweeping, Submitting: what the calls of the repository promise;
--   Keeping: while a worker holds a task, Offering: of the envelope that a worker is handed.
--   Server/Tokens: src/model_courier/server/auth.py.
--   Server/Quotas: src/model_courier/server/quotas.py, where Histories has the submissions that reserve
--   before they create.
--   Server/Storage: src/model_courier/server/storage.py, with paths relative to the root; Results is
--   `publish_result`.
--   Server/Cleanup: src/model_courier/server/cleanup.py, with the `delete_expired` of the storage and
--   with paths as the disk has them.
--   Server/Routes: the handlers of src/model_courier/server/routes_devices.py and routes_workers.py
--   with `map_repository_error` of dependencies.py, as functions on the state that answer a status;
--   Bearer has the principals of dependencies.py, which the handlers take as arguments, Bodies the
--   constraints of schemas.py; Delivering, Foreign and Bodies/Failures follow a claim through them.
--   Worker/Factory and Worker/ProcessRunner: src/model_courier/worker/factory.py and
--   process_runner.py.
--   Worker/Runtime: src/model_courier/worker/runtime.py, a round of the worker as a function of what
--   the client answers and the provider does, which returns the requests that it sends; Heartbeats is
--   the loop of the other thread, and Reporting which failures the server lets it report.
--   Agent/Json and Agent/Models: JSON values, and src/model_courier/agent/models.py.
--   Agent/Secrets and Agent/Store: src/model_courier/agent/store.py, the rows of the bindings; Trust is
--   about the marks along a sequence of calls, Marks about one call.
--   Agent/Http, Agent/Bridge and Agent/Providers: src/model_courier/agent/http_adapter.py,
--   python_bridge.py and providers.py; the process of an adapter and the HTTP service are arguments.
--   Agent/Bindings: `build_binding_factory` and the loop of src/model_courier/agent/worker.py.
--   Agent/Controller: src/model_courier/agent/runtime.py, as steps of threads between two
--   acquisitions of the lock.
--   Agent/Environments: src/model_courier/agent/environments.py.
--   Agent/Api: the endpoints of src/model_courier/agent/api.py on the store and the controller;
--   Running is the run of a binding that `verify_model` makes.
--   Sdk: packages/sdk-python, the client of model_courier_sdk/client.py: `_request` with its attempts,
--   Tasks the calls on tasks and the wait for a result.
--   Providers: src/model_courier/providers/mock.py and the three provider packages, for what their
--   inference libraries return.
--   Server/Tests, Worker/Tests, Agent/Tests, Providers/Tests and Sdk/Tests: the theorems at concrete inputs.
--
-- Bounds: a time is a whole number of seconds and sizes are natural numbers, so that ages and
-- remaining bytes are written with a subtraction that stops at 0 where the code compares first. The
-- loops of the code are recursion on the list that they run over; `poll_worker` runs over the list
-- of its rounds, and no fuel is needed.
--
-- Parameters: SHA-256 of a text and of a file, the JSON of a binding, of a request and of a response,
-- the random identifiers and tokens, the clock, the free bytes of the disk, the canonical digest of an
-- envelope, of a binding and of a payload, what `Path.resolve` makes of a path, and what the
-- validation library strips off a text.
--
-- Not modelled: the inference libraries, the desktop application, the wiring of the web framework and
-- of SQLite, the order in which the framework checks token and body, calls between the two
-- transactions of a cleanup or of a submission, the lock that runs one model at a time, failures of
-- the disk, and the rounding of floating-point times.
pub mod Prelude
pub mod Contracts
pub mod Server
pub mod Worker
pub mod Agent
pub mod Sdk
pub mod Providers
