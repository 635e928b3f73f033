-- ===== src/Lib.antt =====
-- Nexus Cloud: the platform's state, its control plane, data plane, storage, guardian, federation, tool
-- registry and catalog.
--
-- The program keeps two stores, each a record in memory that is written to a file as a whole: the
-- platform state (nodes, workloads, peers, events, health checks, guardian decisions, maintenance
-- windows; src/state.ts) and the registry of tools (tools, addresses, exposures, public URLs, custom
-- domains, history; src/systems-api/registry.ts). The control plane registers nodes, keeps their
-- trust and spreads the replicas of a workload over them. The guardian decides whether a tool may be
-- published and keeps a ledger of decisions. The federation keeps peers, which announce themselves
-- over gossip. The registry asks the guardian on each request for an address, an exposure or a
-- domain, and derives the routing table of the proxies from its records, the guardian's ledger and
-- the maintenance windows. Each tool may propose how the catalog lists it; an operator approves,
-- defers, rejects or rolls back, and the approved entries, what the tenant is entitled to, the node's
-- own applications and the state of the tools give the effective catalog. The data plane runs the
-- units of a workload in containers, and the storage places volumes on shared pools.
--
-- Files and the code they are about:
--   Base: JavaScript's arrays, texts, instants, and operations with exceptions. An operation on a
--     state is a function `S → Result A × S`: what was written before a throw stays written.
--   State, State/Types: src/state.ts (mutateState, replaceState, writeSnapshotAtomic).
--   ControlPlane/Types, Admission, Scheduler, Trust, Service: src/control-plane/ (types.ts;
--     quota.ts and policy.ts; scheduler.ts; registration.ts and the trust operations of service.ts;
--     planWorkload of service.ts and placement.ts).
--   Observability/Types, Service: src/observability/ and appendAuditEntry of src/audit/index.ts.
--   Maintenance: src/maintenance/index.ts.
--   Guardian/Policy, Guardian/Decisions: evaluateGuardianRequest, and the ledger, of
--     src/guardian/index.ts.
--   Federation/Types, Peers, Gossip, Service: src/federation/ (index.ts, peers.ts, gossip.ts,
--     service.ts).
--   DataPlane/Types, Units, Service: src/data-plane/index.ts and src/data-plane/service.ts.
--   Storage/Types, Pools, Volumes: src/storage/index.ts; createVolume is two steps, before and after
--     its wait for the object store.
--   Persistence/JsonStore, JsonStore/Writing: src/persistence/json-store.ts, the second as the steps that
--     a write makes on the disk, its syncs included, and what a crash leaves.
--   Catalog/Types, Resolution: src/catalog/resolution.ts.
--   SystemsApi/Types, Records: src/systems-api/types.ts; address.ts, exposure.ts and domains.ts.
--   SystemsApi/Catalog, Catalog/Validation: src/systems-api/catalog.ts, and the catalog's state of
--     src/systems-api/store.ts.
--   SystemsApi/Store: the sanitizers of src/systems-api/store.ts. Objects reads the parts of an object,
--     Vocabulary and PublishedWords have the words of the file, Saving the JSON values that the
--     records are written as.
--   SystemsApi/Paths: requireSafeRelativePath of src/systems-api/registry.ts.
--   SystemsApi/Registry: the state and helpers of src/systems-api/registry.ts; its children Tools,
--     Requests, Revocation, Domains and Routes are its operations (registerSystemsApiTool to
--     disableSystemsApiTool; requestSystemsApiAddress, requestExposure, requestPublicUrl; the two
--     revocations; the domain operations; listActiveRoutes). Governance is its catalog: Decisions
--     holds decideCatalog, Proposals registerSystemsApiTool and updateTool as wholes, with the proposal
--     that they check and save around what Tools has of them.
--     Invariant holds the registry's invariant.
--   The other children are theorems about the module they stand under; Tests has their instances at
--     concrete inputs.
--
-- What an operation reads from outside is an argument: an `Env` numbers the readings of the clock,
-- the random UUIDs and the outcomes of the writes of a file, each reading by its own number, and a
-- branch that does not take a reading skips its number. A write is saved, lost before the rename, or
-- replaced (the rename is done and the directory sync after it throws). The URL parser's hostname,
-- the cloud's domain, the mode and the numeric settings are parameters, and so are the answers of the
-- container runtime's commands (`Runner`), whether a bucket is made, what a failed write of a JSON
-- store leaves in its temporary file, the comparison of names by
-- localeCompare (`collate`), the reading and the printing of a store's file, the reading and the
-- writing of an instant (`read_stamp`, `print_stamp`), and what the commit of a catalog finds on the
-- disk after a failed directory sync (`Reconciliation`).
--
-- Bounds: numbers are whole and not negative, since a negative request takes the same branch as 0
-- where the code tests it; the available capacity of a pool alone has a sign. A numeric setting of
-- the registry is a number, not NaN, and a size is a whole number. An instant is a `Stamp`: a number
-- of milliseconds, or a text that Date.parse cannot read; the catalog keeps its instants as texts.
-- Letter case is mapped for ASCII letters only. An object that is used as a map has its own
-- properties only. Loops are structural, so no fuel is used but in printing a number in decimal,
-- where n + 1 digits are enough for n.
--
-- Not modelled: the interleaving of requests (each operation runs to its end, as the code does
-- between two awaits; the wait in createVolume is the exception), the input and output of HTTP, S3,
-- DNS and the container runtime, the sanitizing of a loaded catalog and of the platform state, the
-- loading of src/state.ts, the stores of tenant entitlements and of the node overlay, the query of
-- the audit log, the status summaries and the topology of src/systems-api/service.ts, the parsing and
-- formatting of src/api/, the deprecated credential fields of storage pools, the reason text of a
-- placement, and failures of the audit file other than a lost append.

pub mod Base
pub mod Catalog
pub mod State
pub mod ControlPlane
pub mod DataPlane
pub mod Federation
pub mod Guardian
pub mod Maintenance
pub mod Observability
pub mod Persistence
pub mod Storage
pub mod SystemsApi
pub mod Tests
