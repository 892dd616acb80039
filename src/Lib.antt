-- ===== src/Lib.antt =====
-- A5E, a manager of Ansible runs on Kubernetes: its API server, its operator and the code they share.
--
-- A user's request comes to the API server, whose permission engine decides what it may see and do.
-- Objects (hosts, inventories, playbooks, runs) are stored as custom resources. The operator
-- reconciles each run: it resolves the objects that the run refers to, cuts the hosts of a parallel
-- run into shards, creates a Job for the run or for each shard, and polls the Jobs to their end.
--
-- Base: Booleans, equality, lists, dictionaries, results and text, shared by all modules.
-- Descriptors: packages/schemas/src/crd-meta.ts and packages/k8s-client/src/crdRegistry.ts.
--   `descriptorForPlural` is `descriptor_for_plural`, and so on for every name below.
-- Labels: packages/k8s-client/src/label-selector.ts, without `parseLabelSelectorString`.
-- Refs: packages/k8s-client/src/ref-namespace.ts and packages/operator/src/resolvers/object-ref.ts.
-- Permissions: packages/api/src/auth/permission-engine.ts and roles.ts, without `executeListPlan`.
-- Inventory: packages/k8s-client/src/inventory-resolve.ts. Jumps has `resolveJumpChain` and Groups
--   has `resolveInventoryGroups`.
-- Sharding: packages/operator/src/resolvers/host-sharding.ts.
-- Jobs: packages/operator/src/resolvers/job-builder.ts.
-- Runs: packages/operator/src/controllers/run-controller.ts. Status has the phases and
--   `patchRunStatus`, Poll has `pollJobToCompletion`, Shards has `startShardJob`, `pollShardJob` and
--   the loops over shards, Control has `startParallelRun` and `pollParallelRun`, and Reconcile has
--   `startRun`, `pollRun` and `reconcileRun`.
-- Schedules: packages/schemas/src/jobs.ts, packages/operator/src/controllers/ansiblejob-controller.ts
--   and base-reconciler.ts. History has what `pruneHistory` deletes, and Control has
--   `reconcileAnsibleJobs` and `patchReadyCondition`.
-- Leases: packages/operator/src/k8s/leader-election.ts. `intend` is `tryAcquireOrRenew` up to its write,
--   and Steps has the replicas that compete for a lease.
-- Informer: packages/operator/src/k8s/informer.ts. Steps has the steps of a controller: events, lists,
--   timers, the ends of reconciles and the stop, in any order.
-- Effects: programs that call the outside, and rules for what they call.
-- Cluster: what the operator asks of the API server and the log store, and
--   packages/operator/src/k8s/core.ts.
-- Api: what the API server asks of the outside.
-- Sessions: packages/api/src/auth/session.ts and session-store.ts.
-- Users: packages/api/src/auth/user-store.ts and user-passwords.ts. Names has `localCRName`,
--   `oidcCRName` and `deriveOidcUsername`, Claims has `claimUsername`, Passwords the hashes, Store what a
--   login does, and Admin what an administrator does.
-- Access: packages/api/src/auth/authorize.ts, and what roles.ts and permission-engine.ts read of the
--   objects for a session.
-- Routes: packages/api/src/modules/resource-routes.ts, the routes of one object, with the guard of the
--   methods of packages/k8s-client/src/customResourceClient.ts.
-- Settings: packages/api/src/modules/users-settings.ts, permissions-settings.ts and app-settings.ts, with
--   packages/api/src/auth/groups.ts and packages/api/src/lib/app-settings-store.ts.
-- ChangeRequests: packages/schemas/src/change-requests.ts and
--   packages/api/src/modules/change-requests.ts. Items has what the routes do with one change, and
--   Review has the routes.
-- Tests: the theorems at concrete inputs.
--
-- The state of the outside is a trace, a state of the server with the calls made so far. A handler is
-- a function of the trace to a result or an error with a later trace, so that an error keeps the calls
-- made before it. The server is a parameter: any function of a call and its state. A time is what the
-- server's clock says. The awaits of one handler run in order; another handler's calls can only
-- change the server's state, which the parameter already ranges over. The replicas that compete
-- for the lease and the queue of a controller are the exceptions: their steps come in any order. The
-- replicas share one clock, and nothing else writes or deletes the lease.
--
-- A loop is a recursion on its list. The chain of jump hosts runs on fuel: one more than the number of
-- keys of hosts is enough. The cut into shards runs on fuel too: one more than the number of hosts,
-- which is enough where the bound on hosts is positive, as the schema has it. A shortage of fuel is
-- `none`, and an error of the start of a run.
-- The choice of a username runs on fuel as well, one for each attempt: 99 attempts are enough for at
-- most 98 users and a username of at most 121 characters. A shortage of fuel is `none`, and an error of
-- the tracking of a login.
-- The random suffixes of usernames, and `toLowerCase` of an email address, are parameters. A text is its
-- code points, where JavaScript counts UTF-16 units.
--
-- A `Record` or a `Map` is a list of pairs in the order of insertion. A label map is read by its own
-- keys only: a label named like a property that JavaScript objects inherit is not modelled.
--
-- Not modelled: the preparation of a run (`prepareRunResources`), which comes as an action of its own;
-- logging to the console; the variables of inventories; the fields of a status that the operator
-- never writes; the schemas' validation, of which change requests take the result; the other routes,
-- OpenID, the watch itself and the user interface.
pub mod Base
pub mod Descriptors
pub mod Labels
pub mod Refs
pub mod Permissions
pub mod Inventory
pub mod Sharding
pub mod Jobs
pub mod Runs
pub mod Schedules
pub mod Leases
pub mod Informer
pub mod Effects
pub mod Cluster
pub mod Api
pub mod Sessions
pub mod Users
pub mod Access
pub mod ChangeRequests
pub mod Routes
pub mod Settings
pub mod Tests
