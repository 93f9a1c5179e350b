-- ===== src/Lib.antt =====
-- LatentDB: the kernel of a multi-tenant record store with roles, workflows, approvals and an audit
-- log.
--
-- The program. Every service of the kernel crate (crates/kernel/src) takes an `AuthContext`, loads what
-- it needs within the context's tenant, asks `authorize` (rbac.rs), and writes in one transaction that
-- ends with the audit event and, where there is one, the domain event; those of migration.rs write their
-- statements one by one. Records (record.rs) follow an
-- object type (object.rs) and, where the type names one, a workflow (workflow.rs); transitions
-- (transition.rs) move a record or ask for an approval (approval.rs), which opens a task (task.rs) and
-- moves the record once it is decided. The contexts come from auth.rs, which logs users in, under a
-- limiter (ratelimit.rs), and checks tokens against the tables of tenant.rs and identity.rs; usage.rs
-- counts the calls, and migration.rs compares a tenant's object types with a template of builder.rs,
-- without changing either. The contracts crate (crates/contracts/src) holds the data.
--
-- The files.
--   Prelude: tests, lists, texts and membership that all files share.
--   Contracts/...: the types and pure functions of crates/contracts/src, one file for each source file;
--     serde_json's `Value` is Json.Value, whose numbers are codes that the host interprets.
--   Kernel/Host, Kernel/Store: what the kernel is given, and the rows of its tables.
--   Kernel/Exec: the async methods as actions on the tables. Each SQL statement, new id and reading of
--     the clock takes the next number of the host's schedule, and the host may refuse any statement; a
--     transaction that does not commit restores the tables.
--   Kernel/Audit, Rbac, Objects, Workflows, Records, Records/Listing, Relations, Tasks, Approvals,
--     Transitions, RateLimit: the services of the source files of these names (audit.rs with event.rs;
--     record.rs in three files; ratelimit.rs), a function for each method under the method's name, and
--     helpers `store_...` for the bodies of the transactions. Kernel/Validate has the validations of
--     field.rs, object.rs, workflow.rs and record.rs.
--   Kernel/Crypto, Principals, Auth, Auth/Login, Auth/Logout: crypto.rs and auth.rs; the login limiter is
--     a field of the state beside the tables, so that no rollback undoes it. The first two lines of
--     `login` make an Attempt; `login_attempt` is the rest.
--   Kernel/Identity, Identity/Roles, Tenants, Usage: identity.rs, tenant.rs and usage.rs.
--   Kernel/Builder/Catalog, Templates, Validation, Drafts: builder.rs (the built-in templates, the issues
--     of a definition, the services of drafts); Kernel/AuditReads: `audit_query` of audit.rs.
--   Kernel/Migration/Planner, Plans, Reports: the pure half of migration.rs (field mappings, plans,
--     reports), and Migration/Sessions, Services: its session row and its services.
--   Kernel/Calls: a history, as a list of calls with the context that makes each. The calls are those
--     of the object type, workflow, record, relation, task, approval and transition services, and not
--     the event queue's (`pending_events`, `mark_event_processed`).
--   Kernel/Exec/Frames, Allows, Writes, Histories: guarantees on the tables before and after, the one
--     walk through all services for any guarantee, the writes of a tenant as a step relation, and what
--     follows for histories. Kernel/Audited: the same for the audit log's account of changes.
--   Kernel/Access, Decisions: the relation `Granted` and the access decision.
--   Kernel/Exec/Returns, Steps, Runs, Commits: how a chain of actions that returned must have run, and
--     how one runs where the database takes every statement.
--   Kernel/Reads, Edits, Gates, Accepted, RateLimit/...: what the answers of the services imply; the
--     values that fit a field's type are described in Accepted/Fits.
--   Kernel/Auth/Accepts, Failures, Refusals, RoundTrip, Welcome, Quiet, Forgets, Revoked,
--     Tenants/Suspended, Identity/Disabled: who is let in, who is refused, and how credentials end.
--   Kernel/Builder/Publishable, Published, AuditReads/Found: what is published, and what is read.
--   Kernel/Migration/Totals, Counts, Fields, Safety, Stored, Activation, Usage/Meters: the sums and the
--     coverage of a plan, what the services leave alone, what is stored, and the counters.
--   Examples...: a small store, and the theorems at concrete inputs.
--
-- Bounds. Page limits and offsets are `i64` by sign and magnitude, counters of the login limiter are
-- `% 2 ^ 32`, and the sum of offset and limit panics past `i64::MAX`. Counts of records and of usage are
-- natural numbers: the overflow of an `i64` sum of counts is not modelled. Times of the UTC clock are
-- natural numbers of nanoseconds. No function runs on fuel but the digits of a printed number, whose
-- fuel is the number's successor, which bounds how many digits it has; every other loop of the code is
-- structural on a list or a string.
--
-- Not modelled. SQLite, sqlx, uuid, chrono, time, argon2, sha2, the random source, serde_json's numbers,
-- the JSON that serde derives and Unicode case are answers of the host, on which nothing is assumed but
-- where a theorem says so. A foreign key that is broken is a refusal of the database like any other. The
-- password check that only spends time on an unknown user is left out, since it changes nothing. A JSON
-- column holds its value, so a column that does not parse is not modelled. Calls are sequential:
-- interleavings within one call are not modelled. The histories of Kernel/Calls do not hold the calls of
-- the login, identity, tenant, usage, builder and migration services. The installation of a template,
-- analytics, the agents, the http api, the modules and the accelerators are not modelled.
pub mod Prelude
pub mod Contracts
pub mod Kernel
pub mod Examples
