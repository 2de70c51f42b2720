-- ===== src/Lib.antt =====
-- A model of MailView, the multi-tenant layer of a mailing-list manager, and of some of the packages
-- under it, with the theorems that its services rest on.
--
-- The Control Plane (internal/mailview/control) is a set of operations on PostgreSQL tables. Each
-- operation opens a transaction, checks its conditions in order, writes rows and an audit event, and
-- commits, or returns an error and is rolled back. Here a table is a list of records, a statement a
-- function on the record of the tables, and an operation a `Tx`: a state-passing computation that ends
-- in a value or in one of the program's errors (Prelude/Transactions). `in_tx` is BeginTxx with its
-- deferred Rollback; Tenancy.antt (internal/mailview/tenant/context.go) adds the tenant of the request.
--
-- The files and what they model:
--   Control/Db.antt             the shared rows (control/models.go, migrations/migrations.go, the audit
--                               log of control/service.go)
--   Control/Names.antt          NormalizeSlug (control/service.go), validTenantHostname (control/domains.go)
--   Control/Tenants.antt        CreateTenant, UpdateTenantStatus, CreateMembership and
--                               ReplaceMembershipRoles (control/service.go); Control/Seeds.antt has the
--                               seeded roles, Tenants/Roles and Tenants/Owner the proofs
--   Control/Slugs.antt          ChangeTenantSlug, ResolveTenantSlug (control/slugs.go)
--   Control/Rbac.antt           HasTenantPermission, ListTenantPermissions and the denials
--                               (control/rbac.go); Rbac/Spec has what a permission is, in terms of rows
--   Control/Workflow.antt       TransitionCampaign, GetCampaignWorkflow (control/campaign_workflow.go)
--   Control/Impersonation.antt  StartImpersonation, ApproveImpersonation, RevokeImpersonation,
--                               ValidateImpersonationGrant (control/impersonation.go)
--   Control/Domains.antt        tenant domains in parts (control/domains.go): Table, Ownership,
--                               Certificates, Routing, Renewal; the other children are proofs
--   Jobs/Envelope.antt          Sign and Verify (internal/mailview/job/envelope.go)
--   Jobs/Import.antt            ProcessJob, importRows, importBatch, CancelJob and fail
--                               (internal/mailview/importjob/service.go)
--   Control/ApiKeys.antt        CreateAPIKey, RevokeAPIKey (control/api_keys.go)
--   Control/Recovery.antt       GenerateRecoveryCodes, UseRecoveryCode (control/service.go)
--   Contacts/Service.antt       lists, subscribers and subscriptions of tenants
--                               (internal/mailview/dataplane/contacts.go) over Contacts/Tables;
--                               Contacts/Requests has the requests as statements of one tenant
--   Importer/Session.antt       the batches that Start writes (internal/subimporter/importer.go);
--                               Importer/Table has its statements (queries/subscribers.sql), and
--                               Importer/Lines counts the lines of a file (countLines)
--   Control/Mfa.antt            EnableTOTP, TOTPSecret, MarkUsed, DisableTOTP (control/mfa.go)
--   Sending/Pipe.antt           what the threads of a campaign share (internal/manager/pipe.go, manager.go);
--                               Worker, Feeder and Cleaner are the threads, a step at a time, and
--                               System their interleaving; its children are proofs, and Schedule
--                               plays a given order of steps
--   Auth/Users.antt             permissions on lists (internal/auth/models.go) of users as
--                               setupUserFields prepares them (internal/core/users.go)
--   Auth/Gate.antt              API tokens, Middleware and Perm (internal/auth/auth.go), as the API's
--                               routes that have Perm put them together (cmd/handlers.go)
--   Support/Tokens.antt         internal/tmptokens/tmptokens.go
--   Support/BufLog.antt         internal/buflog/buflog.go
--   Support/Events.antt         internal/events/events.go
-- The modules named Examples, and Auth/Entrance, run the definitions and apply each theorem to such a run.
--
-- Representation. A text is its list of bytes; white space and letter case are ASCII's. A UUID and a
-- user's id are numbers, 0 being uuid.Nil and NULLIF's zero; new ids, random bytes and the clock's
-- reading are arguments. A time is a number of nanoseconds. An `int` is a natural number: the tests
-- that meet a negative one (`< 1`) treat it as 0. The minutes of an impersonation are a 64-bit pattern,
-- because the source multiplies them before it tests the product. SELECT without an order takes the
-- first row of the list; ORDER BY created_at is the order of the list.
--
-- Given, not defined: the DNS resolver, net.ParseIP, the rows that encoding/csv reads, HMAC, SHA-256,
-- base64, the AEAD, the session store, the texts of UUIDs and times, and JSON. The theorems on
-- envelopes and on TOTP name what they ask of these.
--
-- Loops are recursion on the list that the source walks; `stringInt` runs on its buffer's 20 bytes.
-- The threads of a campaign have no fuel: a run is a relation, and the number of its steps is bounded.
-- In a campaign a step is one access to what the threads share; a wait for the clock is no step.
--
-- Not modelled: row-level security, a statement that the database refuses for another reason than a
-- key, columns with creation and update times, the metadata of audit events, foreign keys on the
-- acting user, the concurrency of transactions beyond their order. Platform roles, incidents,
-- contact governance, infrastructure, quotas, the creation of import jobs and their files, a
-- cancellation during a running import, the rendering of messages, templates and links, the sliding
-- window, the start of sessions, OIDC, the reading of import files and the HTTP handlers are not
-- modelled.

pub mod Auth
pub mod Contacts
pub mod Control
pub mod Importer
pub mod Jobs
pub mod Prelude
pub mod Sending
pub mod Support
pub mod Tenancy
