-- ===== src/Lib.antt =====
-- Verification of mosaid, a personal agent in Go that its owner talks to over Telegram. All paths are
-- from the repository's root.
--
-- The parts and how they interact. The Telegram gateway (internal/telegram/gateway.go) polls updates,
-- lets those of the owner through, and puts them into the inbox of the database
-- (internal/storage/db.go); the agent answers each message, and the answer goes through the outbox.
-- Tools and skills are judged by the policy (internal/policy/policy.go), and what the policy does not
-- allow outright needs an approval (internal/approval/approval.go), which the owner resolves and which
-- authorizes a call. The scheduler (internal/scheduler) keeps jobs and their runs in the same
-- database; its loop claims a run, asks the policy gate, executes it and settles it. Posts to
-- Instagram are drafts of that database too (internal/instagram), which are claimed and then published.
-- The agent (internal/agent) takes the owner's commands, for approvals and for the memory
-- (internal/memory), and hands every other message to the model within a budget. Skills
-- (internal/skills) call the tools that their manifests declare.
--
-- Which file models which part:
--   Policy                 internal/policy/policy.go: Evaluate is `evaluate`, Validate is `validate`
--   Approval               internal/approval/approval.go: the methods of Manager over the tables
--                          approval_requests and approval_uses; Single and Steps follow a request
--                          through transactions, Uses has what an authorization means,
--                          Phases the abstract life of a token, which Refinement relates to the tables
--   Budget                 internal/security/limits.go: NewBudget, consume and the Use methods
--   Registry               internal/tools/registry.go: Register and Execute
--   Queue                  internal/storage/db.go: Ingest, ClaimInbox, CompleteWithOutbox, FailInbox,
--                          ClaimOutbox, OutboxSent, OutboxFailed and the restart in Open
--   Gateway                internal/telegram/gateway.go: the loop of Run over the updates of a poll
--   Gateway.Drains         drainInbox and drainOutbox; InboxEnds and OutboxEnds show that they end
--   Audit                  internal/audit/audit.go: Append and Verify over the table of entries
--   Instagram              internal/instagram/store.go: the methods of Store over the drafts and their
--                          events; Attempts and Published follow a draft, Due has what a claim means
--   Instagram.Publish      internal/instagram/service.go: Resume; Settled follows an attempt to its end
--   Skills.Names, Skills.Text, Skills.Versions
--                          the patterns, texts and versions of internal/skills/manifest.go
--   Skills.Json, Skills.Schema, Skills.Input
--                          JSON values, validateSchemaNode of manifest.go, ValidateInput of
--                          internal/skills/schema.go; Input.Shapes and Input.Safe have its
--                          type assertions
--   Skills.Manifest        the manifest; Manifest.Checks has Validate of internal/skills/manifest.go
--   Skills.Registry        internal/skills/registry.go; Valid, Within and Latest have what holds of the
--                          manifests, of the calls of a skill, and of the version that it resolves to
--   Instagram.Service      the other methods of internal/instagram/service.go; Approved has what a
--                          publication with a token means, Drafted what a preparation stores
--   Memory                 internal/memory/memory.go: Candidate, Approve, Remember and Forget; Clean
--                          has what is kept
--   Agent, Agent.Chat      Handle of internal/agent/agent.go: the commands, and the answer of the model;
--                          Guarded has what a message can change
--   Scheduler.Types        internal/scheduler/types.go and the scheduler's tables of
--                          internal/storage/db.go
--   Scheduler.Timestamps   formatTime, and how SQL compares the texts it writes
--   Scheduler.Normalize    normalizeJob; Normalize.Bounds has what it accepts
--   Scheduler.Recurrence   NextRecurring and boundedBackoff
--   Scheduler.Store        the methods of Store in internal/scheduler/store.go but Claim
--   Scheduler.Claim        Claim with claimPendingRun, claimDueJob and acquireLock
--   Scheduler.Sound, Scheduler.Grants, Scheduler.Ended
--                          the invariant of the tables, what a claim gives, what has ended
--   Scheduler.Gate         internal/scheduler/policy_gate.go
--   Scheduler.Loop         execute of internal/scheduler/scheduler.go
--   Base, Int              tables as lists of rows with the statements on them, signed integers
--
-- How state corresponds. A table is the list of its rows in the order of insertion, and a statement is
-- a function with its WHERE test. A method is one transaction: it takes the tables and the clock's
-- reading and gives the tables after the commit, or those before it with the error. A time is its
-- number of nanoseconds since year 1. The statements compare stored times as texts, and so do the
-- models (`sql_le`). An idempotency key made of a job and a time, or of an
-- update, is that pair or that update. States are what the constraints of the tables allow.
--
-- Bounds and fuel. Loops are structural in the list of updates, rows or polls. Only the two draining
-- loops of the gateway, which go on while the database has something ready, take fuel: for the inbox
-- the attempts that the pending messages have left and one more for each, for the outbox one for each
-- pending reply, and one more, is enough, and the theorems on their end prove it. The schemas and
-- inputs of skills are read with the depth limits of the code, 16 and 32, as the levels that are left.
-- Go's int64 and time.Duration are integers, with the wrap-around written out where the code adds to
-- them; a natural number stands where the code keeps counts.
--
-- What is a parameter: JSON parsing, validation and compaction, the time zone database, SHA-256, base64
-- and random bytes, float64, strings.ToLower and net.ParseIP, the executor, the verifier of scheduled
-- approvals, the guard of messages, the handlers, the Telegram client, the model, the search of the
-- memory, and the Meta client with the artifacts and the stager. The handler and the client of the
-- gateway, the executor and the provider have a state of their own, for all that they read and do; the
-- clock of the draining loops reads it. What is not modelled: errors of the
-- database and of the network, contexts, timers and the locks around them, the files of sessions and of
-- skills, the built-in tools, and the parts around external programs and providers (images, research,
-- the HTTP requests of the providers, MCP, Git, GitHub).
pub mod Agent
pub mod Approval
pub mod Audit
pub mod Base
pub mod Budget
pub mod Gateway
pub mod Instagram
pub mod Int
pub mod Memory
pub mod Policy
pub mod Queue
pub mod Registry
pub mod Scheduler
pub mod Skills
