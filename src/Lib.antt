-- ===== src/Lib.antt =====
-- RunBuoy: a command line tool that runs jobs and queues their events, and a server that ingests
-- the events, keeps one row for each run and pushes notifications and Live Activities to phones.
--
-- The parts and their files:
--   Prelude: shared names; `Prelude.Table`, the SQL statements on a table as a list of rows, oldest
--   first; `Prelude.Sort`, its ORDER BY and LIMIT; `Prelude.Where` and `Prelude.Keys`, what
--   statements and deletions by key keep; `Prelude.Exec`, fallible code on a state, with
--   `Prelude.Exec.Keeps`, its invariants, triples and totality.
--   Server.Enums, Server.Rows, Server.Database: the enumerations of server/app/schemas.py, the tables
--   of server/app/models.py and the settings of server/app/config.py.
--   Server.Payload: `live_content_state`, `live_payload`, `normal_payload` and `_priority` of
--   server/app/services.py, and the deadline and the results of server/app/apns.py.
--   Server.Quota: the counters of server/app/abuse.py and the daily quota of notifications.
--   Server.RateLimit: `enforce_rate_limit` and the cleanup of counters of server/app/abuse.py.
--   Server.Outbox: `_coalesce_outbox` of server/app/services.py.
--   Server.Notify: `create_notification` and its pushes, with `bump_workspace_revision` of
--   server/app/sync.py.
--   Server.Schedule: `schedule_run_pushes`.
--   Server.Ingest: `ingest_events` and `_validate_transition`.
--   Server.Apns, Server.Outcome, Server.Delivery: `OutboxProcessor` of server/app/outbox.py: its
--   requests, what it writes into the rows, and its rounds.
--   Server.Accounts: pairing sessions, webhooks, quota locks and the audit log.
--   Server.Retention: `cleanup_retention` of server/app/retention.py, with `Server.Retention.Batch`
--   and, as one function of the database, `Server.Retention.Swept`.
--   Server.Auth: server/app/auth.py. Server.Lifecycle and Server.Lifecycle.Deletion: revocation,
--   reset and deletion of server/app/lifecycle.py.
--   Server.Pairing, Server.Runs, Server.Hooks, Server.Devices and Server.Activities: the endpoints of
--   server/app/api.py that write, each after its rate limit, which commits on its own, with
--   `acquire_quota_lock` of server/app/abuse.py in Server.Quota.
--   Server.History: the pages of history of server/app/api.py and the cursors of server/app/sync.py.
--   Server.Snapshot: `sync_snapshot` of server/app/api.py.
--   Cli.Redaction: `assert_safe_remote_payload` of cli/src/runbuoy/security/redaction.py.
--   Cli.Store, Cli.Queue and Cli.Metadata: `EventQueue` of cli/src/runbuoy/persistence/store.py.
--   Cli.Sync: `flush_pending` and `drain_pending` of cli/src/runbuoy/networking/client.py.
--   Tests: concrete databases, batches and rounds.
-- Ingestion calls scheduling, which calls notification and the outbox; the worker takes the outbox
-- rows that these leave.
--
-- The conventions. A handler is a function of the database; it returns a value and the database, or
-- an error, and an error carries no database since its transaction is rolled back. `catch` stands
-- for a savepoint, and `attempt` for one transaction of several. Identifiers, digests and tokens are numbers, given out by the counter `next_id`;
-- a coalesce key is a data type with a constructor for each format, which is faithful since no
-- identifier has a colon. Instants are microseconds since the epoch, in UTC; a fraction of progress
-- is in millionths. A handler reads the clock once. The table of a component keeps the order of
-- insertion, and a query without an order takes the oldest row. An order by identifiers is that of
-- their numbers, and an answer holds the rows whose fields it shows.
-- The queue's methods are functions of its store; its errors roll back too.
--
-- Bounds. The only loop of the server without a structural bound is the worker's, and `drain` has
-- the limit of the code as its bound; the tries that a pending row may still take are bounded by
-- `outbox_max_attempts`.
-- `drain_pending` has its bound on the batches too; without one, as cli/src/runbuoy/cli/app.py calls
-- it, the loop is the step relation `DrainsAll`.
--
-- Parameters: the network of the upload, the provider's answer `send`, the cipher `decrypt` and
-- `encrypt`, the keyed digest `token_hash`, the digests `run_id_of` and `event_id_of` that name the
-- runs and events of webhooks, the clock, and the text `id_text` of an identifier.
--
-- Not modelled: a database that fails while the notification quota is counted, several workers at
-- once (the code skips locked rows), the cut of a collapse identifier to 64 characters, the text of
-- JSON, HTTP with the unpaged lists, the Base64 text of a cursor, logging and metrics, the cut of
-- an upload's error text, and the iOS application.
mod Prelude
pub mod Cli
pub mod Server
mod Tests
