-- ===== src/Lib.antt =====
-- TMask Transporter: the accounts of its web application, the jobs it queues, and the worker that
-- carries them out.
--
-- The web application (services/web) keeps users and jobs in a database and queues a task for each
-- job; the worker (services/worker) runs the task: it builds the parameters of a handler, lets the
-- handler move the file, stores progress and log rows through two callbacks, marks the job, and queues
-- the tasks that tell the owner. This library models these parts as functions of their state.
--
-- Files:
-- - Base: names that all share, Boolean tests, lists, and the text functions of Python that the code
--   calls (Base.Text on lists of codes, Base.Str on native texts).
-- - Accounts: the `User` row and its roles (services/web/apps/accounts/models.py). Accounts.Lockout is
--   `_is_locked_out` to `_register_successful_login`, Accounts.Login the views `login_view` and
--   `totp_verify` with their helpers (accounts/views.py), Accounts.Session the session and the
--   recovery codes (accounts/totp.py), Accounts.Roles `require_role` (accounts/permissions.py) and
--   `change_user_role`. Accounts.Enrolment switches the second factor on and off (accounts/totp.py,
--   views.py). Accounts.Guessing, Attempts, SecondFactor, Recovery, Roles.LastAdmin, Enrolment.Codes
--   and Enrolment.Enabled hold proofs.
-- - Worker: what a handler does to the world (events, temporary files, exceptions), with the monad
--   that the handlers are written in. Worker.Params is the dictionary of `_build_params`
--   (worker/tasks.py) and the tools that the handlers call, Worker.Files the keys, gpg and checksums
--   (worker/modules), Worker.Progress the expression for progress lines, Worker.Rsync, Worker.Sftp and
--   Worker.Relay the handlers method by method. Rsync.Command builds its commands and Rsync.Preview is
--   `preview`; Worker.Effects, Worker.Starts, Worker.TempFiles and the other children of the handlers
--   hold proofs.
-- - Transfers: the row of a job and the views that stop and delete it
--   (services/web/apps/transfers/models.py, views.py), and `cleanup_orphan_jobs`. Transfers.Execute is
--   the task `execute_transfer` (worker/tasks.py), Transfers.Paths the checks on paths
--   (web/apps/transfers/forms.py); Transfers.Outcome and Transfers.Lifecycle hold proofs.
--   Transfers.Runner is `_run_transfer` with its parameters and the preview, Transfers.Upkeep the jobs
--   made from schedules and the removal of old files (worker/tasks.py); Transfers.Placed holds proofs.
-- - Webhooks: the delivery log and the circuit breaker (services/web/apps/webhook_deliveries).
--   Webhooks.Guard is `block_private_url` (worker/url_validator.py), Webhooks.Payload the bodies and
--   Webhooks.Send the request and the task (worker/notifications.py, worker/tasks.py);
--   Webhooks.Breaker holds proofs.
--
-- - Masking: `mask_value` (worker/modules/masking/faker_engine.py) and the loop over the columns of a
--   row that the handlers of the databases have in common. Masking.Managed is the pages of the rules
--   (web/apps/masking/views.py, models.py). Masking.Columns, Masking.Kept and Masking.Applied hold
--   proofs.
-- - Database: transfers between databases. Database.Params is the dictionary of
--   `_build_db_transfer_params` and the drivers, Database.Pipe the pipe and the retries,
--   Database.Counts the row counts and the lengths of columns, which the handlers share.
--   Database.Postgres, Mysql and Mssql are the handlers (worker/modules/postgres, mysql, mssql) method
--   by method: Stream the relay of a dump line by line, Mysql.Values the values of a statement,
--   Mssql.Command the commands, Mssql.Schema the statements that make tables. Database.Task is the row
--   of a job (services/web/apps/db_transfers/models.py) and `execute_db_transfer` (worker/tasks.py).
--   Written, Retries, Postgres.Rows, Postgres.Dump, Mysql.Quotes, Mssql.Cleanup, Task.Rules and
--   Task.Outcome hold proofs.
--
-- - Notices: the e-mails and Telegram messages on a job (worker/notifications.py) and the tasks that
--   send them; Notices.OptOut holds proofs.
-- - Connections: the row of a connection (services/web/apps/connections/models.py),
--   Connections.Testers the four functions `test_connection` (connections/ssh_tester.py, pg_tester.py,
--   mysql_tester.py, mssql_tester.py), Connections.Health the health check and Connections.Alerts what
--   the owner is told of it (worker/tasks.py, worker/notifications.py), Connections.Portability the
--   export and import (connections/portability.py). Connections.Managed is the pages that make, edit
--   and remove connections, Connections.Actions those that test, scan, export and import
--   (connections/views.py, forms.py), Connections.Browse the browser of remote files
--   (connections/sftp_utils.py), Connections.Tables the lists of tables and columns
--   (connections/pg_utils.py, mysql_utils.py, mssql_utils.py). Connections.Alternation, Transported,
--   Browse.Walked and Browse.Closed hold proofs.
-- - Api: the REST API with its tokens (services/web/apps/api/auth.py, models.py, views.py); Api.Start
--   has the triggers, Api.Lists the views of jobs, and Api.Triggers holds proofs. Profile is the views
--   that make and remove tokens, Profile.Hook the form, the page and the test of a webhook
--   (services/web/apps/accounts/views.py, forms.py, services/web/utils/url_validator.py);
--   Profile.Tokens holds proofs.
-- - Audit: the comparison of two states of a row and the entries of the log
--   (services/web/apps/audit_log); Audit.Changes holds proofs.
-- - Pages: what the pages of the web application have in common: roles, POST only, 404, and tables of
--   rows by key. Scheduler is the pages of schedules with the periodic tasks of Celery beat
--   (services/web/apps/scheduler), Uploads the form and the pages that make transfers
--   (services/web/apps/transfers/forms.py, views.py), Flows the pages of flows
--   (services/web/apps/flows). Scheduler.InStep, Uploads.Batch, Uploads.Added, Uploads.Created and
--   Flows.Stored hold proofs.
-- - Dashboard: the statistics of the dashboard (services/web/apps/dashboard/stats.py), with proofs in
--   Dashboard.Counted. Monitoring is the collector of metrics
--   (services/web/apps/monitoring/collectors.py) with the check of its token (auth.py).
--
-- Conventions: a date and time is a number of microseconds, given as an argument where the code asks
-- the clock. A view or a task is a function from the rows and the session that it reads to its answer
-- and what it writes; a save of some fields writes those alone. An exception is a value of
-- `Worker.Exn` with its text. The database, Django, pyotp, the processes, the network, the broker and
-- the file system are records of functions (Platform, Tools, two named Server, Ssh, Remote, two named
-- Broker, Disk, Network, Web, Drivers, Faker, Channels, Probe, Store, Fernet, Site, Source, Mint,
-- Lister, Catalog, Scanner, Calendar, and records named Printer for what the log shows), about which a
-- theorem assumes only what it names. The loops with a counter, the retries of the handlers, recur on
-- the attempts left, of which there are three, as in the code; no other fuel is used. The threads of a
-- pipe are put one after another: the relay, and then what the processes write to their standard
-- errors.
--
-- Not modelled: the refusal of a counter above 32767 by its column (failed logins and failed webhooks), page rendering and messages, the views that only list or show rows, the pages of
-- database transfers, the making of users, and configuration. Letters are
-- upper-cased in ASCII, the alphabet of recovery codes.
pub mod Base
pub mod Accounts
pub mod Worker
pub mod Transfers
pub mod Webhooks
pub mod Masking
pub mod Database
pub mod Notices
pub mod Connections
pub mod Api
pub mod Audit
pub mod Profile
pub mod Pages
pub mod Scheduler
pub mod Uploads
pub mod Flows
pub mod Dashboard
pub mod Monitoring
