-- ===== src/Lib.antt =====
-- The review backend of the repository: final cuts of video items are uploaded in versions, reviewed
-- by issues on a timeline, approved, and packed for download. This library models the core of
-- backend/app, as pure functions on records of tables.
--
-- - Review: the commands of
--   backend/app/modules/final_cut_review/infra/repositories.py. Review/Store has the
--   tables of infra/sqlalchemy_models.py beside it; Review/Guards the reading and refusing helpers with
--   domain/invariants.py and infra/issue_workflow.py; Review/Issues, Projects, Items, Finalize and
--   Revoke the handlers, each from a store to a result; Review/Execute the dispatch of `execute`.
--   Review/History has the sequences of successful commands: row locks make concurrent requests
--   sequences, and a command that raises is rolled back. Review/Sync relates the status of an item
--   to its open issues, command by command. Review/Workflow is the abstract machine of an item's
--   life (Step, Steps, Moves), against which the commands are set; Workflow/Frozen, Complete, Locks and Agreement
--   draw what follows for approved items, lock versions and finalizations. Review/Examples has
--   runs on a small store.
-- - Admission: the in-process limiter of backend/app/upload_parts.py with its leases; a list of operations
--   stands for every interleaving of threads, since the limiter's lock makes each method atomic.
-- - Packages: the project packages of the same repositories.py, as a table of rows. Packages/Builds
--   has claim_package_build, publish_prepared_package and record_package_build_failure;
--   Packages/Downloads the download sessions and leases; Packages/Limits the end of prepare_package
--   with the estimates of backend/app/settings.py. Packages/Operations lists the calls,
--   Packages/Edits what a call may do to a row, which Packages/Tracking follows through a list of
--   calls. Sound, Quota, Exclusive, Fencing, Sessions and Crashes draw what holds of such lists.
--   Review/Store has the columns of packages that a revocation writes. An event that a package operation adds to the outbox is a part of its answer.
-- - CommandBus: the bus of
--   backend/app/modules/final_cut_review/application/command_handlers.py with the idempotency records
--   of repositories.py, over any ports and any repository, which are a record of functions.
-- - Outbox: the dispatcher and the receipts of
--   backend/app/modules/review_integration/outbox.py.
-- - TechnicalQc: backend/app/technical_qc.py. Intervals has the intervals that the automatic check of a
--   version finds, sorts and merges; Tasks the rows of technical_qc_tasks and the calls of a worker
--   under its claim; Selection the candidates and the rounds over the projects; Claims the
--   reconciliation and the claims; Workers the calls in any order.
-- - Timecode: the conversions of
--   backend/app/modules/final_cut_review/domain/timecode.py.
-- - WriteGuard: the attempts on the shared code in
--   backend/app/modules/review_access/policies.py.
-- - Base: booleans, lists, tables, results with the error codes of domain/errors.py, and integers.
--
-- Texts and identifiers are numbers, 0 being the empty text, and times are numbers of microseconds.
-- Digests, download tokens and error codes of tasks are texts, which are lists of numbers. The clock,
-- new identifiers, the managed files, the media probe and the regrouping of thumbnails are fields of
-- the environment that a command takes; the operations on packages and tasks take the clock, new
-- leases and what the file system answers as arguments. Most loops are recursions on lists. Two take
-- fuel: the rounds of the selection have one round more than tasks to select, and each round but the
-- last selects one; the rounds of the claims have `candidate_scan_limit`, and each makes one
-- transition at least. Each integer is unbounded, as in Python.
--
-- Not modelled: the unique constraints of the database, rows that are skipped since another
-- transaction locks them, the answers' summaries, the deletion of projects and items (the commands
-- `DeleteProject`, `DeleteReviewItem` and `DeleteReviewItemsBatch` of `execute`) and its commands
-- `RerunProjectTechnicalQc`, `RetryFinalizationCleanup` and `PrepareFinalizedPackage`, of which only
-- the admission of a package is modelled, the sources of a package and the writing
-- of its archive, the tasks of the media workers, the discovery of quality tasks, the HTTP routes,
-- most settings, and telemetry.
pub mod Admission
pub mod Base
pub mod CommandBus
pub mod Outbox
pub mod Packages
pub mod Review
pub mod TechnicalQc
pub mod Timecode
pub mod WriteGuard
