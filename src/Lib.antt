-- ===== src/Lib.antt =====
-- A model of the exception-investigation platform under temp/: an orchestrator that accepts
-- investigations into a platform database, and workers that carry them out. Both work on the same
-- tables; a worker holds a row by a lease, and writes checkpoints into it so that another worker can
-- go on after a crash.
--
-- Prelude: names of the libraries, Boolean tests on native numbers, lists, texts and times.
--
-- Platform: the tables (temp/libs/platform_db/src/platform_db/models). Platform/Rows has the rows,
-- Platform/Table the SQL statements on one table, Platform/Update the guarded update of one row by
-- key, Platform/Consistency what holds between transactions: unique keys, at most one active row per
-- exception (the index investigations_active_uniq), and columns that fit the status of their row.
--
-- Worker (temp/services/worker/src/worker):
--   Worker/Repository   db/platform/repositories.py: each method is a function of the table with its
--                       result. Leases says what leases exclude, Consistency what is kept.
--   Worker/Failure      application/record_investigation_failure.py, one transaction for each method;
--                       Retries puts claims and failures in sequence, Between is about commits of
--                       others between the read and the update, which the other theorems leave out.
--   Worker/Errors       the exceptions of the ports and how an attempt translates them.
--   Worker/Exec         the steps of an attempt: state passing with exceptions, in which every
--                       transaction first meets what other sessions committed, and may fail to commit
--                       or commit with its reply lost. Calls of the write-back port are traced.
--   Worker/Checkpoints  application/investigation_checkpoints.py
--   Worker/Analysis, Worker/Comment, Worker/Context, Worker/Report   the values of domain/
--   Worker/Investigate  application/investigate_exception.py. Steps and Success follow the row through
--                       an attempt, Sending counts its calls of the write-back port, Completes
--                       concludes, Keyed is about the primary key.
--   Worker/Handler      adapters/nats/handler.py and db/platform/lease_manager.py: a delivery from its
--                       claim to the reply to the broker. Which task of the race ends first, and where
--                       a cancelled action stood, are parameters; Heartbeat has the rounds of a lease.
--   Worker/Admission    domain/admission.py, with an interface for the floats: Window and Target
--   Worker/Supervisor   bootstrap/supervisor.py: the admission loop cut at its awaits. Steps has the
--                       step relation over loop, tasks and windows, Invariant what it keeps, Drain the
--                       end of the loop.
--   Worker/Resolve      application/resolve_control_context.py: the loop, with Build for what it builds;
--                       Rounds is about one round, Ends about the loop
--   Worker/Settings     the validation in config/settings.py, and the admission that
--                       bootstrap/runtime.py builds
--   Worker/Reconciliation, Worker/Reconcile   db/platform/reconciliation.py, application/reconcile.py
--
-- Orchestrator (temp/services/orchestrator/src/orchestrator):
--   Orchestrator/Domain        domain/investigation.py
--   Orchestrator/Transaction   a READ COMMITTED transaction as a sequence of statements, before each
--                              of which other transactions may commit; an exception rolls it back.
--   Orchestrator/Requests, Orchestrator/Repositories   the statements of db/repositories, with the
--                              unique keys they may hit
--   Orchestrator/Accept        application/request_investigations.py, and the admission of
--                              application/request_filtered_investigations.py; Keys is about its
--                              identifiers, Batch about its answers, Kept, Drawn and Outbox about the
--                              events that it adds
--   Orchestrator/Publish       application/publish_outbox.py: a publication pass. Loop and Settled
--                              follow each event through it.
--   Orchestrator/Select        the paging selection of
--                              application/request_filtered_investigations.py: First is about one
--                              page, Split about the cut after it, Pages about all
--   Orchestrator/Status        application/query_status.py: the status of a request, with Batch for the
--                              status of several investigations
--
-- Tests has concrete rows and runs of the theorems.
--
-- Times are natural numbers of microseconds, UUIDs and names that are only compared are natural
-- numbers, and no arithmetic of the program wraps. Fuel is the source's own two attempts at an
-- insert; more than the candidates of a paging selection, each page of which reads one at least; and
-- more than the ticks of a rebuild wait, in each round of which the clock advances.
--
-- Not modelled: the HTTP interface, the broker and object-store adapters, the language model, the
-- CTC database, start-up and metrics, whose results are parameters where the model needs them; the
-- resetting of the configuration, and the queries of reports. Logs and traces are left out, and the
-- broker takes every reply to a delivery. A read within an attempt is a transaction of its own, as
-- in the source. In the acceptance of a batch a failed commit of the orchestrator is not
-- distinguished from other exceptions that roll back; a publication pass has the answers of the
-- database as a parameter. What the CTC client replays after a 401 is not counted as a second call
-- of the write-back port.
pub mod Prelude
pub mod Platform
pub mod Worker
pub mod Orchestrator
pub mod Tests
