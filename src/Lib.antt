-- ===== src/Lib.antt =====
-- The rules of Autohub's hub (modules/hub/app/features): which agent plans may take work, how the
-- runs of pull requests move, which work of a milestone goes out in one
-- batch, and how task flows and work plans go on.
--
-- The parts, and the files that model them. Paths are below modules/hub/app/features.
--
-- Catalog: the gateway of the AI catalogs, ai_catalogs. A catalog is a paid plan. Every dispatch asks
-- the gateway, which looks at the catalog's availability and capacity, at the quota policy of its kind,
-- and at a ledger of admitted work.
--   Catalog/Model    models.py and the settings of the policies: AiCatalog is AICatalog.
--   Catalog/Codex    policies/codex_window.py: short and long holds, and the probe after a hold. In
--                    Codex/Hold, Codex/Probe and Codex/Retry: observations, probes, runs of events.
--   Catalog/Daily    policies/daily_quota.py: Jules' daily limit, by calendar day or rolling window.
--   Catalog/Store    repos.py: the tables, their queries and the ledger of dispatches.
--   Catalog/Gateway  services.py: request_dispatch, the quota events and the operator's switches.
-- Run: the runs of pull requests, project_management/pipeline_runs. A run has attempts; workers
-- advance it under a lease, operators pause, cancel and answer questions.
--   Run/Model        models.py.
--   Run/Tables       repos.py: the tables of runs and attempts, queries and flushes.
--   Run/Lease        repos.py and usecases/leases.py: acquire, renew, release.
--   Run/Transitions  usecases/transitions.py and the GitHub waits of usecases/lifecycle.py.
--   Run/Control      usecases/control.py: pause_run, cancel_run, attach_pr, complete_attempt.
--   Run/Prepare      usecases/lifecycle.py: prepare_implementation.
--   Run/Catalogs     usecases/catalogs.py: which catalog delivers a run's work.
--   Run/Advance      usecases/advancement.py: the bounded loop, on an interface of what it calls.
--   Run/Questions    interaction_service.py and usecases/interactions.py.
--   Run/Consistency  no code of its own: an invariant of runs and attempts.
-- Pipelines/Gate     project_management/pipelines/gate.py: the verdict on a pull request's checks.
-- Sdd/Batch          project_management/sdd/batch_policy.py: ordered_selection.
-- Flow: runs of declared steps, execution/flows. Outside workers carry out a run's tasks, and people
-- approve, revise, cancel and resume.
--   Flow/Model       models.py, and the contracts of packages/sdk/src/autohub_sdk/flow.py.
--   Flow/Declared    check_graph of that file: what the SDK accepts as a flow.
--   Flow/Contract    validation.py, and the first part of runtime.py.
--   Flow/Runtime     runtime.py: FlowRuntime.plan. Flow/Results: FlowRuntime.apply.
--   Flow/Commands    runtime.py: command_transition.
--   Flow/Worker      repos.py and worker.py: the lease, and the transactions of FlowWorker.advance.
--   Flow/Service     services.py: command. Flow/Host: start and activate.
--   Flow/Attempts    the attempts that each step has, against the counts in its row.
--   Flow/World       a run with the actions that workers hold, and any order of its transactions.
--   Flow/Progress    no code of its own: the contract of a flow as a step relation. Flow/Rows and
--                    Flow/Soundness relate the rows and attempts to it.
-- Plans: work plans, project_management/work_plans, whose items depend on each other.
--   Plans/Graph      schemas.py: validate_graph. Plans/Model: models.py.
--   Plans/Register   services.py: create.
--   Plans/Control    services.py and execution.py: control and complete_plan.
-- Schedule           common/utils/calc_schedule.py, beside features.
-- Base               lists, tests, and Result: a value, or the ProjectError that the code raises.
--
-- How code and model correspond. A table is a list of rows, a transaction a function from tables to a
-- Result of tables, a lock nothing (a transaction runs as one step). Times are natural numbers of
-- microseconds, and all of them UTC, so conversions to UTC are left out. Identifiers, keys, SHAs,
-- branches, URLs and texts that the code only compares are numbers; a text that the code writes is a
-- constructor or a string without the values that it formats. JSON columns are read as the settings
-- they hold, with one constructor for what does not validate. Stored values keep the bounds that their
-- validators give them only where a condition says so. The automatic updated_at column is left out.
--
-- What stands outside the code and is a parameter: the local midnights of a time zone
-- (LocalMidnight, with the law that the next midnight is later), croniter, pathlib's view of a path
-- (PathView), the lower case of a designation, the repository of a project and the text of a pull
-- request's link in attach_pr, the answers of GitHub (PullRead), and the workers' lifecycle under
-- the advancement loop (Lifecycle). JSON Schema's verdict on a value and the SDK's content digest
-- are the parameters valid and digest of Flow. The ids of a run's steps are a parameter ids; the
-- code draws them with uuid4, and a theorem that needs them to be different says so. The text of a
-- request and its digest are the parameter Requests.
--
-- Fuel: the ordering loop of Sdd/Batch and the rounds of Plans/Graph get one step for each key, and
-- each step takes a key out. The advancement loop has eight steps, as in the code.
--
-- Not modelled: the HTTP routes, schemas' validators and database mapping, the GitHub and Jules
-- clients, the enrolment of a pull request, resume_run, delivery and its retries, the reading of CI
-- and of SDD progress, the edits and the execution of work plans, SDD activities and the batch
-- driver, projects, webhooks, notifications, dispatchers, the registration of releases and the
-- worker adapters of flows, schedules beside their timing, the MCP server, the SDKs and the web
-- interface.
pub mod Base
pub mod Catalog
pub mod Run
pub mod Pipelines
pub mod Sdd
pub mod Schedule
pub mod Flow
pub mod Plans
mod Tests
