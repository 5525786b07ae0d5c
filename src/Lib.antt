-- ===== src/Lib.antt =====
-- VoxeraOS, a local assistant that acts on a computer only through governed skills.
--
-- A request becomes a mission, a list of steps. The mission runner gives each step to the skill
-- runner, which puts the arguments in their canonical form, checks the skill's declared capabilities
-- against the policy, asks for an approval where the policy says so, and only then calls the skill.
-- The evaluator reads the mission's result and decides whether the planner may try again. Operators
-- reach the program through a web panel, whose guards count failed logins and lock addresses out. A
-- submitted request is a job of the queue, whose snapshots say how far it is and whose prompt answers
-- the skill runner's questions; saved automations submit jobs when they are due.
--
-- The files, with the code they model (paths from the repository's root):
--   Base, Py         what the code uses of Python: lists, texts, dictionaries, JSON values, `str`
--   Models           src/voxera/models.py: the policy, manifests, plan steps and results
--   Capability       src/voxera/core/capability_semantics.py: what each capability touches
--   Declaration      src/voxera/core/execution_capabilities.py: what a manifest declares
--   Policy           src/voxera/policy.py: `decide`, the verdict on a call and its reason
--   Skill.Args       src/voxera/skills/arg_normalizer.py: the canonical arguments of a skill
--   Skill.Result     src/voxera/skills/result_contract.py: the canonical result of a skill
--   Skill.Enforce    src/voxera/skills/runner.py: `_enforce_runtime_capabilities`
--   Skill.Report     the events and results that the same file makes itself
--   Skill.Run        the same file's `SkillRunner.run` and `SkillRunner.simulate`
--   Mission          src/voxera/core/missions.py: `MissionRunner`, its run and its dry run
--   Evaluator        src/voxera/core/execution_evaluator.py: `evaluate_run_result`
--   Panel.AuthStore  src/voxera/panel/auth_state_store.py: failures and lockouts of addresses
--   Panel.Guard      src/voxera/panel/auth_enforcement.py: the operator guard and the CSRF guard
--   Automation       src/voxera/automation/models.py, history.py and runner.py, with the submission
--                    of a job in src/voxera/core/inbox.py and the save in
--                    src/voxera/automation/store.py: deferred submissions and their runner
--   Queue.State      src/voxera/core/queue_state.py and queue_object_model.py: the snapshot of a
--                    job's lifecycle
--   Queue.Approvals  src/voxera/core/queue_approvals.py: the prompt that the skill runner calls back
--                    and the grants
--   Queue.Disk       src/voxera/core/queue_paths.py: the queue's files, and the move of a job
--   Queue.Names      which files are jobs (src/voxera/core/queue_execution.py), and the job that a
--                    reference names (queue_daemon.py)
--   Queue.Lifecycle  src/voxera/core/queue_daemon.py: cancel, retry and delete, with the files of
--                    queue_state.py
--   Queue.Requests   src/voxera/core/queue_contracts.py: lineage, and the requests of a payload
--   Queue.Contracts  the same file: the structured results of steps, the block of a job and its
--                    artifacts
--   Queue.Sidecar    src/voxera/core/queue_daemon.py: the sidecar of a failed job
--   Queue.Steps      the daemon's steps as a monad of states that keeps what was done before an
--                    exception
--   Queue.Gate       src/voxera/core/queue_approvals.py: the hard gate and the files of a job that
--                    waits
--   Queue.Answer     src/voxera/core/queue_approvals.py: `resolve_approval`; Stored is what it reads
--                    back, Deny and Resume are its two answers
--   Queue.Execution  src/voxera/core/queue_execution.py: `process_job_file`, with the shutdown of
--                    queue_recovery.py; Intake, Attempt and Loop are its parts in their order
--   Queue.Lock       src/voxera/core/queue_daemon.py: the daemon's lock as steps of processes
--   Examples         runs on concrete inputs
--
-- Conventions. A function that raises returns a sum with the exception's text, or an option where
-- one kind of exception is possible. Code that logs, calls a skill or writes a file returns the
-- list of what it did next to its result. A dictionary whose keys the code enumerates is an
-- association list with one entry for a key; one that holds JSON is `Py.Fields`. Recursion is
-- structural throughout, except for the digits of a number, whose fuel is one more than the
-- number, and the loop over a job, whose fuel is one more than the replans allowed: its turns are
-- no more.
--
-- Parameters. `Skill.Run.Host` is what executes a skill: the entry points and the sandbox of
-- src/voxera/skills/execution.py, and the parser of floats. `Skill.Run.Callback` is the approval
-- callback, in its two forms. `Mission.Run.Runner` adds the registry and a clock. The guards take
-- the Base64 decoder, and `Automation.Runner.Env` says which writes fail, with the digests and
-- the enrichment of a job. `Queue.Execution.Host` is what the execution of a job calls: the
-- reading of its file, the normalization of a payload, the planner, the mission runner, the
-- assistant's lane, the retention of failed jobs, and when a shutdown is asked for.
-- `Queue.Answer.Desk.DeskHost` is what the answer to an approval calls: the mission runner, which
-- takes the approved steps, and the planner. `Queue.Lifecycle.Env` has a clock, and
-- `Queue.Names.Refs` the path that a reference is and the order of a set. No theorem assumes
-- anything of these beyond what it states.
--
-- Simplifications. Text operations treat ASCII letters and spaces only. JSON numbers are
-- integers. Numbers in the rows of the auth state are not negative. A mission log line is its
-- status and the number of results, without its text. The events, notifications and health
-- counters of the queue are left out, and the absolute paths in its files. One operation on the
-- queue sees one time. A stored mission whose texts or steps are of another type than the queue
-- writes raises when it is read. The notes of a mission are left out. The artifacts of a job are
-- a list of what they are made from.
--
-- Not modelled: the daemon's own loop, start-up, retention and reports, the planner and its
-- prompts, the language model providers, the Vera conversation and its web application, the voice
-- engines, the panel's pages, the command line, setup and diagnostics. The built-in skills and
-- their execution are parameters.
pub mod Base
pub mod Py
pub mod Models
pub mod Capability
pub mod Policy
pub mod Declaration
pub mod Skill
mod Examples
pub mod Panel
pub mod Mission
pub mod Evaluator
pub mod Automation
pub mod Queue
