-- ===== src/Lib.antt =====
-- CyberLab's backend: which security tool may run against which target, when it runs, and what becomes
-- of the outcome.
--
-- The program is a web application over PostgreSQL, with a queue of jobs in Redis (RQ). A job is one
-- run of a registered tool against a target. Jobs are created by a request, a mission that a language
-- model planned and a human approved, a chain of steps from a template, or a schedule; each creator
-- resolves tool and arguments through the same registry and asks the same question of the target's
-- authorization. A worker takes the jobs from the queue, runs the tool through an agent in the Kali
-- container, stores the answer, and merges what was found into the table of findings.
--
-- The parts, under backend/app but for the last one, and the files here that model them:
--
--   targets/authorization.py, models/asset.py         Targets, Targets/Inference
--   tools/schema.py, tools/registry.py                Tools and the files under it: Schema (the data),
--                                                     Patterns (the regular expressions), Registry
--                                                     (validation, build_command), Loading
--   models/                                           Models: the rows, the database, the queue
--   jobs/service.py                                   Jobs/Service (prepare_job)
--   ai/orchestrator.py                                Missions
--   chains/service.py, chains/conditions.py           Chains, Chains/Creation, Chains/Conditions
--   jobs/tasks.py                                     Jobs/Execute, Hooks
--   api/routes/jobs.py                                Jobs/Routes (create_job, cancel_job)
--   scheduling/ticker.py, scheduling/service.py       Scheduling, Scheduling/Tick
--   findings/lifecycle.py, signature.py, service.py   Findings/Lifecycle, /Signature, /Service
--   diff/engine.py, diff/service.py                   Diff/Ports, /Web, /Engine, Diff/Service
--   ai/planner.py, create_mission of orchestrator.py  Planning
--   jobs/reconciliation.py                            Reconciliation
--   core/rate_limit.py                                RateLimit
--   graph/queries.py                                  Graph
--   kali/agent/main.py (beside backend)               Agent
--
-- Jobs/Creation holds what the creators share: the surroundings of a call, the new row, and the entry
-- in the queue. Base has no part of the program; Samples and Witnesses run it on small inputs.
--
-- How state is read. `Db` has one table for each model, as a function from the primary key to an
-- optional row, and the ordered steps of a mission, run or template under the key of their parent.
-- `World` is what is committed, with the entries that Redis holds. An operation takes the world at its
-- start and returns its result, or its exception as a value, with the world that its commits left
-- behind: a row that was only flushed is not in that world if the call raises, an entry that Redis took
-- stays, whatever is rolled back. Several callers are a list of calls that do not overlap, each in
-- surroundings (`Env`) of its own. `uuid4()` is a counter. Clocks are numbers.
--
-- What this says of callers at the same time. The lock that advance_mission and advance_chain_run take on
-- their row is gone after the commit that resolves the queued step, and the rest of the call works on the
-- steps that it has read before. Two calls that overlap there can queue two jobs for one step. They are
-- not modelled: each of the two functions is given as a call that runs alone on its row, and what is said
-- of sequences of calls holds where none begins before the one before it has ended. approve_mission and
-- create_chain_run are two transactions here as in the source, and others may act between them.
--
-- What is a parameter. Code from elsewhere is an argument of the definitions that use it: `Parsers`
-- (urlparse, the patterns of the tool definitions, str.lower), `TextTools` (Unicode's tables, urlparse,
-- SHA-256), whether Redis takes an entry, and of a worker the Kali agent, the parsers of the tools'
-- output, what others commit while the tool runs, and the analysis that follows. A text is the list of
-- its code points, so the patterns of the registry are written out and computed.
--
-- Two definitions run on fuel: the decimal digits of a number n, which get n + 1 steps, each of which
-- divides what is left by ten, and the rounds of the query for paths of at most n hops, which get n
-- rounds; each round makes the rows longer by one hop, so the walks of n hops are there after n - 1.
--
-- Not modelled: the pages of the frontend, the routes that only read or write a row, the language
-- model's providers and prompts, the exporters of reports, the synchronisation of vulnerability
-- databases, the builder of the graph, the laboratory's containers and the agent's terminal, most of
-- which is input and output. The risk score and the correlation of findings are computations of the
-- backend that are not modelled either. Of the notifications of pages through Redis (jobs/pubsub.py) the
-- worker's are modelled by whether they raise; those of the routes are left out, as if each of them
-- succeeded. Calls on one mission or one chain run that overlap are not modelled, as said above.
pub mod Agent
pub mod Base
pub mod Chains
pub mod Diff
pub mod Findings
pub mod Graph
pub mod Hooks
pub mod Jobs
pub mod Missions
pub mod Models
pub mod Planning
pub mod RateLimit
pub mod Reconciliation
pub mod Samples
pub mod Scheduling
pub mod Targets
pub mod Tools
pub mod Witnesses
