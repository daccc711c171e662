-- ===== src/Lib.antt =====
-- Pi Multi-Orchestrator (src/core): a Boss plans missions whose tasks are worked on by workers, each
-- over a model route. What is modelled is the core that decides: which route a request takes and what
-- follows a failure, what is remembered of a route's health, how the pools of routes are edited, when
-- work may go on after a run that broke off, how the mission store guards missions, attempts, reviews
-- and leases, and what a worker's tool call may touch.
--
-- Routing (src/core/routing/index.ts). Routing.Failure has classifyFailure and decideFailureAction,
-- Routing.Chain the attempt chain (createAttemptChain, recordAttempt, nextAfterFailure),
-- Routing.Request the requests and the decisions, Routing.Eligibility evaluateCandidate, and
-- Routing.Select selectRoute with the weighted selection.
-- Health (src/core/health/index.ts). Health.Record has a route's record, its validation, its status
-- and calculateCooldownUntil; Health.Store has HealthStore over what its file holds: recordFailure,
-- recordSuccess, reset, beginProbe, recover, loadForWrite and saveSnapshot. It takes the failure
-- classes of Routing; the router in turn reads the health of its candidates.
-- Thinking (src/core/thinking.ts): the thinking levels that a model supports.
-- Pools (src/core/pools/index.ts): the changes of PoolManager as functions on the draft of the
-- configuration (add, remove, reorder, enable, weigh, schedule, thinking level) and, in Pools.Views,
-- the views and counts. It uses Thinking and the pools of Routing.Chain.
-- Recovery: Recovery.Classify has src/core/recovery/classify.ts, Recovery.Decision decision.ts, and
-- Recovery.Orchestrate recoverAfterMutation (orchestrate.ts) over the evidence list of the mission.
-- Mission (src/core/mission/index.ts, task-identity.ts): the store, transitionMission with its table
-- and the test for completion. Mission.Creation has createMission, updateMission, createTask and
-- finishTask; Mission.Attempt createAttempt, finishAttempt and startTask; Mission.Lease acquireLease,
-- heartbeatLease, releaseLease and claimMissionExecution, and Mission.Lease.Refines the lock that
-- they implement; Mission.Review createVerificationRun, updateVerificationRun and
-- recordQualityDecision; Mission.Verification setTaskQualityStatus, finalizeQualityVerification and
-- finalizeQualityFailure; Mission.Interruption interruptOwnedExecution and recoverInterrupted;
-- Mission.Calls the calls of all these in any order; Mission.Cancellation the cancellation of a
-- mission (src/core/mission/mission-cancel.ts), each of its calls a transaction.
-- Quality (src/core/quality/gate.ts): alignCriterionResults (Quality.Align says what it makes of a
-- reviewer's results) and evaluateQualityGate (Quality.Gate), whose verdicts Mission reads as the
-- quality status of a task.
-- Security (src/core/security/index.ts): the path policy with its scan below a directory;
-- Security.Commands has the command policy and the trust of projects.
-- Workers (src/core/workers): the tools of a profile (profiles.ts), the guard before each tool call
-- (safety.ts), which asks the policies of Security, and the test for a finalization turn
-- (finalization.ts). Of SubagentExecutor (executor.ts), Workers.Attempt has executeAttempt, up to the
-- outcome that it reports; Workers.Executor has what a round of the loop chooses, with retrySelection
-- and resolveExactRoute, and Workers.Executor.Loop the loop of execute, of which
-- Workers.Executor.Runs follows the rounds. It uses the selection and the chain of attempts of
-- Routing, and reports to Health.
-- Prelude has what they share: Boolean tests, lists, the stable sort, positions and splices, texts,
-- dictionaries, the numbers of the source and results.
--
-- Conventions. An instant is its number of milliseconds; a text that stands for a time is a Stamp,
-- the instant that Date.parse gives or unreadable. A number that the source tests for being finite,
-- whole or negative is a Number, by sign, integer part and whether a fraction follows; other numbers
-- are natural numbers, and a subtraction that may go below 0 is written out. An object used as a map
-- is an association list whose first match counts. A throw is an error of the Result; a transaction
-- that throws leaves the store that it was given. Queued operations are a sequence of function calls.
-- The recursions are structural, but for two. The scan below a directory (Security) has fuel 20,002:
-- the source stops after 20,000 entries, and each step reads a directory that one of them named, or
-- the first. The loop of execute has its fuel as an argument; what it needs is the limit of attempts
-- on a route, taken once for each route, and one round more.
--
-- Parameters. The comparison of texts by localeCompare, the SHA-256 score of the weighted selection
-- and toLowerCase are arguments of Routing; the normal form of a gateway's URL is one of Pools.Views;
-- the key of a task (its normalised objective), the order of ids, the NFKC form of a text, the limit
-- of its length and the place of a text that is no date among instants are those of Mission; the
-- place of a time's text among texts is one of Routing (two texts of one instant are taken as one),
-- and the number of bytes of a snapshot's text one of Health's disk; the calls of the Boss, the
-- assessor, the worker and the evidence list are those of Recovery; the normal form of a criterion
-- and the test for one that forbids modifications are those of Quality; the file system, the
-- resolution of a path, pathLooksCredential and the regular expressions on commands are those of
-- Security and Workers; the child session, the adapter, the abort signal and the clock, by rounds,
-- are those of Workers.Executor.
--
-- Not modelled: the file system, SQLite and JSON below the stores; of the mission store the event
-- log, the snapshots, evidence, escalations, packets, checkpoints and the backup; prompts; the share
-- of the weights in a pool's view; and the other parts of src/core and src/host: configuration files,
-- context packets, the Boss loop, the quality service, the sessions of workers, smart routing,
-- routing memory, analytics, 9Router's client and Pi's user interface.
pub mod Prelude
pub mod Routing
pub mod Health
pub mod Thinking
pub mod Pools
pub mod Recovery
pub mod Mission
pub mod Quality
pub mod Security
pub mod Workers
