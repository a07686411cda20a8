-- ===== src/Lib.antt =====
-- Verification of CereWorker, an agent that runs tools, sub-agents and messaging channels for its user.
--
-- The program's parts here, and how they interact. A message of a channel comes from a sender whom the
-- pairing store has let in. The agent answers by streaming calls of a language model, which are tried
-- again after some errors; a turn of the orchestrator is one or more attempts at such a stream, watched for
-- stalls and judged at its end, with its messages in the conversation store; the model calls tools through the tool runtime, which stops loops of calls and
-- bounds what a result takes of the context. The sub-agent manager runs further such streams in the
-- background, each with tools and a conversation of its own. Plans of tasks are
-- kept in files; the proactive controller resumes the unfinished ones and runs tasks at the heartbeat, as
-- runs of the orchestrator. A lock directory keeps the processes that use a store apart. Answers to a channel are cut into chunks.
-- Two machines talk over a gateway, whose session bus numbers, acknowledges and replays frames.
--
-- Files and what they model:
--   Core/Pairing            packages/core/src/pairing.ts: PairingStore, generateCode, formatCode,
--                           normalizeCode. Its children prove: Codes the round trip of a code, Approval
--                           who is let in, Limit the invariant on requests, Synced fields and files.
--   Core/ToolRuntime        packages/core/src/tool-runtime.ts: ToolRuntime.execute and the functions below
--                           it, in Values, Streaks, Loops, Results and Execute; the laws are in StreakLaws,
--                           LoopLaws, ExecuteLaws, Output, Brake and Halting.
--   Core/SubAgents          packages/core/src/sub-agent-manager.ts: SubAgentManager; Runs has the callbacks
--                           and the end of runAgent, Recovery recoverFromDisk and what is saved, Tools
--                           createAgentTools, Events any sequence of these; Attended, Kept, Invariant,
--                           Limits, Stopping and Pruning prove.
--   Core/Conversation       packages/core/src/conversation.ts: the ConversationStore in memory, with Files for
--                           the one in files and Journals for pruneTurnJournals; Agreement, Retention,
--                           Distinct, Removal and Pruned prove.
--   Core/Orchestrator       packages/core/src/orchestrator.ts: Texts, Continuity and ToolProgress have the
--                           progress of a turn, Completion the signals and the guard, Turn sendMessage
--                           (Events its callbacks, Watchdog startStreamWatchdog, Loop its attempts),
--                           Emergency emergencyStop, Store what a turn uses of the conversation store.
--                           Ledger, Success and Guard prove, and under Turn: Counting, Termination, Kept, Rounds,
--                           Outcome and Answer.
--   Core/PlanStore          packages/core/src/plan-store.ts: PlanStore; Order and Lookup prove.
--   Core/TaskRunner         packages/core/src/orchestrator.ts: runTask, isTaskRunning; Running and AutoMode
--                           prove.
--   Core/Proactive          packages/core/src/proactive.ts: ProactiveController over TaskRunner and PlanStore,
--                           with Report for sendStatusReport and Events for any sequence; Limit, Resume
--                           and Stopping prove.
--   Core/TextStore          packages/core/src/text-store.ts: Lock has withTextStoreLock as steps of
--                           processes, Lines readJsonLines, writeJsonLines and appendJsonLine; Holders,
--                           Stale, Places, Exclusion, Progress and RoundTrip prove.
--   Channels/Chunking       packages/channels/src/chunking.ts: chunkMarkdown; Hard and Limit prove.
--   Cerebrum/Retry          packages/cerebrum/src/retry.ts: withRetry and isRetryable; Attempts proves.
--   Gateway/SessionBus      packages/gateway/src/session-bus.ts: SessionBusState; Delivery, Outbound, Tidy
--                           and Restart prove.
--   Prelude                 tests on numbers, lists, filters and text that the parts share.
-- Each Tests module has runs of its part on concrete input.
--
-- How the code corresponds. Methods are functions that take the state of the class, with what the method
-- reads of the clock, of random numbers and of fresh ids as arguments, and give the next state and the
-- result; a thrown error is a constructor of the result. A text is the list of its UTF-16 code units.
-- Files are fields of the state; writes of them succeed. In the pairing store a lock is a flag that says
-- whether it was got; in TextStore it is a directory that processes of several hosts see. The
-- array that the buses share by default is a cell of a small heap. Asynchronous code is events: the calls of
-- a class and the callbacks of a run in any order. Where a statement is about any sequence of calls, the
-- calls are a data type, and a run of them is a list. A turn takes a script for each attempt: the chunks, calls,
-- finishes, ticks of the watchdog and assessments that come, in any order, and how its stream is settled.
-- The turn of a task's run is the event that the run ends, with any outcome.
-- The turn is over a record of operations and laws of a conversation store, which the store in memory fills.
--
-- Parameters, for code that the repository only calls: the engine of the tool runtime (JSON, the text of
-- values, comparison and hashing) and the bodies of tools; the call and the pause of the retry loop; JSON
-- in the lines of a file, and what it makes of a message; the generator of a status report's final text, its date and the decimals of a loss.
--
-- Bounds. The loop that draws a pairing code makes at most 100 attempts, as the code does. The recursion of
-- hardSplit is on the length of the text, which is enough as each turn takes a code unit at least
-- where the limit is positive; with a limit of 0 the code does not end. A number is printed with more fuel
-- than it has digits. The ledger of a turn is cut with its length for fuel, and a turn has as many attempts
-- as the code allows, with a theorem that it needs no more. Numbers are natural: the times and counters of the code stay below 2^53.
--
-- Not modelled: of the orchestrator, the journal and the session of a turn, the system prompt, compaction,
-- the discovery mode, the text of a fallback assessment, the verification of results, heartbeats and
-- fine-tuning, and what happens in an attempt after its end; the command line and its screens, the
-- adapters of channels and of the model's SDK, the gateway's sockets, the store and the schedule of tasks, the atomic writes of files, the curation of
-- memory, the configuration, the browser, the skills and the Python service; the migration of SQLite
-- files; the text of prompts and logs; the jitter of a delay; the conversations of sub-agents beyond the
-- number of their messages; that an object that a call gives may be the stored one, so that `create` in
-- memory gives an object that later messages change; a throw of `recordBoundary` or of a listener after a
-- nudge was counted.
pub mod Prelude
pub mod Core
pub mod Gateway
pub mod Channels
pub mod Cerebrum
