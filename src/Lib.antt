-- ===== src/Lib.antt =====
-- piglet: the core of a coding assistant for the terminal. A frontend gives input to a shell (shell/), which
-- runs it as a slash command, queues it or starts the agent (core/). The agent loops over turns: it streams a
-- message of a language model, runs the tools that the message calls, and adds both to its history. The
-- shell writes each message to a session (session/), a tree of entries that lives in memory and in an
-- append-only file of JSON lines, and that is read back when the program starts again.
--
-- Files and what they model:
--   Prelude/   lists, maps and Boolean tests over the native numbers.
--   Core/      core/types.go. Types holds the messages, Json the documents, Codec the custom JSON methods
--              of the messages, RoundTrip what they read back.
--   Session/   session/append.go, replay.go, tree.go and session.go. Types holds the record Session, with the
--              nodes as the history of their writes and the file as a list of lines; Payload and Store are the
--              JSON of the entries and commitNode; Append, Tree and Fork the operations under their Go names;
--              Replay reads the lines of a file and Open ends there. An environment gives the random ID, the
--              time and whether the write succeeds; one that fails may leave a part of its bytes. Settle,
--              Invariant, Branch, Effects, Failure, Stored, ReplayNode, Reopen, History, Forked and Hazards
--              hold proofs.
--   Agent/     core/agent.go (State, Turns), core/stream.go (Stream), core/tool_executor.go (Tools) and
--              core/compact.go (History). The record Agent has the messages, the two queues, the turn's
--              context and the log of events. What happens outside in one turn is a record TurnInput: the
--              attempts to stream, messages that arrive, the order in which the tools end, the end of a
--              background compaction. Cap, Compaction, Delay, Retry, Requests, Collect,
--              ToolResults, ToolsEnd, TurnEnd, MaxTurns and Returns hold proofs.
--   Shell/     shell/queue.go (Queue), shell/repair.go (Repair), shell/shell.go and actions.go (State),
--              shell/submit.go (Slash, Submit), shell/process.go and background.go (Process). The record Shell
--              has the agent, the queue and the calls made of the session. Runs has the calls of a
--              frontend in sequence; DrainOne, Answered, Completed, Repaired, Input, Idle, Bound and
--              BoundEvents hold proofs.
--   Tool/      tool/. Runes has the functions of Go's package strings on lists of code points; Quotes is
--              tool/quotes.go; Files has the disk, the file tracker (tool/filetrack.go), the snapshots
--              (tool/undo.go), atomicWrite of config/config.go and the tools read, write and edit up to their
--              messages, edit and write with what others do to the disk between their steps; Pages is the
--              output of tool/read.go, Diff tool/diff_meta.go, Output the writers of tool/helpers.go. Found, Edits,
--              LostUpdate, Paging, Subsequence, Minimal and Captured hold proofs.
--   Ext/       ext/ and ext/external/. App has the registry (ext/registry.go, ext/events.go), Interceptors the
--              chain round a tool (ext/interceptor.go), Bridge what an external extension registers and its
--              removal (ext/external/bridge.go, ext/unregister.go), Supervisor the loop that restarts it.
--              Chain, Refused, Bridged, Removed, Restored and Restarts hold proofs, Sorting a sort for the runs.
--   Plan/      extensions/plan/plan.go. Steps has the plans and the searches, Operations what changes a plan;
--              Invariant, Keeps, Runs and Undo hold proofs.
--   Breaker/   extensions/toolbreaker/. Tracker has the counts and the two hooks, Latch holds proofs.
--   Extensions/ Dedup is extensions/subagent/dedup.go, Safeguard extensions/safeguard/breaker.go; Remembers
--              and Automaton hold their specifications and proofs.
--   Pipeline/  extensions/pipeline/. Types is pipeline.go, Loops loops.go, Template template.go, Execute the run of one
--              step in execute.go, Run and DryRun its Run and DryRun, Texts what they use of Go's packages strings,
--              strconv and fmt. Product, Iterated, Cuts, Expansion, Pieces, Retried, Finishes, Trace, Walks and Reported
--              hold proofs.
-- The Examples module of each folder has runs on concrete data, which for the agent are in Samples.
--
-- Bounds and fuel: the walk to the root of a session takes one round per node and one more, which is enough
-- on a valid tree. The retries take the number of attempts as fuel. The loops over turns, follow-ups, events
-- of a stream and signals of workers take one element of their input list per round; where a list ends too
-- early the result is none, the case of a call that has not returned. A reader of pages has one round per line, the
-- loop of the supervisor one per round of its input. Expand has one round per character and one more,
-- which is enough for its placeholders; the digits of a number take the number as fuel.
--
-- Interfaces: the session is modelled on its own, and the shell logs the calls it makes of it; the agent's
-- record is the one that the shell holds. The provider, the compactor, the tools, command handlers, message
-- hooks and input transformers are given by what they return. What a pipeline's command gives is a function of the
-- commands started before it. An extension acts by the actions it queues.
--
-- Of the machine: ints have 64 bits, and there is memory for every slice that make takes, which is one within 2^48
-- bytes. How long a line of a session's file is, which Open limits, is given.
--
-- Of outside: the Unicode tables of letters and punctuation, and the sort of the standard library, which keeps the
-- elements and their number; the objects that package json reads in a command's output, and the dates of days. A text is
-- valid UTF-8.
--
-- Not modelled: locks and channels other than by the order of what they pass, the timer that drops events,
-- step mode switches, file locking, the listing of sessions, providers' HTTP, the terminal interface, the
-- run of commands by bash, and the other extensions. Times are numbers, and so is a cost.
pub mod Prelude
pub mod Core
pub mod Session
pub mod Agent
pub mod Shell
pub mod Tool
pub mod Ext
pub mod Plan
pub mod Breaker
pub mod Extensions
pub mod Pipeline
