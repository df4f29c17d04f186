-- ===== src/Lib.antt =====
-- Shipmates: a model of how agents hand work to each other, and of the relay of their output.
--
-- Parts and files. A World (Store/World) holds the tables and what the environment will do; a method that
-- runs SQL is an action on it, World → Result A × World. Paths are those of the repository.
--   Store/Types      go-shared/models.go, go-shared/types.go: rows as records, statuses as enums
--   Store/Tasks      go-shared/delegated_tasks.go; proofs in Tasks/Claim (ClaimNextTask) and
--                    Tasks/Insert (CreateDelegatedTask)
--   Store/Locks      go-shared/task_locks.go; proofs in Locks/Exclusion
--   Store/Rows       what go-shared/agents.go, sessions.go and delegation_events.go offer this part
--   Delegation/Cycle       DetectCyclesInBlockedBy of bot/delegation/validator.go
--   Delegation/Validator   the other functions of that file
--   Delegation/Locks       bot/delegation/locks.go (Locks/Paths: hasPathTraversal)
--   Delegation/Events      bot/delegation/events.go
--   Delegation/Scheduler   bot/delegation/scheduler.go; proofs in Effects, Bound, Closing and Cancel
--   Delegation/Lifecycle   bot/delegation/delegation.go: Delegate calls the validator, the cycle check, the
--                    scheduler and the event log; OnTaskComplete and OnTaskFailed call the store,
--                    ResolveDependencies and the event log
--   Delegation/KeyCache    the decrypted keys of bot/delegation/worker.go; proofs in KeyCache/Evicts and Transparent
--   Relay/Hub        stream-relay/relay/hub.go and session.go; proofs in Rooms, Bounded and Publish
--   Relay/Persist    the workers of stream-relay/main.go that write to the database: enqueuePersist, persistWorker,
--                    flushBatch; proofs in Persist/Groups and Persist/Order
--   Engine           bot/orchestrator/engine: what a language model's answer does to a repository
--   Engine/Text, Engine/Json   the texts around an answer's JSON, in parser.go, and the values in it
--   Engine/Parser    ParseSketchResponse of parser.go; proofs in Parser/Clean
--   Engine/Scope     ValidateAgentScope of parser.go; proofs in Scope/Extension and Scope/Kept
--   Engine/Blocks    ExtractDelegationBlocks and ParseSketchWithDelegations of parser.go; proofs in Blocks/Bounds
--   Engine/Similarity, Engine/Match   LevenshteinRatio and FindMatch of apply.go
--   Engine/Apply     ApplyEdits of apply.go, which takes what the parser returns and calls FindMatch; proofs in
--                    Apply/Confined and Apply/Totals; Engine/FilePath is what it uses of path/filepath
--   Conversation/History   bot/conversation/history.go; proofs in History/Bounded, and in History/Refines with
--                    what it needs in Recent and Room
--   Conversation/Router    bot/conversation/router.go; proofs in Router/Code and Router/Sticky
--   Webhook/Limits   the rate limits of webhook-router/main.go; proofs in Limits/Window
--   Webhook/Context, Webhook/Credentials   webhook-router/store.go and webhook-router/crypto.go
--   Webhook/Route, Webhook/Handler   the handler of webhook-router/main.go, which calls these three; proofs in
--                    Handler/Authentic and Context/Named
--   Shared/Crypto    go-shared/crypto.go; proofs in Crypto/Cache and Crypto/Opens
--   TestGen/Scan, TestGen/Lcov   ParseLcov of test-gen/testgen/coverage.go; proofs in Lcov/Faithful, from
--                    Scan/Counts, and from Scan/Filed with what it needs in Scan/Records and Scan/Stays
--   TestGen/Ranges   CollapseLineRanges of the same file; proofs in Ranges/Lines
--   Review/Diff, Review/Context   pr-review/review/parser.go: ParseDiff, and what is made of its result; proofs in
--                    Diff/Header, Diff/Numbers, Context/Found and Context/Printed
--   Prelude          lists, tests and integers that the parts share
--   Tests            the theorems at concrete inputs
--
-- How the code is read.
--   A statement is atomic. Before it the environment takes a turn: time passes, or the statement fails and
--   writes nothing. PostgreSQL and its driver are not modelled beyond that. Where an ORDER BY leaves ties,
--   the order of the table decides; the order of rows of a query without one is a parameter. ClaimNextTask
--   passes over the rows that other transactions hold: they are an argument. The common table expression
--   of AcquireTaskLock may delete before or after it inserts: a Bool says which. GenerateID draws from a
--   list of identifiers of the world. Each statement reads one clock. The text of an error leaves out the
--   values that are formatted into it. Costs are whole numbers of a unit, since the code only compares and
--   stores them; the percentages of coverage are made by a parameter. Delegate takes BuildDelegationContext, which
--   asks a language model, as a parameter. In
--   the engine and the conversation, Go's strings are lists of bytes; white space is the ASCII part of it.
--   A regular expression is a function that finds what it finds. json.Unmarshal, strings.ToLower,
--   strings.ToUpper, strings.EqualFold and sort.Slice are parameters, and so are float64 (the records Floats and
--   Numbers) and
--   the file system (the record Os, whose calls may fail); scrypt, SHA-256 and AES-GCM are the record Ciphers. The
--   webhook handler takes the rows of its query and whether its insert succeeds; one call of it is a step (a request
--   that loads its limiter before a cleanup deletes it and locks it after that is not modelled), and the numbers of
--   GitHub are not negative. A call of the history or of the router is one
--   step; the time is an argument. The hub's pointers are numbers; a step is what the hub does under its
--   mutex, and the selects of Publish for one subscriber are one step too. db.Exec is a statement that is recorded.
--
-- Fuel. The cycle search runs on fuel, one more than the keys of the adjacency map: a call that goes
-- deeper marks a key, so that is enough, and the theorem says that the search answers. The depth check
-- runs 20 rounds, the bound that the code has itself. flushBatch gets as many calls as its batch has rows,
-- and the theorem on it says that nothing is left. The eviction of decrypted keys gets 1001 rounds, and
-- the theorem says that it ends by then. No other function needs fuel.
--
-- Not modelled: the bots, the LLM, GitHub and container clients, the prompts, git calls and test runs of
-- the engine, the diagnosis service, and of the review and test services all but the parsers of diffs and of coverage; the worker's loop, the chain
-- and statistics queries of the task store, and the HTTP side of the relay.
pub mod Prelude
pub mod Store
pub mod Delegation
pub mod Relay
pub mod Engine
pub mod Conversation
pub mod Webhook
pub mod TestGen
pub mod Review
pub mod Shared
mod Tests
