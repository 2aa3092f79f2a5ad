-- ===== src/Lib.antt =====
-- Market replay: historical market data is parsed, validated, replayed at the pace of its events,
-- and reported on.
--
-- Parts, and where they are modelled:
--   Event, Error: internal/event/types.go and the errors of internal/parser.
--   Parser: internal/parser. Text has `strconv` and the Unicode parameter, Shape has
--     validateEventShape, Jsonl and Csv have the two row parsers, JsonLines says which lines
--     are parsed and to which events, Record and Stream have the records and the stream of parser.go.
--   Validate: internal/validate/validator.go. A Validator is a record of the struct's fields, and
--     each method returns the new one. Its children prove what a run reports (Effects, Runs, Counts,
--     Rows), when it reports nothing (Chains, Clean), what the symbol filter does (Filter) and what
--     priming does (Resume) and does not (Forgets); Drive has the loops over a stream.
--   Replay: internal/replay/replay.go. Loop has Runner.Stream, Pace the time that it sleeps.
--   Store: internal/store/store.go (the data) and memory.go (Memory and Listing have the operations).
--     Calls has sequences of calls; Integrity, Preserve, Creation and Completion prove the invariant,
--     History and Growth what is never lost, Reachable, Records and Distinct what follows for clients,
--     FileKeys and FileListing what ListEventFiles gives.
--     Abstract specifies the calls on maps as functions, SameRows the changes of single rows, and
--     Refinement sets the specification beside the repository in memory.
--     Reports, Lineage and ErrorSummary have reports.go; ErrorTypes and LineageRows prove what a lineage
--     has, Totals and Summaries count what is summed up.
--   Queue: internal/queue/replay.go; Submit has SubmitReplay over the repository in memory.
--   Worker: internal/worker/handler.go and the retry delay of server.go (Server). Actions are the
--     handler's calls of the repository, Handler is ProcessTask with run and processFile, Outcome what
--     a replay gives. Reading and Replies have the proofs for any other clients, which may change the
--     repository before each action; the others are about a task that is left alone: Framing, Running and
--     Touching have what it may change, Triples, Undisturbed, Completes, Recording, Finishing and
--     Liveness that it completes.
--   Kafka: internal/kafkastream; Publish has publish.go and Sending what it sends, Routing the Process
--     method of validator.go and Polling its Run.
--   Api: internal/api/server.go. Handlers has the handlers and the routes, Queued the server of
--     cmd/server/main.go that submits to the queue; Errors, Refusals and Routes have
--     the proofs.
--   Workload: internal/workload/generator.go. Csv and Jsonl have the two generators; Written and
--     Loop prove what their loops write and Lines what follows for JSON lines; Shift, Normalized and
--     TradeIds prove what becomes of the ids of trades.
--   Tests: runs at concrete inputs and instances of the results.
--
-- A stream is what the parsers give to the validator, the replay runner and the worker: each of them
-- calls Next until the end of the input and hands every record to a validator.
--
-- Conventions. An int64 is an integer whose operations wrap around (Prelude.Int). A Go map is an
-- association list (Prelude.Dict). A `(T, error)` is a Result, with a constructor for each error of
-- the source in place of its text. `time.Now` is an argument.
--
-- Bounds and fuel. A loop over a stream runs on fuel, one unit for each call of Next; the results on
-- loops say that more fuel than the stream has records is enough. The loop that generates a workload
-- takes one unit for each pass over its source, and more fuel than bytes are asked for is enough.
--
-- Parameters. The decoding of JSON text into a jsonEvent, the Unicode tables behind ToLower, ToUpper
-- and TrimSpace, and what bufio.Scanner and csv.Reader deliver for an input: a list of lines with an
-- error at its end, and a list of rows or errors. A CSV reader that returns an error again and again
-- has no end, and is no such list. Also the client of the task queue, SHA-256, the Kafka producer, the
-- encodings of json.Marshal, the files that a worker opens, its clock and context, the identifiers that
-- uuid draws, the numbers of a decoded JSON object and its encoding, the length of a CSV record, the
-- dates that Format makes, and what other clients do to the repository between the worker's calls.
--
-- Not modelled: the routing and binding of gin, middleware, the bench packages, SQL, Redis, Kafka and
-- Prometheus clients, HTML rendering, command lines, and measurements of time and memory.
pub mod Prelude
pub mod Error
pub mod Event
pub mod Parser
pub mod Validate
pub mod Replay
pub mod Store
pub mod Queue
pub mod Worker
pub mod Kafka
pub mod Api
pub mod Workload
pub mod Tests
