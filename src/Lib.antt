-- ===== src/Lib.antt =====
-- A verification library for IotServer, a server for fleets of small devices and the firmware that
-- talks to it.
--
-- A device packs its measurements in a Protocol Buffers message and posts it to the server over TLS.
-- The server checks the client's certificate, decodes the message, stores it, evaluates the alert
-- rules, and answers with the interval to sleep, an announcement of new firmware and the commands
-- that wait for the device. Operators queue commands, and devices acknowledge them.
--
-- The parts, from the repository's root:
--   * server/storage/models/types.go is Models: one record for each struct, with its field names.
--   * edge/middleware/serializer/protobuf_serializer.c is Serializer: Serializer/Wire has the field
--     encoders, Serializer/Telemetry the parts of the message and `serialize_telemetry_protobuf`, and
--     Serializer/Sizes and Bounds how long these are. A buffer written past its end is the result
--     `overrun`.
--   * server/core/telemetry/proto_decoder.go is Decoder: Decoder/Reader has Go's reader, `readString`
--     and `skipField`, and Decoder/Messages has `DecodeTelemetryProtobuf`, `parseHeader`,
--     `parseMetrics` and `parseStatus`. Decoder/Fields is the independent description of the format,
--     by fields; Decoder/Takes, Forms, Parts, Root and Device lead to the round trip, and
--     Decoder/Progress, Moves, Prefix, Termination and Ends to termination. Decoder/Hostile is about
--     inputs on which the decoder does not answer.
--   * edge/middleware/telemetry/telemetry_buffer.c is Edge/Buffer, a ring of 32 slots; Edge/Window, Queue and Uses
--     compare it with a queue. edge/app/src/app_state_machine.c is Edge/Loop: an event in each state, with
--     the sending of the buffer. Edge/Conserved is about what the sending of a buffer does, and Edge/Reached
--     about the states that the program gets to, where the buffer to be sent is always empty.
--   * server/storage/repository.go is Storage: Storage/Interface has the interface `Repository` as a
--     record of functions, and Storage/Memory has `InMemoryRepository`, whose pointers to devices point
--     into a list of cells. Storage/Memory/Heap is about the cells, Devices about saving a message,
--     History about the contents of the maps after any calls, Reports about what is read, and Acks about
--     commands that are taken away.
--   * server/storage/sql_repository.go is Storage/Sql. Storage/Sql/Tables has the rows and how they are written,
--     Storage/Sql/Queries how they are read, Storage/Sql/Commands the table of commands, and
--     Storage/Sql/Repository the methods, which are the interface again: `Faults` says which steps of a
--     transaction and which statements the database refuses, the UPDATEs of `GetPendingCommands` included. Delivery, Unique and Order are about
--     commands; Contents is about the rows after any calls, in the terms of Storage/Memory/History, and
--     Agrees and Histories compare the two repositories with Messages and Newest for the order of
--     messages; Listing is about the list of devices, and Atomic about the transaction. Fetches has
--     `GetPendingCommands` statement by statement; Alone is about one request, and Overlap and Twice about what
--     two requests get at the same time.
--   * server/core/alerting is Alerting: Alerting/Rules has the alerts and their conditions,
--     Alerting/Engine the loop of `EvaluateAndAlert` that records and posts them, Verdicts and
--     Records what they come to. Alerting/Webhook has `SendAlert`.
--   * server/api is Api: Api/Auth has `MTLSAuthMiddleware`, Api/Requests what the handlers are given
--     and answer, and Api/Answers and Handlers the handlers of telemetry_handler.go over any
--     `Repository`. Api/Effects is about what a message changes, Api/Security puts the middleware
--     before `HandleTelemetry`, as server/main.go does, and Api/Sleep follows an interval from an
--     operator to a device. Api/Failures puts the handlers on a database that fails. Api/Routes has the
--     routes of the two servers of server/main.go, with the redirects of ServeMux, and Api/Access is about what they let clients do.
--     Api/Interleaved has the handlers as phases between their accesses of shared data, each under its lock,
--     and schedules of several requests, and Api/Isolation is about any schedule.
--   * server/config/config.go is Config, and Config/Modes is about the two modes of mTLS.
--   * tools/simulator/main.go is Simulator: Simulator/Environment has what the device has around it,
--     Simulator/Device its methods and `Run` as rounds. Battery and Ends are about a run, and Image about
--     the firmware that a device comes to run. Simulator/Link puts the device on the edge server, and
--     Delivered and UpToDate are about a round of the two together, Recorded and Upgraded about what the
--     server keeps of it. Simulator/Main has `main` with its flags and files.
--   * The start and the end of server/main.go, with `NewSQLRepository`, are Start and Start/Lifecycle.
--   * tools/test_runner/run_e2e.go is E2e/Runner, over what is around it; E2e/Stages and Passes say when
--     it passes. E2e/Servers puts its checks on the two servers, and Replies, Answered and OnServer say what
--     they find there.
-- Base has the helpers that these share: byte lists, integers, floats, association lists, cells and
-- number formats. Tests has the theorems at concrete inputs.
--
-- Conventions. A uint32 or uint64 is a number with its wrap-around written out, a signed integer an
-- integer. A float64 is an exact dyadic number, an infinity or NaN; a float32 is its bit pattern until it
-- is decoded. A Go map is an association list, and a missing key is what Go makes of it. A clock is an
-- argument, and one request reads it once. The counts of SQLite, signed numbers of 64 bits, are taken to
-- stay below 2 ^ 63.
--
-- Bounds and fuel. A loop of the decoder runs on fuel, which is the number of its rounds, and without
-- enough of it the result is `unfinished`, which is no answer of the program. The theorems that give a
-- result say how much fuel is enough. A run of the simulator has as many rounds as its fuel, and `goes_on`
-- where it has not ended by then. The loop over the
-- offline buffer has the number of its messages as fuel, and is proved to end with it. `make` panics above 2 ^ 48 bytes, Go's limit on 64-bit Linux.
--
-- Not modelled: Go's JSON and the conversion of floats out of the range of uint32 are parameters; the
-- text of error messages and the log are left out. Outside of Api/Interleaved and Storage/Sql/Fetches requests run
-- one after the other. Pointers to devices that are read without the lock, and torn reads of them, are left out.
-- The HTTP client and server, the TLS library, the environment, the processes and the database engine are parameters.
-- What is in the files that are served is left out, and so are the drivers of the firmware, its simulated update and
-- its JSON text, which snprintf makes, and the server in PHP.
pub mod Base
pub mod Models
pub mod Serializer
pub mod Storage
pub mod Alerting
pub mod Api
pub mod Decoder
pub mod Simulator
pub mod Tests
pub mod Config
pub mod Edge
pub mod E2e
pub mod Start
