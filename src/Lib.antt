-- ===== src/Lib.antt =====
-- A model of the SignalR client library ac-signalr-client-lib-rs. Paths are from the repository's root.
--
-- The program: a client is configured, negotiates over HTTP, opens a WebSocket and shakes hands on it.
-- A reader task cuts what arrives into messages and hands each to the storage of actions, which calls
-- registered callbacks, resolves the futures of invocations and feeds the streams of enumerations; a
-- writer task sends messages and pings. A monitor task is told of lost connections and reconnects. The
-- clones of a client share one connection state, one storage and one monitor.
--
-- Client.Configuration: src/client/configuration.rs. `Setting` and `apply` are the setters of
--   `ConnectionConfiguration`; a `Duration` is its nanoseconds.
-- Client.Calls, Client.Api, Client.Handles: `SignalRClient` of src/client/signalr_client.rs, on the
--   `System` of Communication.Monitor: the calls to the hub, the public functions on them, and the
--   handles with what is registered on them.
--   Client.Context: `InvocationContext` of src/client/context.rs.
-- Completer.Future, Completer.Stream: src/completer. A future is the state that its clones share, a
--   waker the number of a task.
-- Protocol.Negotiate, Protocol.Invoke: the records of src/protocol and the argument builder of
--   src/execution/arguments.rs. Protocol.Messages: `MessageParser`. Protocol.Utf8: the validation of
--   `String::from_utf8`, a state machine on bytes. Protocol.Framing: `get_messages_text` and
--   `get_messages_binary` of src/communication/client_tokio.rs.
-- Execution.Actions: src/execution/callback.rs, invocation.rs and enumerable.rs on the heap of
--   Execution.Heap, where the futures and streams that callers hold are numbers. Execution.Storage:
--   src/execution/storage_tokio.rs. Execution.Dispatch: the provided methods of the trait `Storage` in
--   src/execution/storage.rs, `process_message` among them; Execution.FutureState: `ManualFutureState`
--   of that file.
-- Communication.Http: `HttpClient` of src/communication/common.rs. The rest of Communication is
--   src/communication/client_tokio.rs: Socket is `connect_socket`, Tasks the reader and the writer,
--   Tasks.Connection the connection that owns them, Monitor.Clients the connection state with the calls
--   of the clients, and Monitor the monitor task. Tasks.Delivery puts a writer and the reader of the
--   other end together, Monitor.Driving runs the monitor on a network, given by what hyper and
--   fastwebsockets answer during each negotiation, and Monitor.Machine is the connection state as an
--   abstract machine, whose steps say nothing of locks, phases, events or handles.
-- Base holds what the parts share, Fixtures the values that the tests share.
--
-- State is passed explicitly, a mutex is its content with a flag for poison, and a fallible function
-- returns `Res`. Texts and byte strings are lists of bytes. The monitor is a step function, cut at its
-- awaits, whose argument is what the await returned, so that a run is a list of replies and calls of
-- clients can come between any two of them. The loops of the reader and of the writer run on lists of
-- what they read and pick. Execution.Dispatch.History runs a list of calls of the storage, and
-- Communication.Monitor.Interleaving has a relation whose steps are those of the handles, the tasks and
-- the monitor in any order; in it a task reports a generation that was taken from the counter before,
-- as `reconnect_until_connected` hands it to the connection. Client.Handles.Counting has one more,
-- in which the handles of the user and those in the callbacks are told apart; a callback that keeps its
-- context keeps a clone, and a call of the storage that takes an action away is a step of its own, since
-- the handle in a callback goes with it. What an action owes is the future that it has still to
-- complete; a future is open while it is neither completed nor cancelled.
--
-- Bounds: `usize` counters wrap at 2^64, the shift of the back-off at 2^32, and `Duration`
-- multiplication saturates; the number of an attempt is not cut. The loop of `get_messages_binary`
-- has the length of its data and one as fuel, since each round takes a byte off; `show_nat` has
-- more fuel than the number has digits. `drive` has the rounds of the monitor as fuel: three for an
-- attempt, the sleep, the negotiation and the socket, and one for each of the two callbacks.
--
-- Parameters: serde_json and rmp_serde (`Serde`, with the law `IsJson` where a theorem relies on it),
-- hyper, rustls, base64 and fastwebsockets (`Net` and `Sockets`: what each call answers in one
-- attempt), the printing of a serde_json `Value` (`Values`, with the law `IsPrinted`), and how the
-- wait for the answer to a close command ends (`CloseWait`).
--
-- Not modelled: `InvocationContext::spawn`, which only hands a future to tokio; that a callback runs
-- under the lock of the storage, so that one that registers on its client waits for ever; the times of
-- pings and timeouts; that the shared state goes with the last client, where the model keeps the state
-- of a client that nobody holds any more; logging; the examples, the integration tests and the test server.
pub mod Base
pub mod Fixtures
pub mod Client
pub mod Completer
pub mod Protocol
pub mod Execution
pub mod Communication
