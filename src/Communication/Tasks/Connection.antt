-- ===== src/Communication/Tasks/Connection.antt =====
-- src/communication/client_tokio.rs: `CommunicationConnection`, the client's end of the channel to
-- the writer task, and what the two tasks report of their ends. What the wait for the answer to a
-- close command comes to, within its timeout, is an argument; `closed_channel` is how tokio prints
-- the error of a send to a channel whose receiver is gone.
pub mod Closing
use ac_signalr_client_lib_rs.Base.{
  ℕ, Bool, true, false, Option, none, some, List, [], ◌∷◌, ◌++◌, Text, lit, Res, ok, err, map_err,
  if◌then◌else◌, ◌>>=◌, ◌>>◌,
}
use ac_signalr_client_lib_rs.Client.Configuration.{Protocol}
use ac_signalr_client_lib_rs.Communication.Monitor.{ConnectionEvent, connection_lost}
use ac_signalr_client_lib_rs.Communication.Tasks.{
  WriterCommand, send_command, close_command, Outcome, goes_on, ends,
}

-- The generation, the commands that wait in the channel, whether the writer still holds its end,
-- and whether the tasks run.
pub record Connection : Type 0 where
  pub generation : ℕ
  pub commands : List WriterCommand
  pub writer_listens : Bool
  pub receiver_handle : Bool
  pub writer_handle : Bool
  pub protocol : Protocol

-- `new`, with its tasks started.
unfoldable pub new_connection : ℕ → Protocol → Connection
new_connection generation p = record {
  generation = generation;
  commands = [];
  writer_listens = true;
  receiver_handle = true;
  writer_handle = true;
  protocol = p;
}

abbrev push_command : Text → Connection → WriterCommand → Connection × Res (Unit {0})
push_command closed_channel c command =
    if c.writer_listens
    then (record c { commands = c.commands ++ command ∷ [] }, ok tt)
    else (c, err closed_channel)

-- `send`
unfoldable pub send_data : Text → Connection → Text → Connection × Res (Unit {0})
send_data closed_channel c bytes =
    let (c', r) = push_command closed_channel c (send_command bytes) in
    (c', map_err (lit "Failed to send: ") r)

-- How the wait for the answer ends: not in time, without an answer since the writer is gone, or with
-- the writer's answer.
pub data CloseWait : Type 0 where
  timed_out : CloseWait
  unanswered : CloseWait
  answered : Res (Unit {0}) → CloseWait

abbrev pub waited : CloseWait → Res (Unit {0})
waited timed_out = err (lit "Timed out waiting to send close frame")
waited unanswered = err (lit "Writer closed before acknowledging close frame")
waited (answered r) = r

-- `close_gracefully`
unfoldable pub close_gracefully : Text → Connection → CloseWait → Connection × Res (Unit {0})
close_gracefully closed_channel c wait =
    let (c', r) = push_command closed_channel c close_command in
    (c', map_err (lit "Failed to request graceful close: ") r >> waited wait)

-- `stop`, which `Drop` calls: the tasks are aborted, and with the writer goes its end of the channel.
unfoldable pub stop : Connection → Connection
stop c = record c {
  receiver_handle = false;
  writer_handle = false;
  writer_listens = if c.writer_handle then false else c.writer_listens;
}

-- The event that the reader sends when its loop has ended with the reason.
unfoldable pub reader_report : ℕ → Option Text → List ConnectionEvent
reader_report generation none = []
reader_report generation (some reason) = connection_lost generation reason ∷ []

-- The event that the writer sends, if it ends with a reason.
unfoldable pub writer_report : ℕ → Outcome → List ConnectionEvent
writer_report generation goes_on = []
writer_report generation (ends none) = []
writer_report generation (ends (some reason)) = connection_lost generation reason ∷ []
