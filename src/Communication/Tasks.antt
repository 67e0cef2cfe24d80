-- ===== src/Communication/Tasks.antt =====
-- src/communication/client_tokio.rs: the reader and the writer task of a connection, and the
-- handling of pings. What `read_frame` returns and what `select!` picks are lists, one element for
-- each round of a loop.
pub mod Connection
pub mod Reading
pub mod Writing
pub mod Delivery
mod Examples
use ac_signalr_client_lib_rs.Base.{
  ℕ, Bool, true, false, ◌&&◌, ◌||◌, Option, none, some, List, [], ◌∷◌, ◌++◌, Text, lit, text_eq,
  Res, ok, err, map_ok, if◌then◌else◌,
}
use ac_signalr_client_lib_rs.Client.Configuration.{Protocol, json, message_pack}
use ac_signalr_client_lib_rs.Protocol.Negotiate as Negotiate
use ac_signalr_client_lib_rs.Protocol.Negotiate.{MessageType, Ping, new_ping, message_type}
use ac_signalr_client_lib_rs.Protocol.Utf8.{from_utf8}
use ac_signalr_client_lib_rs.Protocol.Messages.{Serde, serialize, deserialize}
use ac_signalr_client_lib_rs.Protocol.Framing.{get_messages_text, get_messages_binary}
use ac_signalr_client_lib_rs.Execution.Storage.{Storage}
use ac_signalr_client_lib_rs.Execution.Dispatch.{Codec, process_message}

-- A frame by its opcode; the others carry nothing that the tasks look at.
pub data Frame : Type 0 where
  text_frame : Text → Frame
  binary_frame : Text → Frame
  close_frame : ℕ → Frame
  other_frame : Frame

abbrev pub tagged_ping : Text
tagged_ping = 0x02 ∷ 0x91 ∷ 0x06 ∷ []

abbrev pub bare_ping : Text
bare_ping = 0x91 ∷ 0x06 ∷ []

-- `is_messagepack_ping`
unfoldable pub is_messagepack_ping : Text → Bool
is_messagepack_ping message = text_eq message tagged_ping || text_eq message bare_ping

abbrev is_message_pack : Protocol → Bool
is_message_pack message_pack = true
is_message_pack json = false

-- `read_signalr_message_type`
unfoldable pub read_signalr_message_type : Serde Ping → Text → Protocol → Res MessageType
unfolding is_messagepack_ping
read_signalr_message_type pings message p =
    if is_message_pack p && is_messagepack_ping message
    then ok Negotiate.ping
    else map_ok message_type (deserialize pings message p)

-- `serialize_signalr_ping`
unfoldable pub serialize_signalr_ping : Serde Ping → Protocol → Res Text
serialize_signalr_ping pings json = serialize pings new_ping json
serialize_signalr_ping pings message_pack = ok tagged_ping

module _ {ℓ} {V R : Type ℓ} where
  abbrev process_typed : Codec V → Storage V R → Text → Protocol → Res MessageType → Storage V R
  process_typed c s message p (ok t) = (process_message c s message t p).0
  process_typed c s message p (err e) = s

  -- The loop over the messages of a frame: what goes wrong is only logged.
  unfoldable pub process_all :
      Serde Ping → Codec V → Storage V R → List Text → Protocol → Storage V R
  unfolding read_signalr_message_type
  process_all pings c s [] p = s
  process_all pings c s (m ∷ ms) p =
      process_all pings c (process_typed c s m p (read_signalr_message_type pings m p)) ms p

  abbrev process_text : Serde Ping → Codec V → Storage V R → Res Text → Storage V R
  process_text pings c s (ok text) = process_all pings c s (get_messages_text text) json
  process_text pings c s (err e) = s

  -- One round of the reader: the storage, and the reason where the loop ends.
  unfoldable pub reader_step :
      Serde Ping → Codec V → Protocol → Storage V R → Res Frame → Storage V R × Option Text
  unfolding process_all
  reader_step pings c p s (ok (text_frame payload)) =
      (process_text pings c s (from_utf8 payload), none)
  reader_step pings c p s (ok (binary_frame payload)) =
      (process_all pings c s (get_messages_binary payload) p, none)
  reader_step pings c p s (ok (close_frame code)) = (s, some (lit "Received close frame"))
  reader_step pings c p s (ok other_frame) = (s, none)
  reader_step pings c p s (err e) = (s, some (lit "Error reading frame: " ++ e))

  -- The reader on what is read, with the reason that it reports, once its loop has ended.
  unfoldable pub reader_run :
      Serde Ping → Codec V → Protocol → Storage V R → List (Res Frame) → Storage V R × Option Text
  unfolding reader_step
  reader_run pings c p s [] = (s, none)
  reader_run pings c p s (f ∷ fs) =
      let (s', reason) = reader_step pings c p s f in
      let rest = reader_run pings c p s' fs in elim reason [ none ↦ rest | some r ↦ (s', some r) ]

pub data WriterCommand : Type 0 where
  send_command : Text → WriterCommand
  close_command : WriterCommand

-- What `select!` picks, with what the write of the frame returns: a command, a frame that the
-- reader asks for, the tick of the ping interval; or all channels are closed.
pub data Pick : Type 0 where
  command : WriterCommand → Res (Unit {0}) → Pick
  automatic : Frame → Res (Unit {0}) → Pick
  tick : Res (Unit {0}) → Pick
  closed : Pick

-- The frames given to `write_frame`, and the answers to close commands.
pub record Writer : Type 0 where
  pub written : List Frame
  pub answers : List (Res (Unit {0}))

-- The loop goes on, or it ends, with a reason to report or without one.
pub data Outcome : Type 0 where
  goes_on : Outcome
  ends : Option Text → Outcome

abbrev pub frame_of : Protocol → Text → Frame
frame_of json data_bytes = text_frame data_bytes
frame_of message_pack data_bytes = binary_frame data_bytes

abbrev outcome_of : Text → Res (Unit {0}) → Outcome
outcome_of failure (ok u) = goes_on
outcome_of failure (err e) = ends (some (failure ++ e))

abbrev write_one : Writer → Frame → Writer
write_one w f = record w { written = w.written ++ f ∷ [] }

abbrev pub close_answer : Res (Unit {0}) → Res (Unit {0})
close_answer (ok u) = ok tt
close_answer (err e) = err (lit "Error writing close frame: " ++ e)

abbrev ping_written : Protocol → Writer → Res (Unit {0}) → Res Text → Writer × Outcome
ping_written p w r (ok bytes) =
    (write_one w (frame_of p bytes), outcome_of (lit "Error writing SignalR ping: ") r)
ping_written p w r (err e) = (w, ends (some (lit "SignalR ping serialization failed: " ++ e)))

-- One round of the writer.
unfoldable pub writer_step : Serde Ping → Protocol → Writer → Pick → Writer × Outcome
unfolding serialize_signalr_ping
writer_step pings p w (command (send_command bytes) r) =
    (write_one w (frame_of p bytes), outcome_of (lit "Error writing frame: ") r)
writer_step pings p w (command close_command r) = (
  record (write_one w (close_frame 1000)) { answers = w.answers ++ close_answer r ∷ [] },
  ends none,
)
writer_step pings p w (automatic f r) =
    (write_one w f, outcome_of (lit "Error writing automatic frame: ") r)
writer_step pings p w (tick r) = ping_written p w r (serialize_signalr_ping pings p)
writer_step pings p w closed = (w, ends none)

-- The writer on what is picked: what it has written, and how it stands.
unfoldable pub writer_run : Serde Ping → Protocol → Writer → List Pick → Writer × Outcome
unfolding writer_step
writer_run pings p w [] = (w, goes_on)
writer_run pings p w (x ∷ xs) =
    let (w', o) = writer_step pings p w x in
    let rest = writer_run pings p w' xs in
    elim o [ goes_on ↦ rest | ends reason ↦ (w', ends reason) ]
