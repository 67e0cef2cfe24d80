-- ===== src/Communication/Tasks/Examples.antt =====
-- The theorems on the reader and the writer at concrete frames and commands.
use ac_signalr_client_lib_rs.Base.{
  ℕ, ◌≡◌, refl, true, none, List, [], ◌∷◌, ◌++◌, Text, lit, Res, ok, err, map, unlocked, text_eq,
  if◌then◌else◌, subst, arith,
}
use ac_signalr_client_lib_rs.Client.Configuration.{json}
use ac_signalr_client_lib_rs.Protocol.Negotiate as Negotiate
use ac_signalr_client_lib_rs.Protocol.Negotiate.{MessageType, Ping, new_ping}
use ac_signalr_client_lib_rs.Protocol.Utf8.{from_utf8}
use ac_signalr_client_lib_rs.Protocol.Utf8.Pieces.{IsUtf8}
use ac_signalr_client_lib_rs.Protocol.Framing.Cut.{IsMessage}
use ac_signalr_client_lib_rs.Protocol.Framing.Roundtrip.{IsJson}
use ac_signalr_client_lib_rs.Protocol.Messages.{Serde}
use ac_signalr_client_lib_rs.Execution.Storage.{Storage, empty_heap}
use ac_signalr_client_lib_rs.Execution.Dispatch.{Codec}
use ac_signalr_client_lib_rs.Communication.Tasks.{
  text_frame, Writer, Outcome, writer_run, reader_run, process_all, goes_on,
}
use ac_signalr_client_lib_rs.Communication.Tasks.Delivery.{
  Traffic, says, pings_once, controls, messages, pick_of, IsFramed, writer_run-reader_run,
}
use ac_signalr_client_lib_rs.Communication.Monitor.{connection_lost}
use ac_signalr_client_lib_rs.Communication.Tasks.Writing.{
  Sending, texts, writes, picks, attempted, failure,
}
use ac_signalr_client_lib_rs.Communication.Tasks.Connection.{
  Connection, new_connection, send_data, close_gracefully, unanswered, writer_report,
}
use ac_signalr_client_lib_rs.Communication.Tasks.Connection.Closing.{
  send_all, close_gracefully-writer_run,
}

abbrev refuses {ℓ} : {T : Type ℓ} → Serde T
refuses = record {
  to_string = λ x. err (lit "unused");
  from_str = λ s. err (lit "wrong type");
  to_vec = λ x. err (lit "unused");
  from_slice = λ s. err (lit "wrong type");
}

abbrev codec : Codec ℕ
codec = record { invocations = refuses; possible_invocations = refuses; lossy = λ s. s }

abbrev empty : Storage ℕ ℕ
empty = record {
  actions = unlocked [];
  deferred_messages = unlocked [];
  deferred_message_capacity = 2;
  index = unlocked 0;
  heap = empty_heap;
}

-- The serializer of the pings, and what one end puts on the wire.
abbrev ping_text : Text
ping_text = lit "{\"type\":6}"

abbrev write_ping : MessageType → Res Text
write_ping Negotiate.ping = ok ping_text
write_ping _ = err (lit "unused")

abbrev pings : Serde Ping
pings = record refuses {
  to_string = λ v. write_ping v.type;
  from_str = λ s. if text_eq s ping_text then ok new_ping else err (lit "missing field");
}

written : (t : MessageType) (s : Text) → write_ping t ≡ ok s → ping_text ≡ s
written t s e = ground arith

ping_text-IsFramed : IsFramed json (says ping_text)
unfolding from_utf8
ping_text-IsFramed = ground arith

pings-IsJson : IsJson pings
unfolding new_ping text_eq
pings-IsJson = record {
  reads_back = λ v s e. ground arith;
  is_message = λ v s e. subst IsMessage (written v.type s e) ping_text-IsFramed.0;
  is_utf8 = λ v s e. subst IsUtf8 (written v.type s e) ping_text-IsFramed.1;
}

abbrev wire : List Traffic
wire = says (lit "{}") ∷ controls ∷ pings_once ∷ says (lit "[]") ∷ []

abbrev quiet : Writer
quiet = record { written = []; answers = [] }

-- The write of the second message fails.
abbrev outgoing : List Sending
outgoing = (1 ∷ [], ok tt) ∷ (2 ∷ [], err (lit "reset")) ∷ (3 ∷ [], ok tt) ∷ []

abbrev opened : Connection
opened = new_connection 3 json

abbrev asked : Connection × Res (Unit {0})
asked =
    close_gracefully (lit "channel closed")
      (send_all (lit "channel closed") opened (texts outgoing)) unanswered

abbrev wrote : Writer × Outcome
wrote = writer_run refuses json quiet (picks asked.0.commands (writes outgoing ++ ok tt ∷ []))

close_gracefully-writer_run_example :
    (wrote.0.written ≡ [] ++ (text_frame (1 ∷ []) ∷ text_frame (2 ∷ []) ∷ [] ++ []))
    × (wrote.0.answers ≡ [])
    × (writer_report 3 wrote.1
        ≡ connection_lost 3 (lit "Error writing frame: " ++ lit "reset") ∷ [])
    × (asked.1 ≡ err (lit "Writer closed before acknowledging close frame"))
unfolding new_connection attempted failure close_gracefully send_all send_data picks writer_run
close_gracefully-writer_run_example =
    close_gracefully-writer_run (lit "channel closed") refuses json quiet opened outgoing (ok tt)
      true unanswered refl refl refl refl

abbrev sent : Writer × Outcome
sent = writer_run pings json quiet (map pick_of wire)

writer_run-reader_run_example :
    (sent.1 ≡ goes_on)
    × (reader_run pings codec json empty (map ok sent.0.written)
        ≡ (process_all pings codec empty (lit "{}" ∷ lit "[]" ∷ []) json, none))
unfolding messages from_utf8 new_ping
writer_run-reader_run_example =
    writer_run-reader_run pings codec json quiet empty wire refl (pings-IsJson, (ping_text, refl))
      (ground arith)
