-- ===== src/Communication/Tasks/Delivery.antt =====
-- From the writer of one end to the reader of the other: messages, with pings and control frames
-- between them.
use ac_signalr_client_lib_rs.Base.{
  ◌≡◌, refl, ◌∙◌, sym, ap, none, List, [], ◌∷◌, ◌++◌, append_assoc, append-nil, text_eq, some, Text,
  Res, ok, map, All, arith,
}
use ac_signalr_client_lib_rs.Client.Configuration.{Protocol, json, message_pack}
use ac_signalr_client_lib_rs.Protocol.Negotiate.{Ping, new_ping, message_type}
use ac_signalr_client_lib_rs.Protocol.Utf8.Pieces.{IsUtf8, IsUtf8-push}
use ac_signalr_client_lib_rs.Protocol.Messages.{Serde, separator, serialize}
use ac_signalr_client_lib_rs.Protocol.Framing.{get_messages_text, get_messages_binary}
use ac_signalr_client_lib_rs.Protocol.Framing.Cut.{IsMessage, get_messages_binary-text}
use ac_signalr_client_lib_rs.Protocol.Framing.Roundtrip.{
  IsJson, deserialize_json_text, get_messages_binary_iff,
}
use ac_signalr_client_lib_rs.Execution.Storage.{Storage}
use ac_signalr_client_lib_rs.Execution.Dispatch.{Codec, process_message}
use ac_signalr_client_lib_rs.Communication.Tasks.{
  Frame, other_frame, frame_of, tagged_ping, serialize_signalr_ping, read_signalr_message_type,
  process_all, reader_step, reader_run, send_command, Pick, command, automatic, tick, Writer,
  goes_on, ends, writer_step, writer_run,
}

-- What a writer puts on the wire: a message, a ping of its interval, a control frame.
pub data Traffic : Type 0 where
  says : Text → Traffic
  pings_once : Traffic
  controls : Traffic

unfoldable pub messages : List Traffic → List Text
messages [] = []
messages (says m ∷ ts) = m ∷ messages ts
messages (pings_once ∷ ts) = messages ts
messages (controls ∷ ts) = messages ts

-- What its loop picks, where each write succeeds.
abbrev pub pick_of : Traffic → Pick
pick_of (says m) = command (send_command (m ++ separator ∷ [])) (ok tt)
pick_of pings_once = tick (ok tt)
pick_of controls = automatic other_frame (ok tt)

-- The payload of a message can be framed: one byte at least, no separator, and text under JSON.
abbrev pub IsFramed : Protocol → Traffic → Type 0
IsFramed json (says m) = IsMessage m × IsUtf8 m
IsFramed message_pack (says m) = IsMessage m
IsFramed p _ = Unit

-- Under JSON a ping goes through serde_json; under MessagePack its bytes are fixed.
abbrev pub CanPing : Protocol → Serde Ping → Type 0
CanPing json pings = IsJson pings × ((s : Text) × (pings.to_string new_ping ≡ ok s))
CanPing message_pack pings = Unit

abbrev frame_at : Protocol → Text → Traffic → Frame
frame_at p ping (says m) = frame_of p (m ++ separator ∷ [])
frame_at p ping pings_once = frame_of p ping
frame_at p ping controls = other_frame

single : (m : Text) → IsMessage m → get_messages_binary (m ++ separator ∷ []) ≡ m ∷ []
single m h = (get_messages_binary_iff m).1 h

single_text : (m : Text) → IsMessage m → get_messages_text (m ++ separator ∷ []) ≡ m ∷ []
single_text m h = sym (get_messages_binary-text (m ++ separator ∷ [])) ∙ single m h

writer_step-frame :
    (pings : Serde Ping) (p : Protocol) (ping : Text) (w : Writer) (t : Traffic)
    → serialize_signalr_ping pings p ≡ ok ping
    → writer_step pings p w (pick_of t)
      ≡ (record w { written = w.written ++ frame_at p ping t ∷ [] }, goes_on)
unfolding writer_step
writer_step-frame pings p ping w (says m) e = refl
writer_step-frame pings p ping w pings_once e = rw e refl
writer_step-frame pings p ping w controls e = refl

writer_run_goes_on :
    (pings : Serde Ping) (p : Protocol) (w w' : Writer) (x : Pick) (xs : List Pick)
    → writer_step pings p w x ≡ (w', goes_on)
    → writer_run pings p w (x ∷ xs) ≡ writer_run pings p w' xs
unfolding writer_run
writer_run_goes_on pings p w w' x xs e =
    ap (λ y. elim y.1 [ goes_on ↦ writer_run pings p y.0 xs | ends reason ↦ (y.0, ends reason) ]) e

writer_run-frames :
    (pings : Serde Ping) (p : Protocol) (ping : Text) (w : Writer) (ts : List Traffic)
    → serialize_signalr_ping pings p ≡ ok ping
    → writer_run pings p w (map pick_of ts)
      ≡ (record w { written = w.written ++ map (frame_at p ping) ts }, goes_on)
unfolding writer_run
writer_run-frames pings p ping w [] e = ground (arith, append-nil w.written)
writer_run-frames pings p ping w (t ∷ ts) e =
    let w' : Writer = record w { written = w.written ++ frame_at p ping t ∷ [] } in
    writer_run_goes_on pings p w w' (pick_of t) (map pick_of ts)
      (writer_step-frame pings p ping w t e)
    ∙ writer_run-frames pings p ping w' ts e
    ∙ ap (λ x. (record w { written = x }, goes_on))
        (append_assoc w.written (frame_at p ping t ∷ []) (map (frame_at p ping) ts))

module _ {ℓ} {V R : Type ℓ} (pings : Serde Ping) (c : Codec V) where
  read_message :
      (p : Protocol) (s : Storage V R) (m : Text)
      → IsFramed p (says m)
      → reader_step pings c p s (ok (frame_of p (m ++ separator ∷ [])))
        ≡ (process_all pings c s (m ∷ []) p, none)
  unfolding reader_step
  read_message json s m h = rw (IsUtf8-push m separator (omega arith) h.1, single_text m h.0) refl
  read_message message_pack s m h = rw (single m h) refl

  read_json_ping :
      (s : Storage V R) (m : Text)
      → IsJson pings
      → pings.to_string new_ping ≡ ok m
      → process_all pings c s (m ∷ []) json ≡ s
  unfolding process_all process_message read_signalr_message_type message_type new_ping
  read_json_ping s m laws e = rw (deserialize_json_text pings laws new_ping m e) refl

  read_ping :
      (p : Protocol)
      → CanPing p pings
      → (ping : Text) × (serialize_signalr_ping pings p ≡ ok ping)
        × ((s : Storage V R) → reader_step pings c p s (ok (frame_of p ping)) ≡ (s, none))
  unfolding reader_step process_all process_message serialize_signalr_ping get_messages_binary
      serialize text_eq
  read_ping json (laws, (m, e)) = (
    m ++ separator ∷ [],
    rw e refl,
    λ s.
        read_message json s m (laws.is_message new_ping m e, laws.is_utf8 new_ping m e)
        ∙ ap (λ x. (x, none)) (read_json_ping s m laws e),
  )
  read_ping message_pack h = (tagged_ping, refl, λ s. refl)

  reader_run_goes_on :
      (p : Protocol) (s s' : Storage V R) (f : Res Frame) (fs : List (Res Frame))
      → reader_step pings c p s f ≡ (s', none)
      → reader_run pings c p s (f ∷ fs) ≡ reader_run pings c p s' fs
  unfolding reader_run
  reader_run_goes_on p s s' f fs e =
      ap (λ y. elim y.1 [ none ↦ reader_run pings c p y.0 fs | some r ↦ (y.0, some r) ]) e

  reader_run-frames :
      (p : Protocol) (ping : Text) (s : Storage V R) (ts : List Traffic)
      → ((s : Storage V R) → reader_step pings c p s (ok (frame_of p ping)) ≡ (s, none))
      → All (IsFramed p) ts
      → reader_run pings c p s (map ok (map (frame_at p ping) ts))
        ≡ (process_all pings c s (messages ts) p, none)
  unfolding reader_run messages process_all
  reader_run-frames p ping s [] quiet h = refl
  reader_run-frames p ping s (says m ∷ ts) quiet h =
      reader_run_goes_on p s (process_all pings c s (m ∷ []) p)
        (ok (frame_of p (m ++ separator ∷ []))) (map ok (map (frame_at p ping) ts))
        (read_message p s m h.0)
      ∙ (reader_run-frames p ping (process_all pings c s (m ∷ []) p) ts quiet h.1)
  reader_run-frames p ping s (pings_once ∷ ts) quiet h =
      reader_run_goes_on p s s (ok (frame_of p ping)) (map ok (map (frame_at p ping) ts)) (quiet s)
      ∙ reader_run-frames p ping s ts quiet h.1
  reader_run-frames p ping s (controls ∷ ts) quiet h =
      unfold reader_step in reader_run-frames p ping s ts quiet h.1

  -- Under both protocols, where pings can be written, the writer's writes succeed, and the payloads
  -- hold no separator and under JSON are texts: a reader of the other end that is given the frames
  -- that the writer puts on the wire, messages with pings and control frames in any order between
  -- them, hands exactly the messages to its storage, each once and in their order, and goes on; so
  -- does the writer.
  pub writer_run-reader_run :
      (p : Protocol) (w : Writer) (s : Storage V R) (ts : List Traffic)
      → w.written ≡ []
      → CanPing p pings
      → All (IsFramed p) ts
      → let (w', o) = writer_run pings p w (map pick_of ts) in
        (o ≡ goes_on)
        × (reader_run pings c p s (map ok w'.written)
            ≡ (process_all pings c s (messages ts) p, none))
  writer_run-reader_run p w s ts e can h =
      let (ping, written, quiet) = read_ping p can in
      rw (writer_run-frames pings p ping w ts written, e)
        (refl, reader_run-frames p ping s ts quiet h)
