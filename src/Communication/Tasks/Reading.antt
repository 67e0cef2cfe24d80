-- ===== src/Communication/Tasks/Reading.antt =====
-- What the reader task does to the storage.
use ac_signalr_client_lib_rs.Base.{
  ℕ, ◌≡◌, refl, none, some, List, [], ◌∷◌, ◌++◌, Text, lit, Res, ok, err, All, text_eq, arith,
}
use ac_signalr_client_lib_rs.Client.Configuration.{Protocol, message_pack}
use ac_signalr_client_lib_rs.Protocol.Negotiate.{Ping}
use ac_signalr_client_lib_rs.Protocol.Messages.{Serde}
use ac_signalr_client_lib_rs.Protocol.Framing.{get_messages_binary}
use ac_signalr_client_lib_rs.Execution.Storage.{Storage}
use ac_signalr_client_lib_rs.Execution.Dispatch.{Codec, process_message}
use ac_signalr_client_lib_rs.Communication.Tasks.{
  Frame, binary_frame, close_frame, tagged_ping, serialize_signalr_ping, process_all, reader_step,
  reader_run,
}

-- Nothing that ends the reader's loop.
abbrev pub IsData : Res Frame → Type 0
IsData (ok (close_frame code)) = ⊥
IsData (err e) = ⊥
IsData _ = Unit

module _ {ℓ} {V R : Type ℓ} (pings : Serde Ping) (c : Codec V) (p : Protocol) where
  data_goes_on : (s : Storage V R) (f : Res Frame) → IsData f → (reader_step pings c p s f).1 ≡ none
  unfolding reader_step
  data_goes_on s f h = ground arith

  -- Whatever arrives in data frames, also messages that cannot be read or are refused, the reader
  -- goes on; a close frame behind them ends it with that reason, a failed read with its error, and
  -- what would come after it is not read.
  reader_run-ends :
      (s : Storage V R) (fs : List (Res Frame)) (rest : List (Res Frame)) (code : ℕ) (e : Text)
      → All IsData fs
      → let t = (reader_run pings c p s fs).0 in
        ((reader_run pings c p s fs).1 ≡ none)
        × (reader_run pings c p s (fs ++ ok (close_frame code) ∷ rest)
            ≡ (t, some (lit "Received close frame")))
        × (reader_run pings c p s (fs ++ err e ∷ rest)
            ≡ (t, some (lit "Error reading frame: " ++ e)))
  unfolding reader_run
  reader_run-ends s [] rest code e h = (refl, refl, refl)
  reader_run-ends s (f ∷ fs) rest code e h =
      let ih = reader_run-ends (reader_step pings c p s f).0 fs rest code e h.1 in
      rw (reader_run, data_goes_on s f h.0) ih

module _ {ℓ} {V R : Type ℓ} (pings : Serde Ping) (c : Codec V) where
  -- The MessagePack ping that the client itself writes is read as a ping, and leaves the storage as
  -- it is.
  ping_is_harmless :
      (s : Storage V R)
      → (bytes : Text) × (serialize_signalr_ping pings message_pack ≡ ok bytes)
        × (reader_run pings c message_pack s (ok (binary_frame bytes) ∷ []) ≡ (s, none))
  unfolding reader_run process_all serialize_signalr_ping process_message get_messages_binary
      text_eq
  ping_is_harmless s = (tagged_ping, refl, refl)
