-- ===== src/Protocol/Negotiate.antt =====
-- src/protocol/negotiate.rs and close.rs: the message types and the records of negotiation,
-- handshake, ping and close. Their serde implementations are generated code.
use ac_signalr_client_lib_rs.Base.{ℕ, List, Option, Bool, Text}

pub data MessageType : Type 0 where
  invocation stream_item completion stream_invocation cancel_invocation ping close other :
      MessageType

-- The `repr(u8)` numbers that go over the wire.
unfoldable pub type_code : MessageType → ℕ
type_code invocation = 1
type_code stream_item = 2
type_code completion = 3
type_code stream_invocation = 4
type_code cancel_invocation = 5
type_code ping = 6
type_code close = 7
type_code other = 8

pub record TransportSpec : Type 0 where
  pub transport : Text
  pub transfer_formats : List Text

pub record NegotiateResponseV0 : Type 0 where
  pub connection_id : Text
  pub connection_token : Option Text
  pub negotiate_version : ℕ
  pub available_transports : List TransportSpec

pub record HandshakeRequest : Type 0 where
  pub protocol : Text
  pub version : ℕ

-- `HandshakeRequest::new`
unfoldable pub handshake_request : Text → HandshakeRequest
handshake_request p = record { protocol = p; version = 1 }

pub record HandshakeResponse : Type 0 where
  pub error : Option Text

pub record Ping : Type 0 where
  pub type : MessageType

-- `Ping::new`
unfoldable pub new_ping : Ping
new_ping = record { type = ping }

-- `Ping::message_type`
unfoldable pub message_type : Ping → MessageType
message_type p = p.type

pub record Close : Type 0 where
  pub type : MessageType
  pub error : Option Text
  pub allow_reconnect : Option Bool
