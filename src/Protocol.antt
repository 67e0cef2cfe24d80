-- ===== src/Protocol.antt =====
-- src/protocol: the messages of the SignalR hub protocol, their serialization, and the record
-- separator that ends each of them on the wire.
pub mod Negotiate
pub mod Invoke
pub mod Utf8
pub mod Messages
pub mod Framing
