-- ===== src/Completer.antt =====
-- src/completer: the future and the stream that the reader task resolves by hand.
pub mod Future
pub mod Stream
