-- ===== src/Live.antt =====
-- live/: the receiver of webhooks over HTTP and the transcript of the calls to the gateway.
pub mod Receiver
pub mod Recorder
