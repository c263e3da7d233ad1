-- ===== src/Streaming.antt =====
-- native/librespot/audio/src/fetch/streaming.rs: the sequential reader of the `streaming-only`
-- build. The children model the reader and the task that feeds it.
pub mod Reader
pub mod Task
