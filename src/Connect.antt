-- ===== src/Connect.antt =====
-- native/librespot/connect/src/state.rs and state/: the play queue that the engine shares with
-- Spotify.
pub mod Text
pub mod State
pub mod Context
pub mod Tracks
pub mod Options
pub mod Queue
