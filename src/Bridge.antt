-- ===== src/Bridge.antt =====
-- native/bridge/bridge.rs, the loopback Ogg bridge.
pub mod Result
pub mod Page
pub mod Headers
pub mod Http
pub mod Marker
pub mod Loop
