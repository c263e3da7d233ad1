-- ===== src/Connect/State.antt =====
-- state.rs: the data of `ConnectState`, and the operations on its scalar parts. The messages of
-- protobuf are records; a field that the engine only passes on is left out. `player` stands for
-- `request.device.player_state`, which is always there.
mod Data
mod Acting
mod Parts
unfoldable pub use Data.*
unfoldable pub use Acting.*
unfoldable pub use Parts.*
