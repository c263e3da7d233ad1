-- ===== src/Connect/Tracks.antt =====
-- state/tracks.rs: the previous and the next tracks.
mod Lists
mod Fill
mod Playing
mod Changing
unfoldable pub use Lists.*
unfoldable pub use Fill.*
unfoldable pub use Playing.*
unfoldable pub use Changing.*
