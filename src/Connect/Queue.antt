-- ===== src/Connect/Queue.antt =====
-- What the operations on the previous and the next tracks do.
pub mod Keeps
pub mod Filling
pub mod Loop
pub mod FillUp
pub mod Bounds
pub mod PopLast
pub mod Commands
pub mod Sessions
pub mod Upcoming
pub mod Refilling
pub mod Playing
pub mod InOrder
pub mod Adding
pub mod Returning
