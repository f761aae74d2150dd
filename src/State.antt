-- ===== src/State.antt =====
-- eigrpd/eigrp_structs.h: the daemon's data structures, and the heap that holds them.
-- A pointer is a number, a pointer that may be NULL an `Option`, and a freed cell is `none`.
pub mod Packets
pub mod Records
pub mod Monad
pub mod Post
pub use Packets.*
pub use Records.*
unfoldable pub use Monad.*
pub use Post.*
