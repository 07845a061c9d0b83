-- ===== src/Manager.antt =====
-- The file manager of packet.c and its packet handlers: requests for hashes, and the answer to each
-- kind of packet. The sender's chunks, the receiver's buffers and the manager are the state.
mod State
mod File
mod Ask
mod Handle
pub mod Get
pub mod Acked
pub mod Reply
pub mod Questions
pub mod Request
pub mod Bytes
pub mod Finish
pub mod Output
pub mod Stored
pub mod Received
pub mod Again
pub mod Wanted
pub mod Have
mod Tests
mod FileTests
mod DataTests
mod AgainTests
mod HaveTests
unfoldable pub use State.*
unfoldable pub use File.*
unfoldable pub use Ask.*
unfoldable pub use Handle.*
