-- ===== src/Sender.antt =====
-- The sending side of flow_control.c: a `data_t` for each chunk that is sent, its sliding window and
-- its congestion control. `list` and the lines of the window log are the state.
mod State
mod Window
mod Ack
pub mod Sent
pub mod Returned
pub mod Pending
pub mod Marks
pub mod Invariant
pub mod Sending
pub mod Safety
pub mod Congestion
pub mod Replies
pub mod Stall
mod Tests
unfoldable pub use State.*
unfoldable pub use Window.*
unfoldable pub use Ack.*
