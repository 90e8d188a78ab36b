-- ===== src/Tui.antt =====
-- apps/tui/src/state.ts: the state of the terminal interface and the reducer that every action goes
-- through.
pub mod State
pub mod Events
pub mod Reducer
pub mod Listing
pub mod Sessions
pub mod Transcript
mod Tests
