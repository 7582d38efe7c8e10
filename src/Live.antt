-- ===== src/Live.antt =====
-- src/machine/live_drive_state.rs and usn.rs: the graph of a drive that the change journal keeps
-- up to date, the state around it, and the overlay over the published index.
pub mod Graph
pub mod Project
pub mod State
pub mod Overlay
pub mod Observe
pub mod Publish
