-- ===== src/Replay.antt =====
-- What replay promises: a step that the log holds is answered from the log.
pub mod Tracking
pub mod Steady
pub mod Checkpoints
pub mod Answers
pub mod Waiting
pub mod Joining
pub mod Calls
pub mod Bodies
pub mod Passes
pub mod Runs
pub mod Completed
pub mod Again
