-- ===== src/History.antt =====
-- The history of the database: that no operation of the program writes the event table otherwise
-- than by `EventLog.append`, and what follows for every sequence of operations.
pub mod Starting
pub mod Passing
pub mod Awaiting
pub mod Executing
pub mod Waking
pub mod Working
pub mod Steps
pub mod Lasting
pub mod Driving
pub mod Deciding
