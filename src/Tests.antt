-- ===== src/Tests.antt =====
-- Tests of the model, and the theorems at concrete inputs.
pub mod Requests
pub mod Timers
pub mod Pools
pub mod Earlier
pub mod Echo
pub mod Locks
pub mod Startup
pub mod Answers
pub mod Whole
pub mod Connections
pub mod Clients
pub mod HalfClose
pub mod Sessions
pub mod Workers
pub mod Turns
