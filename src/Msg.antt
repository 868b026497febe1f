-- ===== src/Msg.antt =====
-- msgservice: what happens to one message for one output of one route.
pub mod Value
mod Tests
pub mod UniqueKey
pub mod World
pub mod Handling
pub mod Scheduler
pub mod Logs
