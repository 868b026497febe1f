-- ===== src/Outputs.antt =====
-- outputs: where messages are sent to.
mod Tests
pub mod Records
pub mod Jira
pub mod Chat
pub mod Recipients
pub mod Email
pub mod Splunk
