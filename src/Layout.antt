-- ===== src/Layout.antt =====
-- layout and the layout providers of formatting: how a scan is written as text.
pub mod Provider
pub mod Total
pub mod Html
pub mod Jira
pub mod Slack
pub mod Vulnerabilities
pub mod Ticket
pub mod Legacy
mod Tests
