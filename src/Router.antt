-- ===== src/Router.antt =====
-- router: the configuration, the outputs and routes built from it, and the dispatch of messages.
mod Tests
pub mod Settings
pub mod State
pub mod Outputs
pub mod Lifecycle
pub mod Reload
pub mod Dispatch
pub mod Builders
