-- ===== src/Ui.antt =====
-- ui/backend: the server behind the user interface, which edits the configuration file and shows the
-- statistics of the outputs. It is built on an older release of the other packages, so that what it
-- calls of them is a parameter.
pub mod World
pub mod Login
pub mod Config
pub mod Stats
pub mod Server
pub mod Main
pub mod Memory
mod Tests
