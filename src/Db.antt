-- ===== src/Db.antt =====
-- dbservice: the messages seen, their expiry dates, the queues of aggregated scans, the statistics
-- of the outputs and the API key, each in a bucket of one bbolt file.
pub mod Bolt
pub mod Access
pub mod Messages
pub mod Expiry
pub mod Aggregator
pub mod Stats
pub mod SharedConfig
pub mod Params
pub mod Memory
mod Tests
