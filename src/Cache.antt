-- ===== src/Cache.antt =====
-- cache.rs: the cache of requests and responses in a SQLite database.
pub mod Keys
pub mod Tables
pub mod Engine
pub mod Store
pub mod Fetch
pub mod Invariant
pub mod Open
pub mod Methods
pub mod Exchange
pub mod Contract
