-- ===== src/Tests.antt =====
-- Concrete requests, configurations, caches and a network, and the theorems at them.
mod Samples
mod Cops
mod Settings
mod Configure
mod Main
mod Cache
mod Contract
mod Exchange
mod Concurrent
mod Serve
mod Server
mod Forward
