-- ===== src/Proxy.antt =====
-- proxy.rs: serving a client's request, forwarding stored ones, and calling COPS.
pub mod Call
pub mod Serve
pub mod Concurrent
pub mod Forward
pub mod Secure
pub mod Shutdown
pub mod Run
