-- ===== src/Async.antt =====
-- internal/async: scans that outlive the call which started them.
pub mod Continuation
pub mod Resume
pub mod Worker
pub mod Broker
