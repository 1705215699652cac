-- ===== src/Pipeline.antt =====
-- internal/pipeline: the stages of a scan.
pub mod Build
pub mod Discover
pub mod Fetch
pub mod Payload
pub mod Lane
pub mod Publish
pub mod Flush
pub mod Delivery
