-- ===== src/Examples.antt =====
-- The tests of the library: concrete tables, limiters and scanners, and the theorems at concrete
-- inputs.
mod Choices
mod Rows
mod Data
mod Stages
mod Lanes
mod Stores
mod Workers
mod Lookups
mod Sinks
mod Feeds
mod Inputs
mod Views
mod Topics
mod Rescans
