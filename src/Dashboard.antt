-- ===== src/Dashboard.antt =====
-- internal/dashboard: the read-only view of the findings in Elasticsearch (es.go, api.go, server.go).
pub mod Json
pub mod Query
pub mod Client
pub mod Requests
pub mod Api
pub mod Server
pub mod Filtered
pub mod Views
pub mod Missing
