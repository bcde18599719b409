-- ===== src/Graph.antt =====
-- The GraphQL operations and their transport: internal/graph/resolver and internal/graph/handler.go.
pub mod Avatar
pub mod Operations
pub mod Jobs
pub mod Subscriptions
pub mod Transport
pub mod Errors
pub mod Handshake
pub mod Pipeline
pub mod Bridge
mod Tests
