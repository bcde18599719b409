-- ===== src/Profile.antt =====
-- internal/profile, and the queries of internal/db/sqlc that it runs.
pub mod Store
pub mod Service
pub mod PubSub
mod Tests
