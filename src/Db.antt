-- ===== src/Db.antt =====
-- internal/db: the start of the database, the pool's connections and the tracing of queries.
pub mod Migrate
pub mod Trace
mod Tests
