-- ===== src/Upload.antt =====
-- internal/upload, and the queries of internal/db/sqlc that it runs: files in an object store, with a
-- row for each.
pub mod Table
pub mod Links
pub mod Open
pub mod Filename
pub mod Process
pub mod Save
pub mod Handler
pub mod Samples
mod Tests
