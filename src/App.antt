-- ===== src/App.antt =====
-- internal/app/app.go: the routes with their guards, and the assembly of the application.
pub mod Routes
pub mod Build
pub mod Process
pub mod Upload
mod Tests
