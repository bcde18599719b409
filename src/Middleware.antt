-- ===== src/Middleware.antt =====
-- internal/middleware and internal/clientip: what stands in front of every handler.
pub mod RealIp
pub mod RateLimit
pub mod BasicAuth
mod Tests
