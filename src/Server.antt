-- ===== src/Server.antt =====
-- web/server: the parts of the HTTP server that decide something.
pub mod ClientMetrics
pub mod Fen
pub mod Json
pub mod FloatBits
pub mod RateLimit
pub mod ClientAddress
