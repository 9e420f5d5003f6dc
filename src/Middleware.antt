-- ===== src/Middleware.antt =====
-- middleware
pub mod Auth
pub mod Security
pub mod GeoBlock
