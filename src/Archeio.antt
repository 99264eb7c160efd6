-- ===== src/Archeio.antt =====
-- cmd/archeio: the redirector.
pub mod Buckets
pub mod Config
pub mod Cache
pub mod Patterns
pub mod Urls
pub mod Handlers
pub mod Server
pub mod Main
pub mod Google
