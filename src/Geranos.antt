-- ===== src/Geranos.antt =====
-- cmd/geranos: the copier of images from the registry to a bucket.
pub mod Store
pub mod Uploader
pub mod Walk
pub mod Threads
pub mod Main
pub mod Crowd
pub mod RateLimit
